-- ===== src/Mctp/Remote/Runs.antt =====
-- services/mctp/client-ipc and services/mctp/server: sequences of calls.
use openprot.Mctp.Remote.{World}
use openprot.Mctp.Client.{IpcMctpClient}
use openprot.Mctp.Remote.Calls.{remote, local, Answer, Call}
use openprot.Mctp.Server.{Server, PendingRecv}
use openprot.Mctp.Stack.{LinearMap, Router}
use openprot.Prelude.{List, [], ◌∷◌}

module _ (rt : Router) (map : LinearMap PendingRecv) where
  abbrev Answers : Type 0
  Answers = Server rt map × List ((call : Call) × Answer call)

  abbrev answered : (call : Call) → Answer call → Answers → Answers
  answered call a (s, answers) = (s, (call, a) ∷ answers)

  -- The answers of a sequence of calls over the channel, and of the server's own methods, with the
  -- server that is left.
  unfoldable pub run_remote : List Call → IpcMctpClient → World rt map → Answers
  run_remote [] c w = (w.server, [])
  run_remote (call ∷ calls) c w =
      let (c', w', a) = remote rt map call c w in answered call a (run_remote calls c' w')

  unfoldable pub run_local : List Call → Server rt map → Answers
  run_local [] s = (s, [])
  run_local (call ∷ calls) s =
      let (s', a) = local rt map call s in answered call a (run_local calls s')
