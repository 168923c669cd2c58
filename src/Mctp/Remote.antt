-- ===== src/Mctp/Remote.antt =====
-- services/mctp/client-ipc and services/mctp/server together: a channel that hands each request to the
-- dispatch and each response back, as the firmware's server loop does over the kernel's channel. A
-- dispatch that panics or that leaves the caller waiting gives no response, which is an error here.
pub mod Exchange
pub mod Replies
pub mod Flags
pub mod Calls
pub mod Sessions
pub mod Sending
pub mod Runs
pub mod Replying
pub mod Receiving
use openprot.Prelude.{copy_at, ℕ, Option, none, some, List, Result, ok, err, take}
use openprot.Mctp.Stack.{Router, LinearMap}
use openprot.Mctp.Server
use openprot.Mctp.Server.{PendingRecv, Server}
use openprot.Mctp.Server.Dispatch.{DispatchOutcome, reply, pending, Dispatched, dispatch_mctp_op}
use openprot.Mctp.Client
use openprot.Mctp.Client.{Channel}

module _ (rt : Router) (map : LinearMap PendingRecv) where
  -- What the server's process keeps between requests.
  pub record World : Type 0 where
    pub server : Server rt map
    pub recv_buf : List ℕ
    pub response : List ℕ
    pub now : ℕ

  abbrev pub respond :
      World → List ℕ → Dispatched rt map → DispatchOutcome → World × List ℕ × Result {0, 0} Unit ℕ
  respond w client_buf d (reply n) = (
    record w { server = d.server; recv_buf = d.recv_buf; response = d.response },
    copy_at client_buf 0 (take n d.response),
    ok n,
  )
  respond w client_buf d (pending _) = (
    record w { server = d.server; recv_buf = d.recv_buf; response = d.response },
    client_buf,
    err tt,
  )

  abbrev pub deliver :
      World → List ℕ → Option (Dispatched rt map) → World × List ℕ × Result {0, 0} Unit ℕ
  deliver w client_buf none = (w, client_buf, err tt)
  deliver w client_buf (some d) = respond w client_buf d d.outcome

  abbrev pub channel : Channel
  channel = record {
    W = World;
    channel_transact = λ handle request client_buf w.
        deliver w client_buf (dispatch_mctp_op rt map request w.response w.server w.recv_buf w.now);
  }
