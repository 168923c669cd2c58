-- ===== src/Mctp/Examples.antt =====
-- The MCTP service at concrete inputs: a router that holds at most one message, and a map of one place.
use openprot.Mctp.Remote.Receiving.{recv-message}
use openprot.Mctp.Server.Dispatch.{pending, dispatch_mctp_op, Dispatched}
use openprot.Prelude.{
  copy_at, length-zeros, zeros, ℕ, ◌≡◌, refl, Bool, true, false, ◌==◌, if◌then◌else◌, Option, none,
  some, List, [], ◌∷◌, Result, ok, err, length, arith, ltb, subst, some-injective, ◌≤◌,
}
use openprot.Mctp.{op_from_u8}
use openprot.Mctp.Wire.{request_from_bytes, operation, MctpRequestHeader, request_bytes}
use openprot.Mctp.Stack.{
  StackError, owned, unowned, MctpMessage, Router, LinearMap, IsLinearMap, find_key, IsUnique,
}
use openprot.Mctp.Server.{metadata, PendingRecv, Server, update}
use openprot.Mctp.Server.Waiting.{recv_waits}
use openprot.Mctp.Client
use openprot.Mctp.Client.{IpcMctpClient}
use openprot.Mctp.Remote.{channel, World}
use openprot.Mctp.Remote.Calls.{Call}
use openprot.Mctp.Remote.Replying.{dispatch_mctp_op-Answers, Answers}

abbrev hello : MctpMessage
hello = record { source = 9; typ = 1; ic = false; tag = unowned 3; payload = 104 ∷ 105 ∷ [] }

-- The state says whether the message is there.
abbrev mailbox : Router
mailbox = record {
  S = Bool;
  get_eid = λ s. 8;
  set_eid = λ s eid. (s, ok tt);
  req = λ s eid. (s, ok 5);
  listener = λ s typ. (s, err StackError.no_space);
  recv = λ s cookie. (false, if s then some hello else none);
  send = λ s eid typ tag ic cookie payload. (s, ok (owned 3));
  update = λ s now. (s, ok 100);
  unbind = λ s cookie. (s, ok tt);
  inbound = λ s pkt. (true, ok 0);
}

abbrev one_entries : Option (ℕ × PendingRecv) → List (ℕ × PendingRecv)
one_entries none = []
one_entries (some e) = e ∷ []

abbrev one_remove : Option (ℕ × PendingRecv) → ℕ → Option (ℕ × PendingRecv)
one_remove none k = none
one_remove (some e) k = if e.0 == k then none else some e

abbrev one_insert :
    Option (ℕ × PendingRecv)
    → ℕ
    → PendingRecv
    → Option (ℕ × PendingRecv) × Result {0, 0} PendingRecv Unit
one_insert none k v = (some (k, v), ok tt)
one_insert (some e) k v = if e.0 == k then (some (k, v), ok tt) else (some e, err v)

abbrev one_place : LinearMap PendingRecv
one_place = record {
  M = Option (ℕ × PendingRecv);
  empty = none;
  get = λ m k. find_key (one_entries m) k;
  insert = one_insert;
  remove = one_remove;
  entries = one_entries;
}

one_entries-IsUnique : (m : Option (ℕ × PendingRecv)) → IsUnique (one_entries m)
unfolding find_key
one_entries-IsUnique none = tt
one_entries-IsUnique (some e) = (refl, tt)

one_length : (m : Option (ℕ × PendingRecv)) → length (one_entries m) ≤ 1
one_length none = omega arith
one_length (some e) = omega arith

one_get_remove :
    (m : Option (ℕ × PendingRecv)) (j k : ℕ)
    → find_key (one_entries (one_remove m j)) k
      ≡ (if j == k then none else find_key (one_entries m) k)
unfolding find_key
one_get_remove none j k = ground arith
one_get_remove (some e) j k = ground arith

one_get_insert :
    (m : Option (ℕ × PendingRecv)) (j k : ℕ) (v : PendingRecv)
    → ltb (length (one_entries m)) 1 ≡ true
    → find_key (one_entries (one_insert m j v).0) k
      ≡ (if j == k then some v else find_key (one_entries m) k)
unfolding find_key
one_get_insert none j k v h = refl
one_get_insert (some e) j k v h = cc

one_insert_full :
    (m : Option (ℕ × PendingRecv)) (j : ℕ) (v : PendingRecv)
    → ltb (length (one_entries m)) 1 ≡ false
    → find_key (one_entries m) j ≡ none
    → one_insert m j v ≡ (m, err v)
unfolding find_key
one_insert_full none j v h a = cc
one_insert_full (some e) j v h a = ground arith

one_place-IsLinearMap : IsLinearMap one_place 1
unfolding find_key
one_place-IsLinearMap = record {
  get-empty = λ k. refl;
  find-entries = λ m k. refl;
  unique = one_entries-IsUnique;
  length-entries = one_length;
  get-remove = one_get_remove;
  get-insert = one_get_insert;
  insert_full = one_insert_full;
}

abbrev waiting_server : Server mailbox one_place
waiting_server = record {
  stack = true;
  outstanding = some (4, record { deadline = 50 });
  max_outstanding = 1;
}

abbrev full_server : Server mailbox one_place
full_server = record {
  stack = false;
  outstanding = some (4, record { deadline = 0 });
  max_outstanding = 1;
}

abbrev idle_server : Server mailbox one_place
idle_server = record { stack = false; outstanding = none; max_outstanding = 1 }

abbrev a_client : IpcMctpClient
a_client = record { handle = 7; request_buf = zeros 1035; response_buf = zeros 1035 }

abbrev a_world : World mailbox one_place
a_world = record { server = idle_server; recv_buf = zeros 1023; response = zeros 1035; now = 0 }

abbrev some_calls : List Call
some_calls =
    Call.set_eid 9
    ∷ Call.req 9
    ∷ Call.send (some 5) 1 none (some 2) true (1 ∷ 2 ∷ 3 ∷ [])
    ∷ Call.listener 1
    ∷ Call.get_eid
    ∷ Call.drop_handle 5
    ∷ []

abbrev recv_header : MctpRequestHeader
recv_header = record { op = 4; flags = 2; msg_type = 0; eid = 0; handle = 6; tag = 0 }

-- A second receive call, when the only place is taken.
recv_waits_example :
    (d : Dispatched mailbox one_place) × (dispatch_mctp_op mailbox one_place
        (request_bytes recv_header)
        (zeros 16)
        full_server
        (zeros 8)
        10
      ≡ some d)
    × (d.outcome ≡ pending 6)
    × (find_key (one_entries d.server.outstanding) 6 ≡ none)
unfolding operation op_from_u8 find_key request_bytes request_from_bytes
recv_waits_example =
    recv_waits mailbox one_place 1 one_place-IsLinearMap (request_bytes recv_header) (zeros 16)
      full_server (zeros 8) 10 recv_header refl refl refl refl

short_messages :
    (stack : Bool) (k : ℕ) (msg : MctpMessage)
    → (mailbox.recv stack k).1 ≡ some msg
    → length msg.payload ≤ length (zeros 8)
short_messages true k msg e =
    subst (λ m. length (MctpMessage.payload m) ≤ 8) (some-injective _ _ e) (omega arith)
short_messages false k msg e = cc

dispatch_mctp_op-Answers_example :
    Answers mailbox one_place
      (zeros 16)
      (dispatch_mctp_op mailbox one_place (4 ∷ 2 ∷ []) (zeros 16) waiting_server (zeros 8) 10)
dispatch_mctp_op-Answers_example =
    dispatch_mctp_op-Answers mailbox one_place (4 ∷ 2 ∷ []) (zeros 16) waiting_server (zeros 8) 10
      (omega arith) short_messages

abbrev world_with_message : World mailbox one_place
world_with_message = record {
  server = waiting_server;
  recv_buf = zeros 1023;
  response = zeros 1035;
  now = 0;
}

recv-message_example :
    let (_, w', buf', r) =
      Client.recv (channel mailbox one_place) a_client world_with_message 4 0 (zeros 8) in
    (r ≡ ok (metadata hello))
    × (buf' ≡ copy_at (zeros 8) 0 (104 ∷ 105 ∷ []))
    × (w'.server ≡ record waiting_server { stack = false })
recv-message_example =
    recv-message mailbox one_place 4 0 hello (zeros 8) a_client world_with_message
      (length-zeros 1035, length-zeros 1035, length-zeros 1035) (omega arith) refl
      (omega (arith, length-zeros 1023)) (omega arith)
