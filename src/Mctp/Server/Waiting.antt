-- ===== src/Mctp/Server/Waiting.antt =====
-- services/mctp/server/src/dispatch.rs: a `Recv` request for which there is no message yet.
use openprot.Prelude.{
  ℕ, ◌+◌, ◌%◌, ◌^◌, ◌≡◌, refl, ap, ◌∙◌, inl, inr, none, some, List, length, ltb, not, ◌==◌, ==_refl,
  if◌then◌else◌, Bool-cases, err, Result, ok,
}
use openprot.Mctp.{MctpOp}
use openprot.Mctp.Wire.{MctpRequestHeader, request_from_bytes, operation}
use openprot.Mctp.Wire.Requests.{get_recv_timeout}
use openprot.Mctp.Stack.{Router, LinearMap, IsLinearMap}
use openprot.Mctp.Server.{PendingRecv, Server, register_recv, try_recv, inserted}
use openprot.Mctp.Server.Dispatch.{
  Dispatched, pending, dispatch_mctp_op, dispatch_header, dispatch_op, dispatch_recv,
}

-- The deadline of a receive call, 0 for none.
abbrev pub deadline_of : ℕ → ℕ → ℕ
deadline_of timeout now = if not (timeout == 0) then (now + timeout) % 2 ^ 64 else 0

module _ (rt : Router) (map : LinearMap PendingRecv) (n : ℕ) (laws : IsLinearMap map n) where
  outstanding-inserted :
      (s : Server rt map) (x : map.M × Result {0, 0} PendingRecv Unit)
      → (inserted rt map s x).0.outstanding ≡ x.0
  outstanding-inserted s (m, ok u) = refl
  outstanding-inserted s (m, err v) = refl

  register_recv-get :
      (s : Server rt map) (handle timeout now : ℕ)
      → map.get s.outstanding handle ≡ none
      → map.get (register_recv rt map s handle timeout now).0.outstanding handle ≡ (
          if ltb (length (map.entries s.outstanding)) n
          then some record { deadline = deadline_of timeout now }
          else none)
  unfolding register_recv
  register_recv-get s handle timeout now absent =
      elim (Bool-cases (ltb (length (map.entries s.outstanding)) n)) [
        | inl y ↦
            let p : PendingRecv = record { deadline = deadline_of timeout now } in
            rw (absent, y)
              (ap (λ m. map.get m handle)
                  (outstanding-inserted s (map.insert s.outstanding handle p))
                ∙ IsLinearMap.get-insert laws s.outstanding handle handle p y
                ∙ rw (==_refl handle) refl)
        | inr f ↦
            rw
              (
                absent,
                f,
                IsLinearMap.insert_full laws s.outstanding handle
                    record { deadline = deadline_of timeout now } f absent,
              )
              absent
      ]

  -- A `Recv` request without a message, on a handle on which no call waits, is answered later: the
  -- dispatch says so, and the call is kept with its deadline. When the map is full the dispatch says so
  -- as well, but the call is not kept.
  pub recv_waits :
      (request response : List ℕ) (s : Server rt map) (recv_buf : List ℕ) (now : ℕ)
      (h : MctpRequestHeader)
      → request_from_bytes request ≡ some h
      → operation h ≡ some MctpOp.recv
      → (rt.recv s.stack h.handle).1 ≡ none
      → map.get s.outstanding h.handle ≡ none
      → (d : Dispatched rt map) × (dispatch_mctp_op rt map request response s recv_buf now ≡ some d)
        × (d.outcome ≡ pending h.handle)
        × (map.get d.server.outstanding h.handle ≡ (
            if ltb (length (map.entries s.outstanding)) n
            then some record { deadline = deadline_of (get_recv_timeout request) now }
            else none))
  unfolding dispatch_mctp_op dispatch_header dispatch_op try_recv dispatch_recv
  recv_waits request response s recv_buf now h e op silent absent =
      let s' : Server rt map = record s { stack = (rt.recv s.stack h.handle).0 } in
      let registered = register_recv rt map s' h.handle (get_recv_timeout request) now in
      (
        record {
          server = registered.0;
          recv_buf = recv_buf;
          response = response;
          outcome = pending h.handle;
        },
        rw (e, dispatch_header, op, silent) refl,
        refl,
        register_recv-get s' h.handle (get_recv_timeout request) now absent,
      )
