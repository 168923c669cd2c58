-- ===== src/Mctp/Remote/Replying.antt =====
-- services/mctp/server/src/dispatch.rs: every request gets a response, whatever bytes it is made of.
use openprot.Mctp.Remote.Replies.{
  reply_tag-sends, reply_handle-sends, handle_header, reply_eid-sends, reply_unit-sends,
  unit_header, sends, encode_error-sends,
}
use openprot.Prelude.{
  length-copy_front, length-append, ◌++◌, ℕ, ◌+◌, ◌≤◌, ◌≡◌, refl, inl, inr, true, Option, none,
  some, List, length, take, leb, ltb, Bool-cases, Option-cases, err, Result, Bool, subst, sym,
  arith,
}
use mathlib.Core.Option
use openprot.Mctp.{MctpOp, ResponseCode}
use openprot.Mctp.Wire.{
  error_header, buffer_too_small, payload_too_large, MctpRequestHeader, request_from_bytes,
  operation, WireError, write_both, response_bytes, MctpResponseHeader,
}
use openprot.Mctp.Wire.Buffers.{Wrote, write_both-Wrote}
use openprot.Mctp.Wire.RoundTrip.{length-response_bytes}
use openprot.Mctp.Wire.Responses.{encode_recv_response}
use openprot.Mctp.Stack.{Router, LinearMap, MctpMessage}
use openprot.Mctp.Server
use openprot.Mctp.Server.{PendingRecv, Server, RecvMetadata, metadata, copy_payload}
use openprot.Mctp.Server.Dispatch.{
  dispatch_send, replied, Dispatched, DispatchOutcome, reply, pending, dispatch_mctp_op,
  dispatch_header, dispatch_op, dispatch_recv, reply_message, or_internal,
}

-- The length of the response that an encoder leaves is between that of a header and that of the buffer,
-- and the buffer keeps its length.
abbrev pub IsResponse : ℕ → List ℕ × ℕ → Type 0
IsResponse room (response, n) = (12 ≤ n) × (n ≤ room) × (length response ≡ room)

abbrev pub IsOutcome : ℕ → List ℕ → DispatchOutcome → Type 0
IsOutcome room response (reply n) = IsResponse room (response, n)
IsOutcome room response (pending _) = length response ≡ room

sends-IsResponse :
    (response : List ℕ) (h : MctpResponseHeader)
    → 12 ≤ length response
    → IsResponse (length response) (sends response h)
sends-IsResponse response h room = (
  omega arith,
  room,
  length-copy_front response (response_bytes h) (omega (arith, length-response_bytes h)),
)

Wrote-IsResponse :
    (room : ℕ) (h : MctpResponseHeader) (payload : List ℕ)
    (enc : List ℕ × Result {0, 0} WireError ℕ)
    → 12 + length payload ≤ room
    → Wrote room (response_bytes h ++ payload) enc
    → IsResponse room (or_internal enc)
Wrote-IsResponse room h payload (response, result) fits wrote = rw wrote.0 (
  omega (arith, length-append (response_bytes h) payload, length-response_bytes h),
  omega (arith, length-append (response_bytes h) payload, length-response_bytes h),
  wrote.2,
)

-- An encoding that is refused is answered with an error.
refused-IsResponse :
    (response : List ℕ) (e : WireError)
    → 12 ≤ length response
    → IsResponse (length response) (or_internal (response, err e))
refused-IsResponse response e room =
    rw (encode_error-sends response ResponseCode.internal_error room)
      (sends-IsResponse response (error_header ResponseCode.internal_error) room)

encode_recv_response-IsResponse :
    (response : List ℕ) (msg_type : ℕ) (ic : Bool) (eid tag : ℕ) (payload : List ℕ)
    → 12 ≤ length response
    → IsResponse
        (length response)
        (or_internal (encode_recv_response response msg_type ic eid tag payload))
unfolding encode_recv_response
encode_recv_response-IsResponse response msg_type ic eid tag payload room =
    elim (Bool-cases (ltb 1023 (length payload))) [
      | inl big ↦ rw big (refused-IsResponse response payload_too_large room)
      | inr f ↦ rw f (elim (Bool-cases (ltb (length response) (12 + length payload))) [
        | inl short ↦ rw short (refused-IsResponse response buffer_too_small room)
        | inr fits ↦
            Wrote-IsResponse (length response) _ payload
              (write_both response (response_bytes _) payload) (ground (arith, fits))
              (write_both-Wrote response (response_bytes _) payload (length-response_bytes _)
                (ground (arith, fits)))
      ])
    ]

module _ (rt : Router) (map : LinearMap PendingRecv) where
  -- The dispatch does not panic, and it answers, or says that it will.
  abbrev pub Answers : List ℕ → Option (Dispatched rt map) → Type 0
  Answers response o =
      (d : Dispatched rt map) × (o ≡ some d) × IsOutcome (length response) d.response d.outcome

  replied-Answers :
      (response : List ℕ) (s : Server rt map) (recv_buf : List ℕ) (x : List ℕ × ℕ)
      → IsResponse (length response) x
      → Answers response (some (replied rt map s recv_buf x))
  replied-Answers response s recv_buf x good = (replied rt map s recv_buf x, refl, good)

  sent :
      (response : List ℕ) (s : Server rt map) (recv_buf : List ℕ) (h : MctpResponseHeader)
      (x : List ℕ × ℕ)
      → 12 ≤ length response
      → x ≡ sends response h
      → Answers response (some (replied rt map s recv_buf x))
  sent response s recv_buf h x room e =
      replied-Answers response s recv_buf x
        (subst (IsResponse (length response)) (sym e) (sends-IsResponse response h room))

  length-copy_payload :
      (buf : List ℕ) (msg : MctpMessage) → length (copy_payload buf msg) ≡ length buf
  unfolding copy_payload
  length-copy_payload buf msg = elim (Bool-cases (leb (length msg.payload) (length buf))) [
    | inl y ↦ rw y (length-copy_front buf msg.payload (ground (arith, y)))
    | inr f ↦ rw f refl
  ]

  message-Answers :
      (response : List ℕ) (s : Server rt map) (recv_buf : List ℕ) (meta : RecvMetadata)
      → 12 ≤ length response
      → meta.payload_size ≤ length recv_buf
      → Answers response
          (Option.map (replied rt map s recv_buf) (reply_message response recv_buf meta))
  unfolding reply_message
  message-Answers response s recv_buf meta room fits = rw the_slice (
      replied-Answers response s recv_buf _ (
        encode_recv_response-IsResponse response meta.msg_type meta.msg_ic meta.remote_eid
          meta.msg_tag (take meta.payload_size recv_buf) room))
    where
      the_slice : leb meta.payload_size (length recv_buf) ≡ true
      the_slice = ground arith

  recv-Answers :
      (request : List ℕ) (h : MctpRequestHeader) (response : List ℕ) (s : Server rt map)
      (recv_buf : List ℕ) (now : ℕ)
      → 12 ≤ length response
      → ((stack : rt.S) (k : ℕ) (msg : MctpMessage)
          → (rt.recv stack k).1 ≡ some msg
          → length msg.payload ≤ length recv_buf)
      → Answers response (dispatch_op rt map MctpOp.recv request h response s recv_buf now)
  unfolding dispatch_op dispatch_recv Server.try_recv metadata
  recv-Answers request h response s recv_buf now room bounded =
      elim (Option-cases (rt.recv s.stack h.handle).1) [
        | inl silent ↦ rw silent (_, refl, refl)
        | inr (msg, e) ↦ rw e (
            message-Answers response _ (copy_payload recv_buf msg) (metadata msg) room
              (omega (arith, length-copy_payload recv_buf msg, bounded s.stack h.handle msg e)))
      ]

  op-Answers :
      (op : MctpOp) (request : List ℕ) (h : MctpRequestHeader) (response : List ℕ)
      (s : Server rt map) (recv_buf : List ℕ) (now : ℕ)
      → 12 ≤ length response
      → ((stack : rt.S) (k : ℕ) (msg : MctpMessage)
          → (rt.recv stack k).1 ≡ some msg
          → length msg.payload ≤ length recv_buf)
      → Answers response (dispatch_op rt map op request h response s recv_buf now)
  unfolding dispatch_op dispatch_send
  op-Answers MctpOp.set_eid request h response s recv_buf now room bounded =
      let (s', r) = Server.set_eid rt map s h.eid in
      sent response s' recv_buf (unit_header r) _ room (reply_unit-sends response r room)
  op-Answers MctpOp.get_eid request h response s recv_buf now room bounded =
      sent response s recv_buf _ _ room (reply_eid-sends response (Server.get_eid rt map s) room)
  op-Answers MctpOp.listener request h response s recv_buf now room bounded =
      let (s', r) = Server.listener rt map s h.msg_type in
      sent response s' recv_buf (handle_header r) _ room (reply_handle-sends response r room)
  op-Answers MctpOp.req request h response s recv_buf now room bounded =
      let (s', r) = Server.req rt map s h.eid in
      sent response s' recv_buf (handle_header r) _ room (reply_handle-sends response r room)
  op-Answers MctpOp.recv request h response s recv_buf now room bounded =
      recv-Answers request h response s recv_buf now room bounded
  op-Answers MctpOp.send request h response s recv_buf now room bounded =
      sent response _ recv_buf _ _ room (reply_tag-sends response _ room)
  op-Answers MctpOp.unbind request h response s recv_buf now room bounded =
      let (s', r) = Server.unbind rt map s h.handle in
      sent response s' recv_buf (unit_header r) _ room (reply_unit-sends response r room)

  header-Answers :
      (o : Option MctpRequestHeader) (request response : List ℕ) (s : Server rt map)
      (recv_buf : List ℕ) (now : ℕ)
      → 12 ≤ length response
      → ((stack : rt.S) (k : ℕ) (msg : MctpMessage)
          → (rt.recv stack k).1 ≡ some msg
          → length msg.payload ≤ length recv_buf)
      → Answers response (dispatch_header rt map o request response s recv_buf now)
  unfolding dispatch_header
  header-Answers none request response s recv_buf now room bounded =
      sent response s recv_buf _ _ room (encode_error-sends response ResponseCode.bad_argument room)
  header-Answers (some h) request response s recv_buf now room bounded =
      elim (Option-cases (operation h)) [
        | inl unknown ↦
            rw (dispatch_header, unknown)
              (sent response s recv_buf _ _ room
                (encode_error-sends response ResponseCode.bad_argument room))
        | inr (op, e) ↦
            rw (dispatch_header, e) (op-Answers op request h response s recv_buf now room bounded)
      ]

  -- Whatever bytes a request is made of, the dispatch answers it or says that the answer comes later,
  -- without a panic: the response has at least a header, and lies in its buffer, which keeps its length.
  -- The buffer holds a header, and the router's messages fit the receive buffer.
  pub dispatch_mctp_op-Answers :
      (request response : List ℕ) (s : Server rt map) (recv_buf : List ℕ) (now : ℕ)
      → 12 ≤ length response
      → ((stack : rt.S) (k : ℕ) (msg : MctpMessage)
          → (rt.recv stack k).1 ≡ some msg
          → length msg.payload ≤ length recv_buf)
      → Answers response (dispatch_mctp_op rt map request response s recv_buf now)
  unfolding dispatch_mctp_op
  dispatch_mctp_op-Answers request response s recv_buf now room bounded =
      header-Answers (request_from_bytes request) request response s recv_buf now room bounded
