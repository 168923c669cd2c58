-- ===== src/Mctp/Remote/Receiving.antt =====
-- services/mctp/client-ipc and services/mctp/server: `recv` over the channel when a message is there.
use openprot.Mctp.Wire.RoundTrip.{
  response_from_bytes-bytes, length-request_bytes, length-response_bytes,
}
use openprot.Mctp.Remote.Calls.{IsReady}
use openprot.Mctp.Client.{is_success, send_recv, transact, read_response, request, IpcMctpClient}
use openprot.Mctp.Wire.Requests.{encode_recv}
use openprot.Mctp.Remote.Replies.{op_from_u8-byte, dispatch-bytes}
use openprot.Mctp.Wire.Buffers.{Wrote, write_both-Wrote}
use openprot.Mctp.Remote.{Server, Result, copy_at, channel, dispatch_mctp_op, World}
use openprot.Mctp.{ResponseCode, code_byte, MctpOp, op_byte}
use openprot.Mctp.Server.Dispatch.{
  has_flag, reply_message, dispatch_recv, dispatch_op, or_internal, replied, slice_to,
}
use openprot.Mctp.Wire.Responses.{
  decode_response_header, encode_recv_response, get_response_payload,
}
use openprot.Mctp.Stack.{tag_value, LinearMap, Router, MctpMessage}
use openprot.Mctp.Wire.{
  WireError, ic_flag, write_both, request_bytes, has_handle, MctpResponseHeader, response_bytes,
  MctpRequestHeader,
}
use openprot.Mctp.Server.{metadata, PendingRecv, copy_payload}
use openprot.Prelude.{
  copy_front, take-append, u32_bytes, Bool, length-append, ok, leb, ℕ, ◌+◌, ◌^◌, ◌≤◌, ◌<◌, ◌≡◌,
  refl, ap, ◌∙◌, subst, some, List, ◌++◌, length, take, drop, min, if◌then◌else◌, ◌%◌, take_all, ok,
  arith, ltb, true, false,
}
use openprot.Mctp.Server
use openprot.Mctp.Client

-- The header of the response that carries a message.
abbrev message_header : MctpMessage → MctpResponseHeader
message_header msg = record {
  code = code_byte ResponseCode.success;
  flags = if msg.ic then ic_flag else 0;
  msg_type = msg.typ;
  eid = msg.source;
  handle = 0;
  payload_len = length msg.payload % 65536;
  tag = tag_value msg.tag;
}

abbrev recv_header : ℕ → MctpRequestHeader
recv_header handle = record {
  op = op_byte MctpOp.recv;
  flags = has_handle;
  msg_type = 0;
  eid = 0;
  handle = handle;
  tag = 0;
}

slice-copy_payload :
    (buf : List ℕ) (msg : MctpMessage)
    → length msg.payload ≤ length buf
    → slice_to (copy_payload buf msg) (length msg.payload) ≡ some msg.payload
unfolding copy_payload
slice-copy_payload buf msg fits =
    rw (the_copy, copy_front buf msg.payload) (rw (the_slice, take-append msg.payload _) refl)
  where
    the_copy : leb (length msg.payload) (length buf) ≡ true
    the_copy = ground arith

    the_slice :
        leb (length msg.payload) (length (msg.payload ++ drop (length msg.payload) buf)) ≡ true
    the_slice = ground (arith, length-append msg.payload (drop (length msg.payload) buf))

get_response_payload-bytes :
    (msg : MctpMessage)
    → length msg.payload ≤ 1023
    → get_response_payload (response_bytes (message_header msg) ++ msg.payload) (message_header msg)
      ≡ ok msg.payload
unfolding get_response_payload response_bytes
get_response_payload-bytes msg small =
    rw (the_length, the_room, take_all (length msg.payload) msg.payload (omega arith)) refl
  where
    the_length : length msg.payload % 65536 ≡ length msg.payload
    the_length = omega arith

    the_room :
        ltb (length (response_bytes (message_header msg) ++ msg.payload)) (12 + length msg.payload)
        ≡ false
    the_room = ground arith

encode_recv_response_room :
    (response : List ℕ) (msg : MctpMessage)
    → length msg.payload ≤ 1023
    → encode_recv_response response msg.typ msg.ic msg.source (tag_value msg.tag) msg.payload
      ≡ write_both response (response_bytes (message_header msg)) msg.payload
unfolding encode_recv_response
encode_recv_response_room response msg small = rw the_room refl
  where
    the_room : ltb 1023 (length msg.payload) ≡ false
    the_room = ground arith

flag-arrives : (ic : Bool) → has_flag (if ic then ic_flag else 0) ic_flag ≡ ic
flag-arrives true = refl
flag-arrives false = refl

-- The bytes of the response that carries a message.
abbrev message_bytes : MctpMessage → List ℕ
message_bytes msg = response_bytes (message_header msg) ++ msg.payload

length-message_bytes : (msg : MctpMessage) → length (message_bytes msg) ≡ 12 + length msg.payload
length-message_bytes msg = omega (
  arith,
  length-append (response_bytes (message_header msg)) msg.payload,
  length-response_bytes (message_header msg),
)

take_message :
    (msg : MctpMessage) (buf : List ℕ)
    → take (length (message_bytes msg)) (copy_at buf 0 (message_bytes msg)) ≡ message_bytes msg
take_message msg buf =
    ap (take (length (message_bytes msg))) (copy_front buf (message_bytes msg))
    ∙ take-append (message_bytes msg) _

read_message :
    (msg : MctpMessage) (buf : List ℕ)
    → length msg.payload ≤ 1023
    → read_response (copy_at buf 0 (message_bytes msg)) (ok (length (message_bytes msg)))
      ≡ ok (message_header msg, length (message_bytes msg))
unfolding read_response decode_response_header is_success code_byte
read_message msg buf small =
    rw
      (
        at_least,
        at_most,
        take_message msg buf,
        response_from_bytes-bytes (message_header msg) msg.payload (omega arith) (omega arith),
      )
      refl
  where
    at_least : ltb (length (message_bytes msg)) 12 ≡ false
    at_least = ground (arith, length-message_bytes msg)

    at_most : ltb 1035 (length (message_bytes msg)) ≡ false
    at_most = ground (arith, length-message_bytes msg)

module _ (rt : Router) (map : LinearMap PendingRecv) where
  -- The dispatch of the request takes the message from the router and answers with it.
  dispatch_recv-message :
      (handle timeout : ℕ) (msg : MctpMessage) (w : World rt map)
      → handle < 2 ^ 32
      → length w.response ≡ 1035
      → (rt.recv w.server.stack handle).1 ≡ some msg
      → length msg.payload ≤ length w.recv_buf
      → length msg.payload ≤ 1023
      → dispatch_mctp_op rt map
          (request_bytes (recv_header handle) ++ u32_bytes timeout)
          w.response
          w.server
          w.recv_buf
          w.now
        ≡ some (
            replied rt map
              (record w.server { stack = (rt.recv w.server.stack handle).0 })
              (copy_payload w.recv_buf msg)
              (or_internal
                (write_both w.response (response_bytes (message_header msg)) msg.payload)))
  unfolding dispatch_op dispatch_recv Server.try_recv reply_message metadata
  dispatch_recv-message handle timeout msg w fits room e in_buf small =
      dispatch-bytes rt map MctpOp.recv (recv_header handle) (u32_bytes timeout) w.response w.server
        w.recv_buf w.now (op_from_u8-byte MctpOp.recv) fits
      ∙ rw
          (
            e,
            slice-copy_payload w.recv_buf msg in_buf,
            encode_recv_response_room w.response msg small,
          )
          refl

  -- A request whose response carries the message.
  exchange_message :
      (c : IpcMctpClient) (w : World rt map) (enc written : List ℕ × Result {0, 0} WireError ℕ)
      (bytes recv_buf : List ℕ) (s : Server rt map) (msg : MctpMessage)
      → Wrote (length c.request_buf) bytes enc
      → length bytes ≤ 1035
      → Wrote 1035 (message_bytes msg) written
      → length msg.payload ≤ 1023
      → dispatch_mctp_op rt map bytes w.response w.server w.recv_buf w.now
        ≡ some (replied rt map s recv_buf (or_internal written))
      → request (channel rt map) c w enc ≡ (
        record c {
          request_buf = enc.0;
          response_buf = copy_at c.response_buf 0 (message_bytes msg);
        },
        record w { server = s; recv_buf = recv_buf; response = written.0 },
        ok (message_header msg, length (message_bytes msg)),
      )
  unfolding request transact send_recv
  exchange_message c w (buf, result) (response, written) bytes recv_buf s msg wrote room reply small
        served =
      rw
        (
          wrote.0,
          the_room,
          wrote.1,
          served,
          reply.0,
          reply.1,
          read_message msg c.response_buf small,
        )
        refl
    where
      the_room : ltb 1035 (length bytes) ≡ false
      the_room = ground arith

  -- When the router has a message for a handle, a client behind the channel that receives on the handle
  -- takes it: the call returns the message's metadata, and the caller's buffer has as much of the payload
  -- in front as it holds. The router gives the message up, and nothing else of the server changes. The
  -- buffers of the client and of the server are as long as they make them, the message fits the
  -- server's buffer, and its payload is one that a message may have.
  pub recv-message :
      (handle timeout : ℕ) (msg : MctpMessage) (buf : List ℕ) (c : IpcMctpClient) (w : World rt map)
      → IsReady rt map c w
      → handle < 2 ^ 32
      → (rt.recv w.server.stack handle).1 ≡ some msg
      → length msg.payload ≤ length w.recv_buf
      → length msg.payload ≤ 1023
      → let (_, w', buf', r) = Client.recv (channel rt map) c w handle timeout buf in
        (r ≡ ok (metadata msg))
        × (buf' ≡ copy_at buf 0 (take (min (length msg.payload) (length buf)) msg.payload))
        × (w'.server ≡ record w.server { stack = (rt.recv w.server.stack handle).0 })
  unfolding Client.recv encode_recv metadata
  recv-message handle timeout msg buf c w ready fits e in_buf small =
      let q = recv_header handle in
      let enc = write_both c.request_buf (request_bytes q) (u32_bytes timeout) in
      let written = write_both w.response (response_bytes (message_header msg)) msg.payload in
      rw
        (
          exchange_message c w enc written (request_bytes q ++ u32_bytes timeout)
              (copy_payload w.recv_buf msg)
              (record w.server { stack = (rt.recv w.server.stack handle).0 }) msg
              (write_both-Wrote c.request_buf (request_bytes q) (u32_bytes timeout)
                (length-request_bytes q) (omega (arith, ready.0)))
              (omega (
                arith,
                length-append (request_bytes q) (u32_bytes timeout),
                length-request_bytes q,
              ))
              (subst (λ k. Wrote k (message_bytes msg) written) ready.2
                (write_both-Wrote w.response (response_bytes (message_header msg)) msg.payload
                  (length-response_bytes (message_header msg)) (omega (arith, ready.2))))
              small (dispatch_recv-message handle timeout msg w fits ready.2 e in_buf small),
          take_message msg c.response_buf,
          get_response_payload-bytes msg small,
          flag-arrives msg.ic,
        )
        (refl, refl, refl)
