-- ===== src/Mctp/Remote/Sending.antt =====
-- services/mctp/client-ipc and services/mctp/server: `send` over the channel, whose request carries the
-- optional fields, the flags and the payload of the message.
use openprot.Mctp.Wire.RoundTrip.{length-request_bytes}
use openprot.Mctp.Wire.Buffers.{write_both-Wrote}
use openprot.Mctp.Remote.Replies.{
  reply_tag-sends, op_from_u8-byte, dispatch-bytes, tag-arrives, tag_header,
}
use openprot.Mctp.Remote.Calls.{conclude, through, local, remote, Call, IsReady}
use openprot.Mctp.Remote.Exchange.{Fits, header_result}
use openprot.Mctp.Remote.Flags.{flags-arrive}
use openprot.Mctp.Remote.{World}
use openprot.Mctp.Client.{IpcMctpClient, map_ok}
use openprot.Mctp.{MctpOp, op_byte}
use openprot.Mctp.Server.Dispatch.{reply_tag, replied, dispatch_op, dispatch_send}
use openprot.Mctp.Server.{Server, PendingRecv}
use openprot.Mctp.Wire.{MctpResponseHeader, no_handle, write_both, MctpRequestHeader, request_bytes}
use openprot.Mctp.Stack.{LinearMap, Router}
use openprot.Mctp.Wire.Requests.{send_flags, get_request_payload, encode_send}
use mathlib.Core.Option.{some, Option}
use openprot.Prelude.{
  ap, ◌∙◌, length-append, ◌^◌, ◌<◌, false, ltb, arith, ◌∷◌, ◌++◌, ◌≤◌, length, Bool, List, ℕ, ◌≡◌,
}
use mathlib.Core.Option
use openprot.Mctp.Server
use openprot.Mctp.Client
use openprot.Prelude.{refl, [], ◌∷◌}

get_request_payload-bytes :
    (q : MctpRequestHeader) (payload : List ℕ)
    → get_request_payload (request_bytes q ++ payload) ≡ payload
unfolding get_request_payload request_bytes
get_request_payload-bytes q [] = refl
get_request_payload-bytes q (x ∷ xs) = ground arith

-- The header of a `Send` request.
abbrev send_header : Option ℕ → ℕ → Option ℕ → Option ℕ → Bool → MctpRequestHeader
send_header handle typ eid tag ic = record {
  op = op_byte MctpOp.send;
  flags = send_flags handle eid tag ic;
  msg_type = typ;
  eid = Option.get_or eid 0;
  handle = Option.get_or handle no_handle;
  tag = Option.get_or tag 0;
}

encode_send_room :
    (buf : List ℕ) (handle : Option ℕ) (typ : ℕ) (eid tag : Option ℕ) (ic : Bool) (payload : List ℕ)
    → length payload ≤ 1023
    → encode_send buf handle typ eid tag ic payload
      ≡ write_both buf (request_bytes (send_header handle typ eid tag ic)) payload
unfolding encode_send
encode_send_room buf handle typ eid tag ic payload small = rw the_room refl
  where
    the_room : ltb 1023 (length payload) ≡ false
    the_room = ground arith

module _ (rt : Router) (map : LinearMap PendingRecv) where
  dispatch_send-arrives :
      (handle : Option ℕ) (typ : ℕ) (eid tag : Option ℕ) (ic : Bool) (payload response : List ℕ)
      (s : Server rt map) (recv_buf : List ℕ)
      → let q = send_header handle typ eid tag ic in
        let (s', r) = Server.send rt map s handle typ eid tag ic payload in
        dispatch_send rt map (request_bytes q ++ payload) q response s recv_buf
        ≡ replied rt map s' recv_buf (reply_tag response r)
  unfolding dispatch_send
  dispatch_send-arrives handle typ eid tag ic payload response s recv_buf =
      let (h, e, t, i) = flags-arrive handle eid tag ic in
      rw (h, e, t, i, get_request_payload-bytes (send_header handle typ eid tag ic) payload) refl

  send-arrives :
      (s : Server rt map) (handle : Option ℕ) (typ : ℕ) (eid tag : Option ℕ) (ic : Bool)
      (payload : List ℕ)
      → length payload ≤ 1023
      → let r = (Server.send rt map s handle typ eid tag ic payload).1 in
        (map_ok (λ a. MctpResponseHeader.tag a.0) (header_result (tag_header r)) ≡ r)
        × Fits (tag_header r)
  unfolding Server.send
  send-arrives s handle typ eid tag ic payload small = rw the_room (
      tag-arrives
        (rt.send s.stack eid typ (Server.send_tag rt map handle tag) ic (Option.get_or handle 255)
          payload).1)
    where
      the_room : ltb 1023 (length payload) ≡ false
      the_room = ground arith

  pub send-local :
      (handle : Option ℕ) (typ : ℕ) (eid tag : Option ℕ) (ic : Bool) (payload : List ℕ)
      (c : IpcMctpClient) (w : World rt map)
      → IsReady rt map c w
      → Option.get_or handle no_handle < 2 ^ 32
      → length payload ≤ 1023
      → let call = Call.send handle typ eid tag ic payload in
        let (c', w', a) = remote rt map call c w in
        ((w'.server, a) ≡ local rt map call w.server) × IsReady rt map c' w'
  unfolding Client.send dispatch_op
  send-local handle typ eid tag ic payload c w ready fits small =
      let q = send_header handle typ eid tag ic in
      let bytes = request_bytes q ++ payload in
      let (s, r) = Server.send rt map w.server handle typ eid tag ic payload in
      let arrives = send-arrives w.server handle typ eid tag ic payload small in
      let (es, er, ready') =
        through rt map c w (write_both c.request_buf (request_bytes q) payload) bytes s
          (tag_header r) ready
          (write_both-Wrote c.request_buf (request_bytes q) payload (length-request_bytes q)
            (omega (arith, ready.0)))
          (omega (arith, length-append (request_bytes q) payload, length-request_bytes q)) arrives.1
          (dispatch-bytes rt map MctpOp.send q payload w.response w.server w.recv_buf w.now
              (op_from_u8-byte MctpOp.send) fits
            ∙ ap some (
                dispatch_send-arrives handle typ eid tag ic payload w.response w.server w.recv_buf
                ∙ ap (replied rt map s w.recv_buf)
                    (reply_tag-sends w.response r (omega (arith, ready.2))))) in
      rw (encode_send_room c.request_buf handle typ eid tag ic payload small) (
        conclude rt map (map_ok (λ a. MctpResponseHeader.tag a.0)) (tag_header r) es er arrives.0,
        ready',
      )
