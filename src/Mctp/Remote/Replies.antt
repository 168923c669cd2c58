-- ===== src/Mctp/Remote/Replies.antt =====
-- services/mctp/server/src/dispatch.rs: the header of each response, and what the dispatch makes of the
-- bytes of a request.
use openprot.Prelude.{
  copy_at, ℕ, ◌%◌, ◌^◌, ◌≤◌, ◌<◌, ◌≡◌, refl, ap, some, List, ◌++◌, Result, ok, err, length, arith,
}
use openprot.Mctp.{MctpError, MctpOp, op_byte, op_from_u8, ResponseCode, code_byte, code_from_u8}
use openprot.Mctp.Wire.{
  MctpResponseHeader, response_bytes, response_code, success_header, error_header,
  MctpRequestHeader, request_bytes, operation, write_header,
}
use openprot.Mctp.Wire.RoundTrip.{request_from_bytes-bytes}
use openprot.Mctp.Wire.Responses.{
  encode_get_eid_response, encode_handle_response, encode_send_response, encode_success_response,
  encode_error_response,
}
use openprot.Mctp.Stack.{StackError, Router, LinearMap, Tag, tag_value}
use openprot.Mctp.Server.{PendingRecv, Server, server_error, map_result}
use openprot.Mctp.Server.Dispatch.{
  encode_error, encode_success, reply_unit, reply_handle, reply_tag, or_internal, dispatch_mctp_op,
  dispatch_header, dispatch_op,
}
use openprot.Mctp.Client.{map_ok, is_success}
use openprot.Mctp.Remote.Exchange.{header_result, Fits}

-- The header of a response without, with a handle, with a tag.
abbrev pub unit_header : Result {0, 0} MctpError Unit → MctpResponseHeader
unit_header (ok _) = success_header
unit_header (err e) = error_header e.code

abbrev pub handle_header : Result MctpError ℕ → MctpResponseHeader
handle_header (ok handle) = record success_header { handle = handle }
handle_header (err e) = error_header e.code

abbrev pub tag_header : Result MctpError ℕ → MctpResponseHeader
tag_header (ok tag) = record success_header { tag = tag }
tag_header (err e) = error_header e.code

abbrev pub eid_header : ℕ → MctpResponseHeader
eid_header eid = record success_header { eid = eid }

-- The response buffer with a header in front, and the twelve bytes that are sent.
abbrev pub sends : List ℕ → MctpResponseHeader → List ℕ × ℕ
sends response h = (copy_at response 0 (response_bytes h), 12)

write_header_room :
    (response : List ℕ) (h : MctpResponseHeader)
    → 12 ≤ length response
    → write_header response (response_bytes h) ≡ (copy_at response 0 (response_bytes h), ok 12)
write_header_room response h room = ground arith

pub encode_error-sends :
    (response : List ℕ) (code : ResponseCode)
    → 12 ≤ length response
    → encode_error response code ≡ sends response (error_header code)
unfolding encode_error encode_error_response
encode_error-sends response code room =
    rw (write_header_room response (error_header code) room) refl

pub reply_unit-sends :
    (response : List ℕ) (r : Result {0, 0} MctpError Unit)
    → 12 ≤ length response
    → reply_unit response r ≡ sends response (unit_header r)
unfolding encode_success encode_success_response
reply_unit-sends response (ok _) room = rw (write_header_room response success_header room) refl
reply_unit-sends response (err e) room = encode_error-sends response e.code room

pub reply_handle-sends :
    (response : List ℕ) (r : Result {0, 0} MctpError ℕ)
    → 12 ≤ length response
    → reply_handle response r ≡ sends response (handle_header r)
unfolding encode_handle_response
reply_handle-sends response (ok handle) room =
    rw (write_header_room response (record success_header { handle = handle }) room) refl
reply_handle-sends response (err e) room = encode_error-sends response e.code room

pub reply_tag-sends :
    (response : List ℕ) (r : Result {0, 0} MctpError ℕ)
    → 12 ≤ length response
    → reply_tag response r ≡ sends response (tag_header r)
unfolding encode_send_response
reply_tag-sends response (ok tag) room =
    rw (write_header_room response (record success_header { tag = tag }) room) refl
reply_tag-sends response (err e) room = encode_error-sends response e.code room

pub reply_eid-sends :
    (response : List ℕ) (eid : ℕ)
    → 12 ≤ length response
    → or_internal (encode_get_eid_response response eid) ≡ sends response (eid_header eid)
unfolding encode_get_eid_response
reply_eid-sends response eid room = rw (write_header_room response (eid_header eid) room) refl

-- An error of the router comes out of the response's header as it went in.
error-arrives :
    (e : StackError)
    → (header_result (error_header ((server_error e).code)) ≡ err (server_error e))
      × Fits (error_header ((server_error e).code))
unfolding server_error is_success response_code error_header code_byte code_from_u8
error-arrives StackError.internal_error = (refl, omega arith)
error-arrives StackError.no_space = (refl, omega arith)
error-arrives StackError.addr_in_use = (refl, omega arith)
error-arrives StackError.timed_out = (refl, omega arith)
error-arrives StackError.bad_argument = (refl, omega arith)
error-arrives StackError.other = (refl, omega arith)

pub unit-arrives :
    {A : Type 0} (r : Result {0, 0} StackError A)
    → let r' = map_result (λ _. tt) r in
      (map_ok (λ _. tt) (header_result (unit_header r')) ≡ r') × Fits (unit_header r')
unfolding is_success success_header code_byte
unit-arrives (ok _) = (refl, omega arith)
unit-arrives (err e) = (ap (map_ok (λ _. tt)) (error-arrives e).0, (error-arrives e).1)

pub handle-arrives :
    (r : Result {0, 0} StackError ℕ)
    → let r' = map_result (λ cookie. cookie % 2 ^ 32) r in
      (map_ok (λ a. MctpResponseHeader.handle a.0) (header_result (handle_header r')) ≡ r')
      × Fits (handle_header r')
unfolding is_success success_header code_byte
handle-arrives (ok cookie) = (refl, omega arith)
handle-arrives (err e) =
    (ap (map_ok (λ a. MctpResponseHeader.handle a.0)) (error-arrives e).0, (error-arrives e).1)

pub tag-arrives :
    (r : Result {0, 0} StackError Tag)
    → let r' = map_result tag_value r in
      (map_ok (λ a. MctpResponseHeader.tag a.0) (header_result (tag_header r')) ≡ r')
      × Fits (tag_header r')
unfolding is_success success_header code_byte
tag-arrives (ok tag) = (refl, omega arith)
tag-arrives (err e) =
    (ap (map_ok (λ a. MctpResponseHeader.tag a.0)) (error-arrives e).0, (error-arrives e).1)

pub op_from_u8-byte : (op : MctpOp) → op_from_u8 (op_byte op) ≡ some op
unfolding op_from_u8 op_byte
op_from_u8-byte MctpOp.set_eid = refl
op_from_u8-byte MctpOp.get_eid = refl
op_from_u8-byte MctpOp.listener = refl
op_from_u8-byte MctpOp.req = refl
op_from_u8-byte MctpOp.recv = refl
op_from_u8-byte MctpOp.send = refl
op_from_u8-byte MctpOp.unbind = refl

-- The bytes of a request reach the arm of its operation.
pub dispatch-bytes :
    (rt : Router) (map : LinearMap PendingRecv) (op : MctpOp) (h : MctpRequestHeader)
    (payload response : List ℕ) (s : Server rt map) (recv_buf : List ℕ) (now : ℕ)
    → op_from_u8 h.op ≡ some op
    → h.handle < 2 ^ 32
    → dispatch_mctp_op rt map (request_bytes h ++ payload) response s recv_buf now
      ≡ dispatch_op rt map op (request_bytes h ++ payload) h response s recv_buf now
unfolding dispatch_mctp_op dispatch_header operation
dispatch-bytes rt map op h payload response s recv_buf now e fits =
    rw (request_from_bytes-bytes h payload fits, dispatch_header, e) refl
