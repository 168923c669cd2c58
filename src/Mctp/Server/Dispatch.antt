-- ===== src/Mctp/Server/Dispatch.antt =====
-- services/mctp/server/src/dispatch.rs: one request is decoded, the server's method is called, and the
-- response is encoded. The buffers that the code fills are returned with the outcome. Slicing the
-- receive buffer beyond its end, a panic in the source, is `none`.
use openprot.Prelude.{
  ℕ, Bool, Option, none, some, List, [], ◌∷◌, leb, ◌==◌, not, if◌then◌else◌, Result, ok, err,
  length, take, bit_and,
}
use mathlib.Core.Option
use openprot.Mctp.{ResponseCode, MctpError, MctpOp}
use openprot.Mctp.Wire.{
  WireError, ic_flag, has_handle, has_eid, has_tag, MctpRequestHeader, request_from_bytes,
  operation,
}
use openprot.Mctp.Wire.Requests.{get_request_payload, get_recv_timeout}
use openprot.Mctp.Wire.Responses.{
  encode_get_eid_response, encode_handle_response, encode_send_response, encode_recv_response,
  encode_success_response, encode_error_response,
}
use openprot.Mctp.Stack.{Router, LinearMap}
use openprot.Mctp.Server
use openprot.Mctp.Server.{PendingRecv, RecvMetadata, RecvResult, message, timed_out, Server}

pub data DispatchOutcome : Type 0 where
  reply : ℕ → DispatchOutcome
  pending : ℕ → DispatchOutcome

infixl 5 ◌>>=◌
abbrev ◌>>=◌ : {A B : Type 0} → Option A → (A → Option B) → Option B
none >>= f = none
some a >>= f = f a

-- `unwrap_or(0)`
abbrev or_zero : List ℕ × Result WireError ℕ → List ℕ × ℕ
or_zero (response, ok n) = (response, n)
or_zero (response, err _) = (response, 0)

unfoldable pub encode_error : List ℕ → ResponseCode → List ℕ × ℕ
encode_error response code = or_zero (encode_error_response response code)

unfoldable pub encode_success : List ℕ → List ℕ × ℕ
encode_success response = or_zero (encode_success_response response)

-- `unwrap_or_else(|_| encode_error(response, ResponseCode::InternalError))`
abbrev pub or_internal : List ℕ × Result WireError ℕ → List ℕ × ℕ
or_internal (response, ok n) = (response, n)
or_internal (response, err _) = encode_error response ResponseCode.internal_error

-- `match` on the result of a method that returns nothing, a handle or a tag.
abbrev pub reply_unit : List ℕ → Result {0, 0} MctpError Unit → List ℕ × ℕ
reply_unit response (ok _) = encode_success response
reply_unit response (err e) = encode_error response e.code

abbrev pub reply_handle : List ℕ → Result MctpError ℕ → List ℕ × ℕ
reply_handle response (ok handle) = or_internal (encode_handle_response response handle)
reply_handle response (err e) = encode_error response e.code

abbrev pub reply_tag : List ℕ → Result MctpError ℕ → List ℕ × ℕ
reply_tag response (ok tag) = or_internal (encode_send_response response tag)
reply_tag response (err e) = encode_error response e.code

-- `&recv_buf[..n]`
abbrev pub slice_to : List ℕ → ℕ → Option (List ℕ)
slice_to buf n = if leb n (length buf) then some (take n buf) else none

-- The response to a receive call, from the payload in the receive buffer.
unfoldable pub reply_message : List ℕ → List ℕ → RecvMetadata → Option (List ℕ × ℕ)
reply_message response recv_buf meta = do
  payload ← slice_to recv_buf meta.payload_size
  some (
      or_internal (
        encode_recv_response response meta.msg_type meta.msg_ic meta.remote_eid meta.msg_tag
          payload))

-- `header.flags & flag != 0`
abbrev pub has_flag : ℕ → ℕ → Bool
has_flag flags flag = not (bit_and flags flag == 0)

abbrev pub when_flag : ℕ → ℕ → ℕ → Option ℕ
when_flag flags flag a = if has_flag flags flag then some a else none

module _ (rt : Router) (map : LinearMap PendingRecv) where
  -- What a dispatch leaves: the server, the receive buffer, the response buffer, and the outcome.
  pub record Dispatched : Type 0 where
    pub server : Server rt map
    pub recv_buf : List ℕ
    pub response : List ℕ
    pub outcome : DispatchOutcome

  abbrev pub replied : Server rt map → List ℕ → List ℕ × ℕ → Dispatched
  replied s recv_buf (response, n) = record {
    server = s;
    recv_buf = recv_buf;
    response = response;
    outcome = reply n;
  }

  -- The arm of `Recv`
  unfoldable pub dispatch_recv :
      List ℕ
      → MctpRequestHeader
      → List ℕ
      → ℕ
      → Server rt map × List ℕ × Option RecvMetadata
      → Option Dispatched
  dispatch_recv request header response now (s, recv_buf, some meta) =
      Option.map (replied s recv_buf) (reply_message response recv_buf meta)
  dispatch_recv request header response now (s, recv_buf, none) =
      let (s', _) = Server.register_recv rt map s header.handle (get_recv_timeout request) now in
      some record {
        server = s';
        recv_buf = recv_buf;
        response = response;
        outcome = pending header.handle;
      }

  -- The arm of `Send`
  unfoldable pub dispatch_send :
      List ℕ → MctpRequestHeader → List ℕ → Server rt map → List ℕ → Dispatched
  dispatch_send request header response s recv_buf =
      let (s', result) =
        Server.send rt map s (when_flag header.flags has_handle header.handle) header.msg_type
          (when_flag header.flags has_eid header.eid) (when_flag header.flags has_tag header.tag)
          (has_flag header.flags ic_flag) (get_request_payload request) in
      replied s' recv_buf (reply_tag response result)

  -- `match op`
  unfoldable pub dispatch_op :
      MctpOp → List ℕ → MctpRequestHeader → List ℕ → Server rt map → List ℕ → ℕ → Option Dispatched
  dispatch_op MctpOp.set_eid request header response s recv_buf now =
      let (s', result) = Server.set_eid rt map s header.eid in
      some (replied s' recv_buf (reply_unit response result))
  dispatch_op MctpOp.get_eid request header response s recv_buf now = some (
      replied s recv_buf (or_internal (encode_get_eid_response response (Server.get_eid rt map s))))
  dispatch_op MctpOp.listener request header response s recv_buf now =
      let (s', result) = Server.listener rt map s header.msg_type in
      some (replied s' recv_buf (reply_handle response result))
  dispatch_op MctpOp.req request header response s recv_buf now =
      let (s', result) = Server.req rt map s header.eid in
      some (replied s' recv_buf (reply_handle response result))
  dispatch_op MctpOp.recv request header response s recv_buf now =
      dispatch_recv request header response now (Server.try_recv rt map s header.handle recv_buf)
  dispatch_op MctpOp.send request header response s recv_buf now =
      some (dispatch_send request header response s recv_buf)
  dispatch_op MctpOp.unbind request header response s recv_buf now =
      let (s', result) = Server.unbind rt map s header.handle in
      some (replied s' recv_buf (reply_unit response result))

  unfoldable pub dispatch_header :
      Option MctpRequestHeader → List ℕ → List ℕ → Server rt map → List ℕ → ℕ → Option Dispatched
  dispatch_header none request response s recv_buf now =
      some (replied s recv_buf (encode_error response ResponseCode.bad_argument))
  dispatch_header (some header) request response s recv_buf now = elim (operation header) [
    | none ↦ some (replied s recv_buf (encode_error response ResponseCode.bad_argument))
    | some op ↦ dispatch_op op request header response s recv_buf now
  ]

  -- `dispatch_mctp_op`
  unfoldable pub dispatch_mctp_op : List ℕ → List ℕ → Server rt map → List ℕ → ℕ → Option Dispatched
  dispatch_mctp_op request response s recv_buf now_millis =
      dispatch_header (request_from_bytes request) request response s recv_buf now_millis

-- The response to one receive call that is ready.
unfoldable pub reply_ready : List ℕ → List ℕ → RecvResult → Option (List ℕ × ℕ)
reply_ready response recv_buf (message meta) = reply_message response recv_buf meta
reply_ready response recv_buf timed_out = some (encode_error response ResponseCode.timed_out)

-- The calls `on_ready(handle, len)` in order, each with the response at that time.
unfoldable pub call_ready : List ℕ → List ℕ → List (ℕ × RecvResult) → Option (List (ℕ × ℕ × List ℕ))
call_ready response recv_buf [] = some []
call_ready response recv_buf ((handle, result) ∷ rest) = do
  (response', len) ← reply_ready response recv_buf result
  calls ← call_ready response' recv_buf rest
  some ((handle, len, response') ∷ calls)

module _ (rt : Router) (map : LinearMap PendingRecv) where
  -- `drive_pending`
  unfoldable pub drive_pending :
      Server rt map → ℕ → List ℕ → List ℕ → Server rt map × List ℕ × Option (List (ℕ × ℕ × List ℕ))
  drive_pending s now_millis recv_buf response =
      let (s', recv_buf', _, ready) = Server.update rt map s now_millis recv_buf in
      (s', recv_buf', call_ready response recv_buf' ready)
