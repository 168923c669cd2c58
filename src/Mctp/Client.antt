-- ===== src/Mctp/Client.antt =====
-- services/mctp/client-ipc/src/lib.rs: the client, over the system call that carries one request to the
-- server and brings the response back. A method returns the client, with its buffers, and the channel.
use openprot.Prelude.{
  copy_at, zeros, ℕ, ◌+◌, Bool, Option, List, ltb, ◌||◌, ◌==◌, not, min, if◌then◌else◌, Result, ok,
  err, length, take,
}
use openprot.Mctp.{ResponseCode, code_byte, MctpError}
use openprot.Mctp.Wire.{
  header_size, max_payload_size, ic_flag, WireError, MctpResponseHeader, response_code,
}
use openprot.Mctp.Wire.Requests.{
  encode_set_eid, encode_get_eid, encode_listener, encode_req, encode_recv, encode_send,
  encode_unbind,
}
use openprot.Mctp.Wire.Responses.{decode_response_header, get_response_payload}
use openprot.Mctp.Server.{RecvMetadata}
use openprot.Mctp.Server.Dispatch.{has_flag}

abbrev pub max_request_size : ℕ
max_request_size = header_size + max_payload_size

abbrev pub max_response_size : ℕ
max_response_size = header_size + max_payload_size

-- `channel_transact` of the kernel's userspace: from the channel's handle, the request and the buffer
-- for the response to that buffer and the length of the response.
pub record Channel : Type 1 where
  pub W : Type 0
  pub channel_transact : ℕ → List ℕ → List ℕ → W → W × List ℕ × Result {0, 0} Unit ℕ

pub record IpcMctpClient : Type 0 where
  pub handle : ℕ
  pub request_buf : List ℕ
  pub response_buf : List ℕ

abbrev pub internal : MctpError
internal = record { code = ResponseCode.internal_error }

-- `map_err(|_| MctpError::from_code(ResponseCode::InternalError))`
abbrev pub or_internal_error : {E A : Type 0} → Result E A → Result MctpError A
or_internal_error (ok a) = ok a
or_internal_error (err _) = err internal

-- A success of a call whose response carries nothing else, and one that the caller maps.
abbrev pub map_ok : {A B : Type 0} → (A → B) → Result MctpError A → Result MctpError B
map_ok f (ok a) = ok (f a)
map_ok f (err e) = err e

abbrev pub ok_or_default : ℕ → Result MctpError ℕ → ℕ
ok_or_default d (ok a) = a
ok_or_default d (err _) = d

-- `MctpResponseHeader::is_success`
unfoldable pub is_success : MctpResponseHeader → Bool
is_success h = h.code == code_byte ResponseCode.success

-- What `transact` makes of a response of `resp_len` bytes.
abbrev pub header_of :
    ℕ → Result WireError MctpResponseHeader → Result MctpError (MctpResponseHeader × ℕ)
header_of resp_len (err _) = err internal
header_of resp_len (ok header) =
    if not (is_success header)
    then err record { code = response_code header }
    else ok (header, resp_len)

unfoldable pub read_response :
    List ℕ → Result MctpError ℕ → Result MctpError (MctpResponseHeader × ℕ)
read_response response_buf (err e) = err e
read_response response_buf (ok resp_len) =
    if ltb resp_len header_size || ltb max_response_size resp_len
    then err internal
    else header_of resp_len (decode_response_header (take resp_len response_buf))

-- `payload` and the metadata that `recv` returns, or the error of a payload that is cut off.
abbrev received :
    List ℕ → MctpResponseHeader → Result WireError (List ℕ) → List ℕ × Result MctpError RecvMetadata
received buf header (err _) = (buf, err internal)
received buf header (ok payload) =
    let copy_len = min (length payload) (length buf) in
    (
      copy_at buf 0 (take copy_len payload),
      ok record {
        msg_type = header.msg_type;
        msg_ic = has_flag header.flags ic_flag;
        msg_tag = header.tag;
        remote_eid = header.eid;
        payload_size = length payload;
      },
    )

abbrev receive :
    List ℕ
    → List ℕ
    → Result MctpError (MctpResponseHeader × ℕ)
    → List ℕ × Result MctpError RecvMetadata
receive buf response_buf (err e) = (buf, err e)
receive buf response_buf (ok (header, resp_len)) =
    received buf header (get_response_payload (take resp_len response_buf) header)

module _ (C : Channel) where
  -- `IpcMctpClient::send_recv`
  unfoldable pub send_recv :
      IpcMctpClient → C.W → ℕ → IpcMctpClient × C.W × Result {0, 0} MctpError ℕ
  send_recv c w req_len =
      if ltb max_request_size req_len
      then (c, w, err internal)
      else let (w', response_buf, result) =
          C.channel_transact c.handle (take req_len c.request_buf) c.response_buf w in
        (record c { response_buf = response_buf }, w', or_internal_error result)

  -- `IpcMctpClient::transact`
  unfoldable pub transact :
      IpcMctpClient
      → C.W
      → ℕ
      → IpcMctpClient × C.W × Result {0, 0} MctpError (MctpResponseHeader × ℕ)
  transact c w req_len =
      let (c', w', result) = send_recv c w req_len in (c', w', read_response c'.response_buf result)

  -- A method up to `transact`: the request is encoded into the client's buffer, and sent.
  unfoldable pub request :
      IpcMctpClient
      → C.W
      → List ℕ × Result {0, 0} WireError ℕ
      → IpcMctpClient × C.W × Result {0, 0} MctpError (MctpResponseHeader × ℕ)
  request c w (request_buf, err _) = (record c { request_buf = request_buf }, w, err internal)
  request c w (request_buf, ok req_len) =
      transact (record c { request_buf = request_buf }) w req_len

  -- `req`
  unfoldable pub req : IpcMctpClient → C.W → ℕ → IpcMctpClient × C.W × Result {0, 0} MctpError ℕ
  req c w eid =
      let (c', w', result) = request c w (encode_req c.request_buf eid) in
      (c', w', map_ok (λ r. MctpResponseHeader.handle r.0) result)

  -- `listener`
  unfoldable pub listener :
      IpcMctpClient → C.W → ℕ → IpcMctpClient × C.W × Result {0, 0} MctpError ℕ
  listener c w msg_type =
      let (c', w', result) = request c w (encode_listener c.request_buf msg_type) in
      (c', w', map_ok (λ r. MctpResponseHeader.handle r.0) result)

  -- `get_eid`
  unfoldable pub get_eid : IpcMctpClient → C.W → IpcMctpClient × C.W × ℕ
  get_eid c w =
      let (c', w', result) = request c w (encode_get_eid c.request_buf) in
      (c', w', ok_or_default 0 (map_ok (λ r. MctpResponseHeader.eid r.0) result))

  -- `set_eid`
  unfoldable pub set_eid :
      IpcMctpClient → C.W → ℕ → IpcMctpClient × C.W × Result {0, 0} MctpError Unit
  set_eid c w eid =
      let (c', w', result) = request c w (encode_set_eid c.request_buf eid) in
      (c', w', map_ok (λ _. tt) result)

  -- `recv`, which also fills the caller's buffer.
  unfoldable pub recv :
      IpcMctpClient
      → C.W
      → ℕ
      → ℕ
      → List ℕ
      → IpcMctpClient × C.W × List ℕ × Result {0, 0} MctpError RecvMetadata
  recv c w handle timeout_millis buf =
      let (c', w', result) = request c w (encode_recv c.request_buf handle timeout_millis) in
      let (buf', meta) = receive buf c'.response_buf result in (c', w', buf', meta)

  -- `send`
  unfoldable pub send :
      IpcMctpClient
      → C.W
      → Option ℕ
      → ℕ
      → Option ℕ
      → Option ℕ
      → Bool
      → List ℕ
      → IpcMctpClient × C.W × Result {0, 0} MctpError ℕ
  send c w handle msg_type eid tag integrity_check buf =
      let (c', w', result) =
        request c w (encode_send c.request_buf handle msg_type eid tag integrity_check buf) in
      (c', w', map_ok (λ r. MctpResponseHeader.tag r.0) result)

  -- `drop_handle`
  unfoldable pub drop_handle : IpcMctpClient → C.W → ℕ → IpcMctpClient × C.W
  drop_handle c w handle =
      let (c', w', _) = request c w (encode_unbind c.request_buf handle) in (c', w')

-- `IpcMctpClient::new`
unfoldable pub new : ℕ → IpcMctpClient
new handle = record {
  handle = handle;
  request_buf = zeros max_request_size;
  response_buf = zeros max_response_size;
}
