-- ===== src/Mctp/Wire/Requests.antt =====
-- The requests of the wire format (services/mctp/api/src/wire.rs): what a client encodes, and what the
-- server decodes.
use openprot.Prelude.{
  u32_bytes, u32_from, ℕ, ◌+◌, Bool, Option, List, [], ◌∷◌, ltb, if◌then◌else◌, Result, err, length,
  drop, bit_or, is_some,
}
use mathlib.Core.Option
use openprot.Mctp.{MctpOp, op_byte}
use openprot.Mctp.Wire.{
  WireError, payload_too_large, truncated, ic_flag, has_handle, has_eid, has_tag, header_size,
  max_payload_size, no_handle, MctpRequestHeader, request_bytes, request_from_bytes, write_header,
  write_both, ok_or,
}

unfoldable pub encode_set_eid : List ℕ → ℕ → List ℕ × Result WireError ℕ
encode_set_eid buf eid = write_header buf (
    request_bytes record {
      op = op_byte MctpOp.set_eid;
      flags = 0;
      msg_type = 0;
      eid = eid;
      handle = 0;
      tag = 0;
    })

unfoldable pub encode_get_eid : List ℕ → List ℕ × Result WireError ℕ
encode_get_eid buf = write_header buf (
    request_bytes
      record { op = op_byte MctpOp.get_eid; flags = 0; msg_type = 0; eid = 0; handle = 0; tag = 0 })

unfoldable pub encode_listener : List ℕ → ℕ → List ℕ × Result WireError ℕ
encode_listener buf msg_type = write_header buf (
    request_bytes record {
      op = op_byte MctpOp.listener;
      flags = 0;
      msg_type = msg_type;
      eid = 0;
      handle = 0;
      tag = 0;
    })

unfoldable pub encode_req : List ℕ → ℕ → List ℕ × Result WireError ℕ
encode_req buf eid = write_header buf (
    request_bytes
      record { op = op_byte MctpOp.req; flags = 0; msg_type = 0; eid = eid; handle = 0; tag = 0 })

unfoldable pub encode_recv : List ℕ → ℕ → ℕ → List ℕ × Result WireError ℕ
encode_recv buf handle timeout_millis =
    write_both buf
      (request_bytes record {
        op = op_byte MctpOp.recv;
        flags = has_handle;
        msg_type = 0;
        eid = 0;
        handle = handle;
        tag = 0;
      })
      (u32_bytes timeout_millis)

-- `if b { f |= flag; }`
abbrev raise_if : Bool → ℕ → ℕ → ℕ
raise_if b flag f = if b then bit_or f flag else f

unfoldable pub send_flags : Option ℕ → Option ℕ → Option ℕ → Bool → ℕ
send_flags handle eid tag ic =
    raise_if (is_some tag) has_tag (
      raise_if (is_some eid) has_eid (raise_if (is_some handle) has_handle (raise_if ic ic_flag 0)))

unfoldable pub encode_send :
    List ℕ → Option ℕ → ℕ → Option ℕ → Option ℕ → Bool → List ℕ → List ℕ × Result WireError ℕ
encode_send buf handle msg_type eid tag ic payload =
    if ltb max_payload_size (length payload)
    then (buf, err payload_too_large)
    else write_both buf
        (request_bytes record {
          op = op_byte MctpOp.send;
          flags = send_flags handle eid tag ic;
          msg_type = msg_type;
          eid = Option.get_or eid 0;
          handle = Option.get_or handle no_handle;
          tag = Option.get_or tag 0;
        })
        payload

unfoldable pub encode_unbind : List ℕ → ℕ → List ℕ × Result WireError ℕ
encode_unbind buf handle = write_header buf (
    request_bytes record {
      op = op_byte MctpOp.unbind;
      flags = has_handle;
      msg_type = 0;
      eid = 0;
      handle = handle;
      tag = 0;
    })

unfoldable pub decode_request_header : List ℕ → Result WireError MctpRequestHeader
decode_request_header buf = ok_or (request_from_bytes buf) truncated

unfoldable pub get_request_payload : List ℕ → List ℕ
get_request_payload buf = if ltb header_size (length buf) then drop header_size buf else []

-- `u32::from_le_bytes(buf[start..start + 4])`; a shorter slice is excluded by the test before it.
unfoldable pub first_u32 : List ℕ → ℕ
first_u32 (a ∷ b ∷ c ∷ d ∷ _) = u32_from a b c d
first_u32 _ = 0

unfoldable pub get_recv_timeout : List ℕ → ℕ
get_recv_timeout buf =
    if ltb (length buf) (header_size + 4) then 0 else first_u32 (drop header_size buf)
