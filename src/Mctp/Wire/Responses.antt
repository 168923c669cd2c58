-- ===== src/Mctp/Wire/Responses.antt =====
-- The responses of the wire format (services/mctp/api/src/wire.rs): what the server encodes, and what a
-- client decodes.
use openprot.Prelude.{
  ℕ, ◌+◌, Bool, List, ltb, if◌then◌else◌, Result, ok, err, length, take, drop, ◌%◌,
}
use openprot.Mctp.{ResponseCode, code_byte}
use openprot.Mctp.Wire.{
  WireError, payload_too_large, truncated, ic_flag, header_size, max_payload_size,
  MctpResponseHeader, success_header, error_header, response_bytes, response_from_bytes,
  write_header, write_both, ok_or,
}

unfoldable pub encode_get_eid_response : List ℕ → ℕ → List ℕ × Result WireError ℕ
encode_get_eid_response buf eid =
    write_header buf (response_bytes (record success_header { eid = eid }))

unfoldable pub encode_handle_response : List ℕ → ℕ → List ℕ × Result WireError ℕ
encode_handle_response buf handle =
    write_header buf (response_bytes (record success_header { handle = handle }))

unfoldable pub encode_send_response : List ℕ → ℕ → List ℕ × Result WireError ℕ
encode_send_response buf tag =
    write_header buf (response_bytes (record success_header { tag = tag }))

unfoldable pub encode_recv_response :
    List ℕ → ℕ → Bool → ℕ → ℕ → List ℕ → List ℕ × Result WireError ℕ
encode_recv_response buf msg_type msg_ic eid tag payload =
    if ltb max_payload_size (length payload)
    then (buf, err payload_too_large)
    else write_both buf
        (response_bytes record {
          code = code_byte ResponseCode.success;
          flags = if msg_ic then ic_flag else 0;
          msg_type = msg_type;
          eid = eid;
          handle = 0;
          payload_len = length payload % 65536;
          tag = tag;
        })
        payload

unfoldable pub encode_success_response : List ℕ → List ℕ × Result WireError ℕ
encode_success_response buf = write_header buf (response_bytes success_header)

unfoldable pub encode_error_response : List ℕ → ResponseCode → List ℕ × Result WireError ℕ
encode_error_response buf code = write_header buf (response_bytes (error_header code))

unfoldable pub decode_response_header : List ℕ → Result WireError MctpResponseHeader
decode_response_header buf = ok_or (response_from_bytes buf) truncated

unfoldable pub get_response_payload : List ℕ → MctpResponseHeader → Result WireError (List ℕ)
get_response_payload buf header =
    let end = header_size + header.payload_len in
    if ltb (length buf) end
    then err truncated
    else ok (take header.payload_len (drop header_size buf))
