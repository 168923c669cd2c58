-- ===== src/Mctp/Wire.antt =====
-- The wire format (services/mctp/api/src/wire.rs): headers as records and as bytes, the requests that
-- a client encodes and the responses that the server encodes, and what either side decodes.
-- An encoder returns the buffer beside its result, since it writes through `&mut [u8]`.
pub mod Requests
pub mod Responses
pub mod Buffers
pub mod RoundTrip
use openprot.Prelude.{
  copy_at, u16_bytes, u16_from, u32_bytes, u32_from, ℕ, ◌+◌, Option, none, some, List, [], ◌∷◌,
  ◌++◌, ltb, if◌then◌else◌, Result, ok, err, length,
}
use openprot.Mctp.{ResponseCode, code_byte, code_from_u8, MctpOp, op_from_u8}
use mathlib.Core.Option

pub data WireError : Type 0 where
  buffer_too_small : WireError
  payload_too_large : WireError
  invalid_opcode : ℕ → WireError
  truncated : WireError

-- The bits of the flags byte.
abbrev pub ic_flag : ℕ
ic_flag = 1

abbrev pub has_handle : ℕ
has_handle = 2

abbrev pub has_eid : ℕ
has_eid = 4

abbrev pub has_tag : ℕ
has_tag = 8

abbrev pub header_size : ℕ
header_size = 12

abbrev pub max_payload_size : ℕ
max_payload_size = 1023

abbrev pub no_handle : ℕ
no_handle = 0xFFFFFFFF

pub record MctpRequestHeader : Type 0 where
  pub op : ℕ
  pub flags : ℕ
  pub msg_type : ℕ
  pub eid : ℕ
  pub handle : ℕ
  pub tag : ℕ

-- `MctpRequestHeader::to_bytes`
unfoldable pub request_bytes : MctpRequestHeader → List ℕ
request_bytes h =
    (h.op ∷ h.flags ∷ h.msg_type ∷ h.eid ∷ []) ++ u32_bytes h.handle ++ (h.tag ∷ 0 ∷ 0 ∷ 0 ∷ [])

-- `MctpRequestHeader::from_bytes`
unfoldable pub request_from_bytes : List ℕ → Option MctpRequestHeader
request_from_bytes (b0 ∷ b1 ∷ b2 ∷ b3 ∷ b4 ∷ b5 ∷ b6 ∷ b7 ∷ b8 ∷ _ ∷ _ ∷ _ ∷ _) =
    some record {
      op = b0;
      flags = b1;
      msg_type = b2;
      eid = b3;
      handle = u32_from b4 b5 b6 b7;
      tag = b8;
    }
request_from_bytes _ = none

-- `MctpRequestHeader::operation`
unfoldable pub operation : MctpRequestHeader → Option MctpOp
operation h = op_from_u8 h.op

pub record MctpResponseHeader : Type 0 where
  pub code : ℕ
  pub flags : ℕ
  pub msg_type : ℕ
  pub eid : ℕ
  pub handle : ℕ
  pub payload_len : ℕ
  pub tag : ℕ

-- `MctpResponseHeader::success` and `MctpResponseHeader::error`
unfoldable pub success_header : MctpResponseHeader
success_header = record {
  code = code_byte ResponseCode.success;
  flags = 0;
  msg_type = 0;
  eid = 0;
  handle = 0;
  payload_len = 0;
  tag = 0;
}

unfoldable pub error_header : ResponseCode → MctpResponseHeader
error_header c = record {
  code = code_byte c;
  flags = 0;
  msg_type = 0;
  eid = 0;
  handle = 0;
  payload_len = 0;
  tag = 0;
}

-- `MctpResponseHeader::response_code`
unfoldable pub response_code : MctpResponseHeader → ResponseCode
response_code h = Option.get_or (code_from_u8 h.code) ResponseCode.internal_error

-- `MctpResponseHeader::to_bytes`
unfoldable pub response_bytes : MctpResponseHeader → List ℕ
response_bytes h =
    (h.code ∷ h.flags ∷ h.msg_type ∷ h.eid ∷ [])
    ++ u32_bytes h.handle
    ++ u16_bytes h.payload_len
    ++ (h.tag ∷ 0 ∷ [])

-- `MctpResponseHeader::from_bytes`
unfoldable pub response_from_bytes : List ℕ → Option MctpResponseHeader
response_from_bytes (b0 ∷ b1 ∷ b2 ∷ b3 ∷ b4 ∷ b5 ∷ b6 ∷ b7 ∷ b8 ∷ b9 ∷ b10 ∷ _ ∷ _) = some record {
  code = b0;
  flags = b1;
  msg_type = b2;
  eid = b3;
  handle = u32_from b4 b5 b6 b7;
  payload_len = u16_from b8 b9;
  tag = b10;
}
response_from_bytes _ = none

-- What the request and response encoders share: the room for the header is tested, then it is
-- written over the front of the buffer.
abbrev pub write_header : List ℕ → List ℕ → List ℕ × Result WireError ℕ
write_header buf bytes =
    if ltb (length buf) header_size
    then (buf, err buffer_too_small)
    else (copy_at buf 0 bytes, ok header_size)

-- The encoders that write a payload behind the header test the room for both.
abbrev pub write_both : List ℕ → List ℕ → List ℕ → List ℕ × Result WireError ℕ
write_both buf bytes payload =
    let total = header_size + length payload in
    if ltb (length buf) total
    then (buf, err buffer_too_small)
    else (copy_at (copy_at buf 0 bytes) header_size payload, ok total)

-- `Option::ok_or`
abbrev pub ok_or : {A : Type 0} → Option A → WireError → Result WireError A
ok_or none e = err e
ok_or (some a) e = ok a
