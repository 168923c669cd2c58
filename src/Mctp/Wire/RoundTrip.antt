-- ===== src/Mctp/Wire/RoundTrip.antt =====
-- What is encoded is decoded to what it was (services/mctp/api/src/wire.rs).
use openprot.Mctp.Wire.Responses.{decode_response_header}
use openprot.Prelude.{
  u16_from-bytes, u32_from, ℕ, ◌/◌, ◌%◌, ◌^◌, ◌<◌, ◌≡◌, refl, some, List, ◌++◌, arith,
}
use openprot.Mctp.Wire.{
  [], ok, MctpResponseHeader, response_from_bytes, response_bytes, length, MctpRequestHeader,
  request_bytes, request_from_bytes,
}

u32_from-bytes :
    (n : ℕ)
    → n < 2 ^ 32
    → u32_from (n % 256) (n / 256 % 256) (n / 65536 % 256) (n / 16777216 % 256) ≡ n
u32_from-bytes n h = omega arith

-- A request header is read back from its bytes, whatever follows them.
pub request_from_bytes-bytes :
    (h : MctpRequestHeader) (rest : List ℕ)
    → h.handle < 2 ^ 32
    → request_from_bytes (request_bytes h ++ rest) ≡ some h
unfolding request_from_bytes request_bytes
request_from_bytes-bytes h rest fits = rw (u32_from-bytes h.handle fits) refl

-- A response header is read back from its bytes, whatever follows them.
pub response_from_bytes-bytes :
    (h : MctpResponseHeader) (rest : List ℕ)
    → h.handle < 2 ^ 32
    → h.payload_len < 2 ^ 16
    → response_from_bytes (response_bytes h ++ rest) ≡ some h
unfolding response_from_bytes response_bytes
response_from_bytes-bytes h rest fits small =
    rw (u32_from-bytes h.handle fits, u16_from-bytes h.payload_len small) refl

-- A client decodes the header that the server encoded.
pub decode_response_header-bytes :
    (h : MctpResponseHeader)
    → h.handle < 2 ^ 32
    → h.payload_len < 2 ^ 16
    → decode_response_header (response_bytes h) ≡ ok h
unfolding decode_response_header response_bytes
decode_response_header-bytes h fits small = rw (response_from_bytes-bytes h [] fits small) refl

pub length-request_bytes : (h : MctpRequestHeader) → length (request_bytes h) ≡ 12
unfolding request_bytes
length-request_bytes h = refl

pub length-response_bytes : (h : MctpResponseHeader) → length (response_bytes h) ≡ 12
unfolding response_bytes
length-response_bytes h = refl
