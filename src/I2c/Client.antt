-- ===== src/I2c/Client.antt =====
-- services/i2c/client/src/lib.rs: `I2cClient::transact`, over any transport.
use openprot.Prelude.{
  ℕ, ◌+◌, ◌*◌, Bool, ◌||◌, not, ◌==◌, ltb, if◌then◌else◌, List, [], ◌∷◌, ◌++◌, length, take, drop,
  Result, ok, err, u16_from, zeros,
}
use openprot.I2c.{
  I2cOp, I2cOpKind, I2cError, ErrorKind, Operation, max_ops, max_payload_size, request_size,
  desc_size, response_size, new_request, new_desc, error_from_u8, error_kind, written, reads,
}

abbrev pub max_buf_size : ℕ
max_buf_size = 512

pub data TransportError : Type 0 where
  failed : TransportError

pub data ClientError : Type 0 where
  transport : TransportError → ClientError
  server_error : I2cError → ClientError
  invalid_response : ClientError
  buffer_too_small : ClientError
  too_many_operations : ClientError

-- `I2cBusError::kind` of a `ClientError`
unfoldable pub kind : ClientError → ErrorKind
kind (ClientError.server_error e) = error_kind e
kind _ = ErrorKind.other

-- `Transport::transact`: a request, and a buffer for the response.
abbrev pub Transport : Type 0 → Type 0
Transport S = S → List ℕ → List ℕ → S × List ℕ × Result {0, 0} TransportError ℕ

-- The descriptor array, in operation order.
unfoldable pub descs : List Operation → List ℕ
descs [] = []
descs (Operation.write buf ∷ ops) = new_desc I2cOpKind.write (length buf) ++ descs ops
descs (Operation.read buf ∷ ops) = new_desc I2cOpKind.read (length buf) ++ descs ops

-- `req[..off]`: the parts are copied one behind the other.
unfoldable pub request_of : ℕ → List Operation → List ℕ
request_of address ops =
    new_request I2cOp.transaction address (length ops)
      (length ops * desc_size + length (written ops))
    ++ descs ops
    ++ written ops

-- `buf.copy_from_slice(&resp[rp..rp + n])` for the reads, in order.
unfoldable pub scatter : List Operation → List ℕ → List Operation
scatter [] _ = []
scatter (Operation.write buf ∷ ops) bytes = Operation.write buf ∷ scatter ops bytes
scatter (Operation.read buf ∷ ops) bytes =
    Operation.read (take (length buf) bytes) ∷ scatter ops (drop (length buf) bytes)

-- What the caller sees: its operations after the call, and the result.
abbrev pub Called : Type 0
Called = List Operation × Result {0, 0} ClientError Unit

-- The response header at the front of a buffer that is long enough for it.
unfoldable pub read_response : List Operation → ℕ → List ℕ → Called
read_response ops resp_len (status ∷ _ ∷ lo ∷ hi ∷ payload) =
    if not (status == 0)
    then (ops, err (ClientError.server_error (error_from_u8 status)))
    else if not (u16_from lo hi == length (reads ops))
        || ltb resp_len (response_size + u16_from lo hi)
    then (ops, err ClientError.invalid_response)
    else (scatter ops payload, ok tt)
read_response ops resp_len _ = (ops, err ClientError.invalid_response)

abbrev pub received :
    {S : Type 0} → List Operation → S × List ℕ × Result {0, 0} TransportError ℕ → S × Called
received ops (s, resp, err e) = (s, (ops, err (ClientError.transport e)))
received ops (s, resp, ok resp_len) = (
  s,
  if ltb resp_len response_size
      then (ops, err ClientError.invalid_response)
      else read_response ops resp_len resp,
)

abbrev pub too_large : List Operation → Bool
too_large ops =
    ltb max_buf_size (request_size + length ops * desc_size + length (written ops))
    || ltb max_payload_size (length (written ops))
    || ltb max_payload_size (length (reads ops))
    || ltb max_buf_size (response_size + length (reads ops))

-- `I2cClient::transact`
unfoldable pub transact : {S : Type 0} → Transport S → S → ℕ → List Operation → S × Called
transact send s address ops =
    if ltb max_ops (length ops)
    then (s, (ops, err ClientError.too_many_operations))
    else if too_large ops
    then (s, (ops, err ClientError.buffer_too_small))
    else received ops (send s (request_of address ops) (zeros max_buf_size))
