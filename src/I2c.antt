-- ===== src/I2c.antt =====
-- services/i2c/api/src/protocol.rs and seam.rs: the wire protocol of the I2C service. The wire carries
-- one whole transaction. `ErrorKind` has the variants of embedded_hal that the source names, and
-- `other` for the rest.
pub mod Server
pub mod Client
pub mod Passes
pub mod Answers
pub mod Requests
pub mod Responses
pub mod Loopback
pub mod Runtime
pub mod Slave
mod Examples
use openprot.Prelude.{
  ℕ, ◌==◌, if◌then◌else◌, List, [], ◌∷◌, ◌++◌, Result, ok, err, u16_bytes, u16_from, Option, none,
  some,
}

abbrev pub max_payload_size : ℕ
max_payload_size = 256

abbrev pub max_ops : ℕ
max_ops = 16

pub data I2cOp : Type 0 where
  transaction : I2cOp
  configure_slave : I2cOp
  enable_slave : I2cOp
  disable_slave : I2cOp
  enable_slave_notification : I2cOp
  disable_slave_notification : I2cOp
  slave_receive : I2cOp
  slave_set_response : I2cOp

pub data I2cOpKind : Type 0 where
  write : I2cOpKind
  read : I2cOpKind

pub data I2cError : Type 0 where
  invalid_operation : I2cError
  buffer_too_small : I2cError
  too_many_operations : I2cError
  address_nack : I2cError
  data_nack : I2cError
  nack : I2cError
  arbitration_loss : I2cError
  bus : I2cError
  overrun : I2cError
  timeout : I2cError
  no_data : I2cError
  internal_error : I2cError

-- `op as u8`, `kind as u8`, `error as u8`
unfoldable pub op_byte : I2cOp → ℕ
op_byte I2cOp.transaction = 1
op_byte I2cOp.configure_slave = 2
op_byte I2cOp.enable_slave = 3
op_byte I2cOp.disable_slave = 4
op_byte I2cOp.enable_slave_notification = 5
op_byte I2cOp.disable_slave_notification = 6
op_byte I2cOp.slave_receive = 7
op_byte I2cOp.slave_set_response = 8

unfoldable pub kind_byte : I2cOpKind → ℕ
kind_byte I2cOpKind.write = 0
kind_byte I2cOpKind.read = 1

unfoldable pub error_byte : I2cError → ℕ
error_byte I2cError.invalid_operation = 1
error_byte I2cError.buffer_too_small = 2
error_byte I2cError.too_many_operations = 3
error_byte I2cError.address_nack = 4
error_byte I2cError.data_nack = 5
error_byte I2cError.nack = 6
error_byte I2cError.arbitration_loss = 7
error_byte I2cError.bus = 8
error_byte I2cError.overrun = 9
error_byte I2cError.timeout = 10
error_byte I2cError.no_data = 11
error_byte I2cError.internal_error = 255

-- `I2cOp::try_from`, `I2cOpKind::try_from` and `I2cError::from`
unfoldable pub op_from_u8 : ℕ → Result {0, 0} I2cError I2cOp
op_from_u8 n =
    if n == 1
    then ok I2cOp.transaction
    else if n == 2
    then ok I2cOp.configure_slave
    else if n == 3
    then ok I2cOp.enable_slave
    else if n == 4
    then ok I2cOp.disable_slave
    else if n == 5
    then ok I2cOp.enable_slave_notification
    else if n == 6
    then ok I2cOp.disable_slave_notification
    else if n == 7
    then ok I2cOp.slave_receive
    else if n == 8
    then ok I2cOp.slave_set_response
    else err I2cError.invalid_operation

unfoldable pub kind_from_u8 : ℕ → Result {0, 0} I2cError I2cOpKind
kind_from_u8 n =
    if n == 0
    then ok I2cOpKind.write
    else if n == 1
    then ok I2cOpKind.read
    else err I2cError.invalid_operation

unfoldable pub error_from_u8 : ℕ → I2cError
error_from_u8 n =
    if n == 1
    then I2cError.invalid_operation
    else if n == 2
    then I2cError.buffer_too_small
    else if n == 3
    then I2cError.too_many_operations
    else if n == 4
    then I2cError.address_nack
    else if n == 5
    then I2cError.data_nack
    else if n == 6
    then I2cError.nack
    else if n == 7
    then I2cError.arbitration_loss
    else if n == 8
    then I2cError.bus
    else if n == 9
    then I2cError.overrun
    else if n == 10
    then I2cError.timeout
    else if n == 11
    then I2cError.no_data
    else I2cError.internal_error

pub record I2cRequestHeader : Type 0 where
  pub op_code : ℕ
  pub flags : ℕ
  pub address : ℕ
  pub op_count : ℕ
  pub payload_len : ℕ

-- The sizes of the packed structs.
abbrev pub request_size : ℕ
request_size = 8

abbrev pub desc_size : ℕ
desc_size = 4

abbrev pub response_size : ℕ
response_size = 4

-- `I2cRequestHeader::new`, and its bytes, which are little-endian.
unfoldable pub new_request : I2cOp → ℕ → ℕ → ℕ → List ℕ
new_request op address op_count payload_len =
    (op_byte op ∷ 0 ∷ []) ++ u16_bytes address ++ u16_bytes op_count ++ u16_bytes payload_len

-- `Ref::<_, I2cRequestHeader>::from_bytes`, with the values as its accessors read them.
unfoldable pub request_from_bytes : List ℕ → Option I2cRequestHeader
request_from_bytes (b0 ∷ b1 ∷ b2 ∷ b3 ∷ b4 ∷ b5 ∷ b6 ∷ b7 ∷ _) = some record {
  op_code = b0;
  flags = b1;
  address = u16_from b2 b3;
  op_count = u16_from b4 b5;
  payload_len = u16_from b6 b7;
}
request_from_bytes _ = none

-- `I2cOpDesc::new`, and its bytes.
unfoldable pub new_desc : I2cOpKind → ℕ → List ℕ
new_desc kind len = (kind_byte kind ∷ 0 ∷ []) ++ u16_bytes len

-- `I2cResponseHeader::success` and `I2cResponseHeader::error`, and their bytes.
unfoldable pub success_bytes : ℕ → List ℕ
success_bytes payload_len = (0 ∷ 0 ∷ []) ++ u16_bytes payload_len

unfoldable pub error_bytes : I2cError → List ℕ
error_bytes e = (error_byte e ∷ 0 ∷ []) ++ u16_bytes 0

pub data NoAcknowledgeSource : Type 0 where
  address : NoAcknowledgeSource
  data_byte : NoAcknowledgeSource
  unknown : NoAcknowledgeSource

pub data ErrorKind : Type 0 where
  bus : ErrorKind
  arbitration_loss : ErrorKind
  no_acknowledge : NoAcknowledgeSource → ErrorKind
  overrun : ErrorKind
  other : ErrorKind

-- `error_kind`
unfoldable pub error_kind : I2cError → ErrorKind
error_kind I2cError.address_nack = ErrorKind.no_acknowledge NoAcknowledgeSource.address
error_kind I2cError.data_nack = ErrorKind.no_acknowledge NoAcknowledgeSource.data_byte
error_kind I2cError.nack = ErrorKind.no_acknowledge NoAcknowledgeSource.unknown
error_kind I2cError.arbitration_loss = ErrorKind.arbitration_loss
error_kind I2cError.bus = ErrorKind.bus
error_kind I2cError.overrun = ErrorKind.overrun
error_kind _ = ErrorKind.other

-- `embedded_hal::i2c::Operation`: bytes to write, or a buffer to read into.
pub data Operation : Type 0 where
  write : List ℕ → Operation
  read : List ℕ → Operation

-- The sums over the operations that the client and the server bound.
unfoldable pub written : List Operation → List ℕ
written [] = []
written (Operation.write buf ∷ ops) = buf ++ written ops
written (Operation.read _ ∷ ops) = written ops

unfoldable pub reads : List Operation → List ℕ
reads [] = []
reads (Operation.write _ ∷ ops) = reads ops
reads (Operation.read buf ∷ ops) = buf ++ reads ops
