-- ===== src/I2c/Server.antt =====
-- services/i2c/server/src/lib.rs: `dispatch`, which decodes one request and replays it on the bus. The
-- bus is a parameter. What it is given of a read is the length of the buffer, which is zero before, and
-- it answers what the read buffers hold after, in order.
use openprot.Prelude.{
  ℕ, ◌+◌, ◌*◌, ◌%◌, Bool, true, false, ◌||◌, ltb, if◌then◌else◌, List, [], ◌∷◌, length, take, drop,
  zero, suc, Option, none, some, Result, ok, err, u16_from, copy_at, ◌≡◌,
}
use openprot.I2c.{
  I2cOp, I2cOpKind, I2cError, I2cRequestHeader, ErrorKind, NoAcknowledgeSource, max_ops,
  max_payload_size, request_size, desc_size, response_size, request_from_bytes, success_bytes,
  error_bytes, op_from_u8, kind_from_u8,
}

-- An operation as the bus sees it.
pub data BusOp : Type 0 where
  write : List ℕ → BusOp
  read : ℕ → BusOp

unfoldable pub read_total : List BusOp → ℕ
read_total [] = 0
read_total (BusOp.write _ ∷ ops) = read_total ops
read_total (BusOp.read n ∷ ops) = n + read_total ops

unfoldable pub write_total : List BusOp → ℕ
write_total [] = 0
write_total (BusOp.write bytes ∷ ops) = length bytes + write_total ops
write_total (BusOp.read _ ∷ ops) = write_total ops

abbrev pub Outcome : Type 0 → Type 0
Outcome S = S × Result {0, 0} ErrorKind (List ℕ)

-- An implementation of `embedded_hal::i2c::I2c`. A read fills a slice, whose length it cannot change.
pub record Bus : Type 1 where
  pub State : Type 0
  pub transaction : State → ℕ → List BusOp → Outcome State
  pub fills :
      (s s' : State) (address : ℕ) (ops : List BusOp) (bytes : List ℕ)
      → transaction s address ops ≡ (s', ok bytes)
      → length bytes ≡ read_total ops

-- `kind_to_wire`
unfoldable pub kind_to_wire : ErrorKind → I2cError
kind_to_wire (ErrorKind.no_acknowledge NoAcknowledgeSource.address) = I2cError.address_nack
kind_to_wire (ErrorKind.no_acknowledge NoAcknowledgeSource.data_byte) = I2cError.data_nack
kind_to_wire (ErrorKind.no_acknowledge NoAcknowledgeSource.unknown) = I2cError.nack
kind_to_wire ErrorKind.arbitration_loss = I2cError.arbitration_loss
kind_to_wire ErrorKind.bus = I2cError.bus
kind_to_wire ErrorKind.overrun = I2cError.overrun
kind_to_wire ErrorKind.other = I2cError.internal_error

-- What `dispatch` leaves: the bus, the response buffer, and how many of its bytes are the response.
abbrev pub Answer : Type 0 → Type 0
Answer S = S × List ℕ × ℕ

-- `encode_error`
unfoldable pub encode_error : {S : Type 0} → S → List ℕ → I2cError → Answer S
encode_error s response e = (s, copy_at response 0 (error_bytes e), response_size)

-- One descriptor before the others.
abbrev pub scanned :
    Result {0, 0} I2cError I2cOpKind
    → ℕ
    → Result {0, 0} I2cError (List (Bool × ℕ))
    → Result {0, 0} I2cError (List (Bool × ℕ))
scanned (err _) len rest = err I2cError.invalid_operation
scanned (ok kind) len (err e) = err e
scanned (ok I2cOpKind.write) len (ok metas) = ok ((false, len) ∷ metas)
scanned (ok I2cOpKind.read) len (ok metas) = ok ((true, len) ∷ metas)

-- The first pass: the kind and the length of each operation. A request too short for the descriptors
-- has been refused before it.
unfoldable pub scan : ℕ → List ℕ → Result {0, 0} I2cError (List (Bool × ℕ))
scan zero _ = ok []
scan (suc n) (kind ∷ _ ∷ lo ∷ hi ∷ rest) =
    scanned (kind_from_u8 kind) (u16_from lo hi) (scan n rest)
scan (suc n) _ = err I2cError.invalid_operation

-- `write_total` and `read_total` of the first pass.
unfoldable pub total_of : Bool → List (Bool × ℕ) → ℕ
total_of _ [] = 0
total_of true ((true, len) ∷ metas) = len + total_of true metas
total_of true ((false, len) ∷ metas) = total_of true metas
total_of false ((true, len) ∷ metas) = total_of false metas
total_of false ((false, len) ∷ metas) = len + total_of false metas

-- The second pass: the operations, with their bytes taken from the request in order.
unfoldable pub build : List (Bool × ℕ) → List ℕ → List BusOp
build [] _ = []
build ((true, len) ∷ metas) data_bytes = BusOp.read len ∷ build metas data_bytes
build ((false, len) ∷ metas) data_bytes =
    BusOp.write (take len data_bytes) ∷ build metas (drop len data_bytes)

-- The answer to what the bus did.
abbrev pub settled : {S : Type 0} → List ℕ → ℕ → Outcome S → Answer S
settled response total (s, err kind) = encode_error s response (kind_to_wire kind)
settled response total (s, ok bytes) = (
  s,
  copy_at (copy_at response 0 (success_bytes total)) response_size bytes,
  response_size + total,
)

-- The test behind the first pass.
abbrev pub exceeds : List ℕ → ℕ → List ℕ → List (Bool × ℕ) → Bool
exceeds request write_base response metas =
    ltb max_payload_size (total_of false metas)
    || ltb max_payload_size (total_of true metas)
    || ltb (length request) (write_base + total_of false metas)
    || ltb (length response) (response_size + total_of true metas)

module _ (bus : Bus) where
  abbrev pub run_ops :
      bus.State
      → ℕ
      → ℕ
      → List ℕ
      → List ℕ
      → Result {0, 0} I2cError (List (Bool × ℕ))
      → Answer bus.State
  run_ops s address write_base request response (err e) = encode_error s response e
  run_ops s address write_base request response (ok metas) =
      if exceeds request write_base response metas
      then encode_error s response I2cError.buffer_too_small
      else settled response (total_of true metas)
          (bus.transaction s address (build metas (drop write_base request)))

  abbrev pub run_request : bus.State → I2cRequestHeader → List ℕ → List ℕ → Answer bus.State
  run_request s hdr request response =
      if ltb max_ops hdr.op_count
      then encode_error s response I2cError.too_many_operations
      else if ltb (length request) (request_size + hdr.op_count * desc_size)
      then encode_error s response I2cError.buffer_too_small
      else run_ops s (hdr.address % 256) (request_size + hdr.op_count * desc_size) request response
          (scan hdr.op_count (drop request_size request))

  abbrev pub selected :
      bus.State
      → Result {0, 0} I2cError I2cOp
      → I2cRequestHeader
      → List ℕ
      → List ℕ
      → Answer bus.State
  selected s (ok I2cOp.transaction) hdr request response = run_request s hdr request response
  selected s _ hdr request response = encode_error s response I2cError.invalid_operation

  abbrev pub decoded : bus.State → Option I2cRequestHeader → List ℕ → List ℕ → Answer bus.State
  decoded s none request response = encode_error s response I2cError.invalid_operation
  decoded s (some hdr) request response = selected s (op_from_u8 hdr.op_code) hdr request response

  -- `dispatch`
  unfoldable pub dispatch : bus.State → List ℕ → List ℕ → Answer bus.State
  dispatch s request response =
      if ltb (length request) request_size
      then encode_error s response I2cError.invalid_operation
      else decoded s (request_from_bytes request) request response
