-- ===== src/I2c/Slave.antt =====
-- services/i2c/client/src/lib.rs: the operations of the target mode, over any transport.
use openprot.Prelude.{
  ℕ, ◌+◌, ◌-◌, ◌%◌, Bool, not, ◌==◌, ltb, if◌then◌else◌, List, [], ◌∷◌, ◌++◌, length, take, Option,
  none, some, Result, ok, err, min, zeros, copy_at, u16_from,
}
use openprot.I2c.{I2cOp, max_payload_size, request_size, response_size, new_request, error_from_u8}
use openprot.I2c.Client.{Transport, TransportError, ClientError, max_buf_size}
use openprot.I2c.Runtime.{SlaveEvent, event_from_u8}
pub mod Unpacking
pub mod Fetching

pub record SlaveReceiveEvent : Type 0 where
  pub kind : SlaveEvent
  pub data_len : ℕ
  pub truncated : Bool

-- A response buffer after `transact`, and what the header says of it: the bytes of the payload, or the
-- error. `resp_len` is at least the size of a header.
unfoldable pub payload_of : ℕ → List ℕ → Result {0, 0} ClientError (ℕ × List ℕ)
payload_of resp_len (status ∷ _ ∷ lo ∷ hi ∷ payload) =
    if not (status == 0)
    then err (ClientError.server_error (error_from_u8 status))
    else if ltb resp_len (response_size + u16_from lo hi)
    then err ClientError.invalid_response
    else ok (u16_from lo hi, payload)
payload_of resp_len _ = err ClientError.invalid_response

abbrev pub checked :
    List ℕ → Result {0, 0} TransportError ℕ → Result {0, 0} ClientError (ℕ × List ℕ)
checked resp (err e) = err (ClientError.transport e)
checked resp (ok resp_len) =
    if ltb resp_len response_size
    then err ClientError.invalid_response
    else payload_of resp_len resp

-- `slave_cmd` without a buffer, as the acknowledged operations call it.
abbrev pub acknowledged :
    {S : Type 0} → S × List ℕ × Result {0, 0} TransportError ℕ → S × Result {0, 0} ClientError Unit
acknowledged (s, resp, result) = (s, elim (checked resp result) [ err e ↦ err e | ok _ ↦ ok tt ])

unfoldable pub slave_cmd :
    {S : Type 0} → Transport S → S → I2cOp → ℕ → ℕ → S × Result {0, 0} ClientError Unit
slave_cmd send s op address max_len =
    acknowledged
      (send s (new_request op address max_len 0) (zeros (response_size + max_payload_size)))

unfoldable pub configure_slave :
    {S : Type 0} → Transport S → S → ℕ → S × Result {0, 0} ClientError Unit
configure_slave send s address = slave_cmd send s I2cOp.configure_slave address 0

unfoldable pub enable_slave : {S : Type 0} → Transport S → S → S × Result {0, 0} ClientError Unit
enable_slave send s = slave_cmd send s I2cOp.enable_slave 0 0

unfoldable pub disable_slave : {S : Type 0} → Transport S → S → S × Result {0, 0} ClientError Unit
disable_slave send s = slave_cmd send s I2cOp.disable_slave 0 0

unfoldable pub enable_notification :
    {S : Type 0} → Transport S → S → S × Result {0, 0} ClientError Unit
enable_notification send s = slave_cmd send s I2cOp.enable_slave_notification 0 0

unfoldable pub disable_notification :
    {S : Type 0} → Transport S → S → S × Result {0, 0} ClientError Unit
disable_notification send s = slave_cmd send s I2cOp.disable_slave_notification 0 0

-- What the caller of `slave_receive` sees: its buffer after the call, and the result.
abbrev pub Fetched : Type 0
Fetched = List ℕ × Result {0, 0} ClientError SlaveReceiveEvent

abbrev pub copied : List ℕ → ℕ → List ℕ → Option SlaveEvent → Fetched
copied buf data_len bytes none = (buf, err ClientError.invalid_response)
copied buf data_len bytes (some kind) =
    let copy = min data_len (length buf) in
    (
      copy_at buf 0 (take copy bytes),
      ok record { kind = kind; data_len = copy; truncated = ltb copy data_len },
    )

-- The payload: the kind, then the data.
abbrev pub unpacked : List ℕ → Result {0, 0} ClientError (ℕ × List ℕ) → Fetched
unpacked buf (err e) = (buf, err e)
unpacked buf (ok (payload_len, [])) = (buf, err ClientError.invalid_response)
unpacked buf (ok (payload_len, kind_byte ∷ bytes)) =
    if ltb payload_len 1
    then (buf, err ClientError.invalid_response)
    else copied buf (payload_len - 1) bytes (event_from_u8 kind_byte)

abbrev pub fetched_into :
    {S : Type 0} → List ℕ → S × List ℕ × Result {0, 0} TransportError ℕ → S × Fetched
fetched_into buf (s, resp, result) = (s, unpacked buf (checked resp result))

-- How many bytes `slave_receive` asks for.
abbrev pub max_of : List ℕ → ℕ
max_of buf = min (length buf - 1) max_payload_size

-- `slave_receive`
unfoldable pub slave_receive : {S : Type 0} → Transport S → S → List ℕ → S × Fetched
slave_receive send s buf = fetched_into buf (
    send s (new_request I2cOp.slave_receive 0 (max_of buf) 0)
      (zeros (response_size + max_payload_size)))

-- `slave_set_response`, which reads of the response only whether it is a success.
abbrev pub confirmed :
    {S : Type 0} → S × List ℕ × Result {0, 0} TransportError ℕ → S × Result {0, 0} ClientError Unit
confirmed (s, resp, err e) = (s, err (ClientError.transport e))
confirmed (s, [], ok resp_len) = (s, err ClientError.invalid_response)
confirmed (s, status ∷ _, ok resp_len) = (
  s,
  if ltb resp_len response_size
      then err ClientError.invalid_response
      else if status == 0
      then ok tt
      else err (ClientError.server_error (error_from_u8 status)),
)

unfoldable pub slave_set_response :
    {S : Type 0} → Transport S → S → List ℕ → S × Result {0, 0} ClientError Unit
slave_set_response send s bytes =
    if ltb max_buf_size (request_size + length bytes)
    then (s, err ClientError.buffer_too_small)
    else confirmed (
        send s (new_request I2cOp.slave_set_response 0 0 (length bytes % 65536) ++ bytes)
          (zeros response_size))
