-- ===== src/I2c/Runtime.antt =====
-- services/i2c/server-runtime/src/lib.rs, with server/src/slave.rs: what the server does with an
-- interrupt of a bus, and with a request of its client. The driver is a parameter. Of the kernel it keeps
-- the signal that it raises for the client; what it only logs is left out.
pub mod Latch
use openprot.Prelude.{
  ◌%◌, ℕ, ◌+◌, ◌-◌, Bool, true, false, ◌&&◌, ◌||◌, ◌==◌, ltb, if◌then◌else◌, List, [], ◌∷◌, length,
  take, drop, Option, none, some, Result, ok, err, min, zeros, copy_at,
}
use openprot.I2c.{
  I2cOp, I2cError, I2cRequestHeader, ErrorKind, max_payload_size, request_size, response_size,
  request_from_bytes, success_bytes, op_from_u8, error_from_u8,
}
use openprot.I2c.Server.{Bus, Answer, encode_error, kind_to_wire, dispatch}

pub data SlaveEvent : Type 0 where
  data_received : SlaveEvent
  read_request : SlaveEvent
  stop : SlaveEvent

-- `kind as u8` and `SlaveEvent::try_from`
unfoldable pub event_byte : SlaveEvent → ℕ
event_byte SlaveEvent.data_received = 0
event_byte SlaveEvent.read_request = 1
event_byte SlaveEvent.stop = 2

unfoldable pub event_from_u8 : ℕ → Option SlaveEvent
event_from_u8 n =
    if n == 0
    then some SlaveEvent.data_received
    else if n == 1
    then some SlaveEvent.read_request
    else if n == 2
    then some SlaveEvent.stop
    else none

-- `I2cIsrEvent` of hal/blocking/src/i2c_hardware.rs
pub data I2cIsrEvent : Type 0 where
  slave_wr_req : I2cIsrEvent
  slave_wr_recvd : I2cIsrEvent
  slave_rd_req : I2cIsrEvent
  slave_rd_proc : I2cIsrEvent
  slave_stop : I2cIsrEvent

pub record Driver : Type 1 where
  pub bus : Bus
  pub configure_slave_address : bus.State → ℕ → bus.State × Result {0, 0} ErrorKind Unit
  pub enable_slave_mode : bus.State → bus.State × Result {0, 0} ErrorKind Unit
  pub disable_slave_mode : bus.State → bus.State × Result {0, 0} ErrorKind Unit
  pub write_slave_response : bus.State → List ℕ → bus.State × Result {0, 0} ErrorKind Unit
  pub recover_bus : bus.State → bus.State × Result {0, 0} ErrorKind Unit
  pub try_next_slave_event :
      bus.State → bus.State × Result {0, 0} ErrorKind (Option (I2cIsrEvent × ℕ))
  pub read_slave_buffer : bus.State → List ℕ → bus.State × List ℕ × Result {0, 0} ErrorKind ℕ

module _ (driver : Driver) where
  -- `Bus`
  pub record Slot : Type 0 where
    pub device : driver.bus.State
    pub notif_enabled : Bool
    pub rx : List ℕ
    pub rx_len : ℕ
    pub rx_event_kind : SlaveEvent
    pub user_signal : Bool

  -- `Bus::new`
  unfoldable pub new : driver.bus.State → Slot
  new device = record {
    device = device;
    notif_enabled = false;
    rx = zeros max_payload_size;
    rx_len = 0;
    rx_event_kind = SlaveEvent.data_received;
    user_signal = false;
  }

  -- What `read_slave_buffer` leaves in the latch.
  abbrev pub drained : Slot → driver.bus.State × List ℕ × Result {0, 0} ErrorKind ℕ → Slot
  drained slot (device, rx, err _) = record slot { device = device; rx = rx }
  drained slot (device, rx, ok n) = record slot {
    device = device;
    rx = rx;
    rx_len = if ltb 0 n then n else slot.rx_len;
  }

  abbrev pub on_event : Slot → I2cIsrEvent → Slot
  on_event slot I2cIsrEvent.slave_wr_recvd =
      drained (record slot { rx_event_kind = SlaveEvent.data_received })
        (driver.read_slave_buffer slot.device slot.rx)
  on_event slot I2cIsrEvent.slave_rd_req = record slot { rx_event_kind = SlaveEvent.read_request }
  on_event slot I2cIsrEvent.slave_stop = record slot { rx_event_kind = SlaveEvent.stop }
  on_event slot _ = slot

  abbrev pub polled :
      Slot → driver.bus.State × Result {0, 0} ErrorKind (Option (I2cIsrEvent × ℕ)) → Slot
  polled slot (device, ok (some (event, _))) = on_event (record slot { device = device }) event
  polled slot (device, ok none) = record slot { device = device }
  polled slot (device, err _) = record slot { device = device }

  abbrev is_stop : SlaveEvent → Bool
  is_stop SlaveEvent.stop = true
  is_stop _ = false

  -- `should_wake`, and the signal.
  abbrev pub woken : Slot → Slot
  woken slot =
      if slot.notif_enabled && (ltb 0 slot.rx_len || is_stop slot.rx_event_kind)
      then record slot { user_signal = true }
      else slot

  -- The interrupt branch of `run`, for the bus of the interrupt.
  unfoldable pub handle_irq : Slot → Slot
  handle_irq slot =
      woken
        (if slot.notif_enabled then polled slot (driver.try_next_slave_event slot.device) else slot)

  -- What a request leaves: the bus, the response buffer, and the length of the response.
  abbrev pub Handled : Type 0
  Handled = Slot × List ℕ × ℕ

  -- `encode_error` and `encode_ok`
  abbrev pub refuse : Slot → List ℕ → I2cError → Handled
  refuse slot response e = encode_error slot response e

  abbrev pub accept : Slot → List ℕ → ℕ → Handled
  accept slot response payload_len =
      (slot, copy_at response 0 (success_bytes payload_len), response_size + payload_len)

  -- The result of a driver call as a response; `kind_to_wire` for the stateless operations.
  abbrev pub acked : Slot → List ℕ → driver.bus.State × Result {0, 0} ErrorKind Unit → Handled
  acked slot response (device, ok _) = accept (record slot { device = device }) response 0
  acked slot response (device, err k) =
      refuse (record slot { device = device }) response (kind_to_wire k)

  -- After a transaction that failed on the bus.
  abbrev pub needs_recovery : List ℕ → Bool
  needs_recovery (status ∷ _) = elim (error_from_u8 status) [
    | I2cError.bus ↦ true
    | I2cError.arbitration_loss ↦ true
    | I2cError.timeout ↦ true
    | _ ↦ false
  ]
  needs_recovery [] = false

  abbrev pub recovered : Slot → Answer driver.bus.State → Handled
  recovered slot (device, response, n) = (
    record slot {
      device = if needs_recovery response then (driver.recover_bus device).0 else device;
    },
    response,
    n,
  )

  -- `SlaveReceive`: the kind, and the latched bytes as far as the caller and the buffer have room.
  abbrev pub fetched : ℕ → Slot → List ℕ → Handled
  fetched max_len slot response =
      let n = min (min slot.rx_len max_len) (length response - response_size - 1) in
      let payload = event_byte slot.rx_event_kind ∷ take n slot.rx in
      accept (record slot { rx_len = 0 }) (copy_at response response_size payload) (1 + n)

  abbrev pub receive : ℕ → Slot → List ℕ → Handled
  receive max_len slot response =
      if slot.rx_len == 0
      then refuse slot response I2cError.no_data
      else if ltb (length response - response_size) 1
      then refuse slot response I2cError.buffer_too_small
      else fetched max_len slot response

  -- `write_slave_response`, whose errors are all `InternalError`.
  abbrev pub preloaded : Slot → List ℕ → driver.bus.State × Result {0, 0} ErrorKind Unit → Handled
  preloaded slot response (device, ok _) = accept (record slot { device = device }) response 0
  preloaded slot response (device, err _) =
      refuse (record slot { device = device }) response I2cError.internal_error

  abbrev pub serve :
      Slot → Result {0, 0} I2cError I2cOp → I2cRequestHeader → List ℕ → List ℕ → Handled
  serve slot (err _) hdr request response = refuse slot response I2cError.invalid_operation
  serve slot (ok I2cOp.transaction) hdr request response =
      recovered slot (dispatch driver.bus slot.device request response)
  serve slot (ok I2cOp.configure_slave) hdr request response =
      acked slot response (driver.configure_slave_address slot.device (hdr.address % 256))
  serve slot (ok I2cOp.enable_slave) hdr request response =
      acked slot response (driver.enable_slave_mode slot.device)
  serve slot (ok I2cOp.disable_slave) hdr request response =
      acked slot response (driver.disable_slave_mode slot.device)
  serve slot (ok I2cOp.enable_slave_notification) hdr request response =
      accept (record slot { notif_enabled = true }) response 0
  serve slot (ok I2cOp.disable_slave_notification) hdr request response =
      accept
        (record slot {
          notif_enabled = false;
          rx_len = 0;
          rx_event_kind = SlaveEvent.data_received;
        })
        response 0
  serve slot (ok I2cOp.slave_receive) hdr request response =
      receive hdr.op_count (record slot { user_signal = false }) response
  serve slot (ok I2cOp.slave_set_response) hdr request response =
      preloaded slot response (driver.write_slave_response slot.device (drop request_size request))

  abbrev pub served : Slot → Option I2cRequestHeader → List ℕ → List ℕ → Handled
  served slot none request response = refuse slot response I2cError.invalid_operation
  served slot (some hdr) request response = serve slot (op_from_u8 hdr.op_code) hdr request response

  -- The request branch of `run`, for the bus of the channel.
  unfoldable pub handle_request : Slot → List ℕ → List ℕ → Handled
  handle_request slot request response = served slot (request_from_bytes request) request response
