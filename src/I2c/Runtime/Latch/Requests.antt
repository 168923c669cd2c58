-- ===== src/I2c/Runtime/Latch/Requests.antt =====
-- services/i2c/server-runtime/src/lib.rs: a request keeps the latch and the signal in step.
use openprot.Prelude.{
  ◌++◌, ◌%◌, ◌-◌, min, take, drop, length-append, length-take, length-drop, ==_iff, ℕ, ◌+◌, ◌≤◌,
  ◌≡◌, refl, ◌∙◌, true, false, Bool-cases, inl, inr, ◌==◌, ltb, List, ◌∷◌, length, Option, none,
  some, Result, ok, err, arith, copy_at, length-copy_front,
}
use openprot.I2c.{
  request_size, request_from_bytes, op_from_u8, I2cOp, I2cError, I2cRequestHeader, ErrorKind,
  max_payload_size, response_size, error_bytes, success_bytes,
}
use openprot.I2c.Server.{Answer, encode_error, dispatch}
use openprot.I2c.Answers.{dispatch-Answers}
use openprot.I2c.Passes.{length-take_bounded}
use openprot.I2c.Runtime.{
  event_byte, kind_to_wire, Driver, Slot, SlaveEvent, Handled, handle_request, refuse, accept,
  acked, preloaded, recovered, receive, serve, served,
}
use openprot.I2c.Runtime.Latch.{Inv}

length-copy_at :
    (buf : List ℕ) (off : ℕ) (bytes : List ℕ)
    → off + length bytes ≤ length buf
    → length (copy_at buf off bytes) ≡ length buf
length-copy_at buf off bytes h = omega (
  arith,
  length-append (take off buf ++ bytes) (drop (off + length bytes) buf),
  length-append (take off buf) bytes,
  length-take off buf (omega arith),
  length-drop (off + length bytes) buf,
)

module _ (driver : Driver) where
  -- The state and the response that a request leaves.
  abbrev pub Fine : Handled driver → Type 0
  Fine handled = Inv driver (handled.0, handled.1)

  moved-Inv :
      (slot : Slot driver) (response response' : List ℕ)
      → Inv driver (slot, response)
      → length response' ≡ length response
      → Inv driver (slot, response')
  moved-Inv slot response response' inv e = record {
    response = e ∙ inv.response;
    buffer = inv.buffer;
    within = inv.within;
    signalled = inv.signalled;
  }

  refuse-Fine :
      (slot : Slot driver) (response : List ℕ) (e : I2cError)
      → Inv driver (slot, response)
      → Fine (refuse driver slot response e)
  unfolding encode_error error_bytes
  refuse-Fine slot response e inv =
      moved-Inv slot response (copy_at response 0 (error_bytes e)) inv
        (length-copy_front response (error_bytes e) (omega (arith, inv.response)))

  accept-Fine :
      (slot : Slot driver) (response : List ℕ) (payload_len : ℕ)
      → Inv driver (slot, response)
      → Fine (accept driver slot response payload_len)
  unfolding success_bytes
  accept-Fine slot response payload_len inv =
      moved-Inv slot response (copy_at response 0 (success_bytes payload_len)) inv
        (length-copy_front response (success_bytes payload_len) (omega (arith, inv.response)))

  -- Another state of the device.
  device-Inv :
      (slot : Slot driver) (device : driver.bus.State) (response : List ℕ)
      → Inv driver (slot, response)
      → Inv driver (record slot { device = device }, response)
  device-Inv slot device response inv = record {
    response = inv.response;
    buffer = inv.buffer;
    within = inv.within;
    signalled = inv.signalled;
  }

  acked-Fine :
      (slot : Slot driver) (response : List ℕ) (r : driver.bus.State × Result {0, 0} ErrorKind Unit)
      → Inv driver (slot, response)
      → Fine (acked driver slot response r)
  acked-Fine slot response (device, ok _) inv =
      accept-Fine (record slot { device = device }) response 0 (device-Inv slot device response inv)
  acked-Fine slot response (device, err k) inv =
      refuse-Fine (record slot { device = device }) response (kind_to_wire k)
        (device-Inv slot device response inv)

  preloaded-Fine :
      (slot : Slot driver) (response : List ℕ) (r : driver.bus.State × Result {0, 0} ErrorKind Unit)
      → Inv driver (slot, response)
      → Fine (preloaded driver slot response r)
  preloaded-Fine slot response (device, ok _) inv =
      accept-Fine (record slot { device = device }) response 0 (device-Inv slot device response inv)
  preloaded-Fine slot response (device, err _) inv =
      refuse-Fine (record slot { device = device }) response I2cError.internal_error
        (device-Inv slot device response inv)

  recovered-Fine :
      (slot : Slot driver) (response : List ℕ) (answer : Answer driver.bus.State)
      → Inv driver (slot, response)
      → length answer.1 ≡ length response
      → Fine (recovered driver slot answer)
  recovered-Fine slot response answer inv e = record {
    response = e ∙ inv.response;
    buffer = inv.buffer;
    within = inv.within;
    signalled = inv.signalled;
  }

  -- An empty latch needs no signal.
  emptied-Inv :
      (slot : Slot driver) (response : List ℕ)
      → length response ≡ 512
      → length slot.rx ≡ max_payload_size
      → slot.rx_len ≡ 0
      → Inv driver (slot, response)
  emptied-Inv slot response long buffer empty = record {
    response = long;
    buffer = buffer;
    within = omega arith;
    signalled = λ some_bytes. ground arith;
  }

  receive-Fine :
      (max_len : ℕ) (slot : Slot driver) (response : List ℕ)
      → Inv driver (slot, response)
      → Fine (receive driver max_len (record slot { user_signal = false }) response)
  receive-Fine max_len slot response inv = elim (Bool-cases (slot.rx_len == 0)) [
    | inl empty ↦ rw empty (
        refuse-Fine (record slot { user_signal = false }) response I2cError.no_data
          (emptied-Inv (record slot { user_signal = false }) response inv.response inv.buffer
            ((==_iff slot.rx_len 0).0 empty)))
    | inr latched ↦
        rw (latched, roomy)
          (accept-Fine after (copy_at response response_size payload) (1 + n) (
            emptied-Inv after (copy_at response response_size payload)
              (length-copy_at response response_size payload fits ∙ inv.response) inv.buffer refl))
  ]
    where
      after : Slot driver
      after = record slot { rx_len = 0; user_signal = false }

      n : ℕ
      n = min (min slot.rx_len max_len) (length response - response_size - 1)

      payload : List ℕ
      payload = event_byte slot.rx_event_kind ∷ take n slot.rx

      roomy : ltb (length response - response_size) 1 ≡ false
      roomy = ground (arith, inv.response)

      fits : response_size + length payload ≤ length response
      fits = omega (arith, inv.response, length-take_bounded n slot.rx)

  serve-Fine :
      (slot : Slot driver) (op : Result {0, 0} I2cError I2cOp) (hdr : I2cRequestHeader)
      (req response : List ℕ)
      → Inv driver (slot, response)
      → Fine (serve driver slot op hdr req response)
  serve-Fine slot (err e) hdr req response inv =
      refuse-Fine slot response I2cError.invalid_operation inv
  serve-Fine slot (ok I2cOp.transaction) hdr req response inv =
      recovered-Fine slot response (dispatch driver.bus slot.device req response) inv
        (dispatch-Answers driver.bus slot.device response (omega (arith, inv.response)) req).0
  serve-Fine slot (ok I2cOp.configure_slave) hdr req response inv =
      acked-Fine slot response (driver.configure_slave_address slot.device (hdr.address % 256)) inv
  serve-Fine slot (ok I2cOp.enable_slave) hdr req response inv =
      acked-Fine slot response (driver.enable_slave_mode slot.device) inv
  serve-Fine slot (ok I2cOp.disable_slave) hdr req response inv =
      acked-Fine slot response (driver.disable_slave_mode slot.device) inv
  serve-Fine slot (ok I2cOp.enable_slave_notification) hdr req response inv =
      accept-Fine (record slot { notif_enabled = true }) response 0
        record {
          response = inv.response;
          buffer = inv.buffer;
          within = inv.within;
          signalled = inv.signalled;
        }
  serve-Fine slot (ok I2cOp.disable_slave_notification) hdr req response inv =
      accept-Fine
        (record slot {
          notif_enabled = false;
          rx_len = 0;
          rx_event_kind = SlaveEvent.data_received;
        })
        response 0
        (emptied-Inv
          (record slot {
            notif_enabled = false;
            rx_len = 0;
            rx_event_kind = SlaveEvent.data_received;
          })
          response inv.response inv.buffer refl)
  serve-Fine slot (ok I2cOp.slave_receive) hdr req response inv =
      receive-Fine hdr.op_count slot response inv
  serve-Fine slot (ok I2cOp.slave_set_response) hdr req response inv =
      preloaded-Fine slot response (driver.write_slave_response slot.device (drop request_size req))
        inv

  served-Fine :
      (slot : Slot driver) (header : Option I2cRequestHeader) (req response : List ℕ)
      → Inv driver (slot, response)
      → Fine (served driver slot header req response)
  served-Fine slot none req response inv = refuse-Fine slot response I2cError.invalid_operation inv
  served-Fine slot (some hdr) req response inv =
      serve-Fine slot (op_from_u8 hdr.op_code) hdr req response inv

  pub handle_request-Fine :
      (slot : Slot driver) (req response : List ℕ)
      → Inv driver (slot, response)
      → Fine (handle_request driver slot req response)
  unfolding handle_request
  handle_request-Fine slot req response inv =
      served-Fine slot (request_from_bytes req) req response inv
