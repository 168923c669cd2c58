-- ===== src/I2c/Runtime/Latch/Interrupts.antt =====
-- services/i2c/server-runtime/src/lib.rs: an interrupt keeps the latch and the signal in step.
use openprot.Prelude.{
  if◌then◌else◌, subst, ap, ℕ, ◌≤◌, ◌≡◌, refl, sym, ◌∙◌, Bool, true, false, Bool-cases, inl, inr,
  ◌&&◌, ◌||◌, ltb, List, length, Option, none, some, Result, ok, err, arith,
}
use openprot.I2c.{ErrorKind, max_payload_size}
use openprot.I2c.Runtime.{
  Driver, Slot, SlaveEvent, I2cIsrEvent, handle_irq, woken, polled, on_event, drained, is_stop,
}
use openprot.I2c.Runtime.Latch.{Reads, Inv}

module _ (driver : Driver) where
  -- The latch of a bus that is armed.
  abbrev Armed : Slot driver → Type 0
  Armed slot =
      (length slot.rx ≡ max_payload_size)
      × (slot.rx_len ≤ max_payload_size)
      × (slot.notif_enabled ≡ true)

  drained-Armed :
      (slot : Slot driver) (r : driver.bus.State × List ℕ × Result {0, 0} ErrorKind ℕ)
      → length r.1 ≡ max_payload_size
      → ((n : ℕ) → r.2 ≡ ok n → n ≤ max_payload_size)
      → Armed slot
      → Armed (drained driver slot r)
  drained-Armed slot (device, rx, err _) long bounded armed = (long, armed.1, armed.2)
  drained-Armed slot (device, rx, ok n) long bounded armed = elim (Bool-cases (ltb 0 n)) [
    | inl y ↦ rw y (long, bounded n refl, armed.2)
    | inr empty ↦ rw empty (long, armed.1, armed.2)
  ]

  on_event-Armed :
      (slot : Slot driver) (event : I2cIsrEvent)
      → Reads driver
      → Armed slot
      → Armed (on_event driver slot event)
  on_event-Armed slot I2cIsrEvent.slave_wr_req reads armed = armed
  on_event-Armed slot I2cIsrEvent.slave_wr_recvd reads armed =
      drained-Armed (record slot { rx_event_kind = SlaveEvent.data_received })
        (driver.read_slave_buffer slot.device slot.rx) (reads.keeps slot.device slot.rx ∙ armed.0)
        (λ n e. omega (arith, reads.bounded slot.device slot.rx n e, armed.0)) armed
  on_event-Armed slot I2cIsrEvent.slave_rd_req reads armed = armed
  on_event-Armed slot I2cIsrEvent.slave_rd_proc reads armed = armed
  on_event-Armed slot I2cIsrEvent.slave_stop reads armed = armed

  polled-Armed :
      (slot : Slot driver)
      (r : driver.bus.State × Result {0, 0} ErrorKind (Option (I2cIsrEvent × ℕ)))
      → Reads driver
      → Armed slot
      → Armed (polled driver slot r)
  polled-Armed slot (device, ok (some (event, _))) reads armed =
      on_event-Armed (record slot { device = device }) event reads armed
  polled-Armed slot (device, ok none) reads armed = armed
  polled-Armed slot (device, err _) reads armed = armed

  loud : (a b c : Bool) → a ≡ true → b ≡ true → (a && (b || c)) ≡ true
  loud a b c e d = rw (e, d) refl

  woken-Inv :
      (slot : Slot driver) (response : List ℕ)
      → length response ≡ 512
      → Armed slot
      → Inv driver (woken driver slot, response)
  woken-Inv slot response long armed =
      elim (Bool-cases
        (slot.notif_enabled && (ltb 0 slot.rx_len || is_stop driver slot.rx_event_kind))) [
          | inl y ↦ rw y record {
            response = long;
            buffer = armed.0;
            within = armed.1;
            signalled = λ some_bytes. refl;
          }
          | inr quiet ↦ rw quiet record {
            response = long;
            buffer = armed.0;
            within = armed.1;
            signalled = λ some_bytes. sym (
                ap (λ x. if x then slot.user_signal else true)
                  (sym quiet
                    ∙ loud slot.notif_enabled (ltb 0 slot.rx_len)
                        (is_stop driver slot.rx_event_kind) armed.2 (ground arith)));
          }
        ]

  woken_idle : (slot : Slot driver) → slot.notif_enabled ≡ false → woken driver slot ≡ slot
  woken_idle slot idle =
      ap (λ b. if b then record slot { user_signal = true } else slot)
        (ap (λ b. b && (ltb 0 slot.rx_len || is_stop driver slot.rx_event_kind)) idle)

  pub handle_irq-Inv :
      (slot : Slot driver) (response : List ℕ)
      → Reads driver
      → Inv driver (slot, response)
      → Inv driver (handle_irq driver slot, response)
  unfolding handle_irq
  handle_irq-Inv slot response reads inv = by_arming slot.notif_enabled refl
    where
      event : driver.bus.State × Result {0, 0} ErrorKind (Option (I2cIsrEvent × ℕ))
      event = driver.try_next_slave_event slot.device

      by_arming :
          (b : Bool)
          → slot.notif_enabled ≡ b
          → Inv driver (woken driver (if b then polled driver slot event else slot), response)
      by_arming true armed =
          woken-Inv (polled driver slot event) response inv.response
            (polled-Armed slot event reads (inv.buffer, inv.within, armed))
      by_arming false idle = subst (λ x. Inv driver (x, response)) (sym (woken_idle slot idle)) inv
