-- ===== src/I2c/Examples.antt =====
-- services/i2c: a bus that counts its transactions and reads zeros, and concrete runs on it.
use openprot.Prelude.{
  some, min, ℕ, suc, ◌≡◌, refl, ap, sym, ◌∙◌, List, [], ◌∷◌, length, length-zeros, zeros, ok, err,
  none, false, true, arith, copy_at, take,
}
use openprot.I2c.{ErrorKind, Result, Operation, written, reads}
use openprot.I2c.Server.{Bus, Outcome, read_total, dispatch}
use openprot.I2c.Client.{Transport, transact}
use openprot.I2c.Requests.{bus_ops}
use openprot.I2c.Loopback.{loopback, Serves, transact-Serves}
use openprot.I2c.Answers.{Answers, dispatch-Answers}
use openprot.I2c.Runtime.{Driver, Slot, SlaveEvent, handle_request}
use openprot.I2c.Runtime.{new, I2cIsrEvent}
use openprot.I2c.Runtime.Latch.{Reads, Wake, Inv, rounds}
use openprot.I2c.Runtime.Latch.Rounds.{rounds-Inv}
use openprot.I2c.Slave.{slave_receive}
use openprot.I2c.Slave.Fetching.{Delivers, slave_receive-latched}

abbrev read_length : Outcome ℕ → ℕ
read_length (s, err _) = 0
read_length (s, ok bytes) = length bytes

abbrev counting : Bus
counting = record {
  State = ℕ;
  transaction = λ s address ops. (suc s, ok (zeros (read_total ops)));
  fills = λ s s' address ops bytes e. sym (ap read_length e) ∙ length-zeros (read_total ops);
}

abbrev two_ops : List Operation
two_ops = Operation.write (16 ∷ 32 ∷ []) ∷ Operation.read (7 ∷ 7 ∷ 7 ∷ []) ∷ []

-- A write of two bytes, then a read of three.
transact-two_ops :
    transact (loopback counting) 0 72 two_ops
    ≡ (1, (Operation.write (16 ∷ 32 ∷ []) ∷ Operation.read (0 ∷ 0 ∷ 0 ∷ []) ∷ [], ok tt))
unfolding transact written reads loopback dispatch openprot.I2c.Client.request_of
    openprot.I2c.new_request openprot.I2c.Client.descs openprot.I2c.new_desc
    openprot.I2c.request_from_bytes openprot.I2c.op_from_u8 openprot.I2c.op_byte
    openprot.I2c.Server.scan openprot.I2c.kind_from_u8 openprot.I2c.kind_byte
    openprot.I2c.Server.total_of openprot.I2c.Client.read_response openprot.I2c.success_bytes
    openprot.I2c.Client.scatter openprot.I2c.Server.build read_total
transact-two_ops = refl

transact-Serves_example :
    Serves two_ops
      (counting.transaction 0 72 (bus_ops two_ops))
      (transact (loopback counting) 0 72 two_ops)
unfolding written reads
transact-Serves_example =
    transact-Serves counting 0 72 two_ops (omega arith) (omega arith, omega arith, omega arith)

abbrev write_request : List ℕ
write_request = 1 ∷ 0 ∷ 72 ∷ 0 ∷ 1 ∷ 0 ∷ 6 ∷ 0 ∷ 0 ∷ 0 ∷ 2 ∷ 0 ∷ 16 ∷ 32 ∷ []

dispatch-Answers_example : Answers counting 0 8 (dispatch counting 0 write_request (zeros 8))
dispatch-Answers_example = dispatch-Answers counting 0 (zeros 8) (omega arith) write_request

abbrev idle_driver : Driver
idle_driver = record {
  bus = counting;
  configure_slave_address = λ s address. (s, ok tt);
  enable_slave_mode = λ s. (s, ok tt);
  disable_slave_mode = λ s. (s, ok tt);
  write_slave_response = λ s bytes. (s, ok tt);
  recover_bus = λ s. (s, ok tt);
  try_next_slave_event = λ s. (s, ok none);
  read_slave_buffer = λ s rx. (s, rx, ok 0);
}

-- A channel that copies the response.
abbrev copying : Transport (Slot idle_driver × List ℕ)
copying (slot, response) req resp =
    let handled = handle_request idle_driver slot req response in
    ((handled.0, handled.1), copy_at resp 0 (take handled.2 handled.1), ok handled.2)

copying-Delivers : Delivers idle_driver copying
copying-Delivers = record { delivers = λ slot response req resp fits. refl }

-- Three bytes in the latch.
abbrev latched : Slot idle_driver
latched = record {
  device = 0;
  notif_enabled = true;
  rx = 11 ∷ 12 ∷ 13 ∷ zeros 253;
  rx_len = 3;
  rx_event_kind = SlaveEvent.data_received;
  user_signal = true;
}

-- A buffer of three bytes gets two of them.
slave_receive-latched_example :
    let out = slave_receive copying (latched, zeros 512) (zeros 3) in
    (out.0.0 ≡ record latched { rx_len = 0; user_signal = false })
    × (out.1 ≡ (
      11 ∷ 12 ∷ 0 ∷ [],
      ok record { kind = SlaveEvent.data_received; data_len = 2; truncated = false },
    ))
slave_receive-latched_example =
    slave_receive-latched idle_driver copying latched (zeros 512) (zeros 3) copying-Delivers refl
      refl (omega arith) (omega arith)

-- A driver with three bytes for every interrupt.
abbrev reading_driver : Driver
reading_driver = record idle_driver {
  try_next_slave_event = λ s. (s, ok (some (I2cIsrEvent.slave_wr_recvd, 3)));
  read_slave_buffer = λ s rx. (s, rx, ok (min 3 (length rx)));
}

abbrev ok_value : Result {0, 0} ErrorKind ℕ → ℕ
ok_value (err _) = 0
ok_value (ok n) = n

reading-Reads : Reads reading_driver
reading-Reads = record { keeps = λ s rx. refl; bounded = λ s rx n e. omega (arith, ap ok_value e) }

new-Inv : Inv reading_driver (new reading_driver 0, zeros 512)
unfolding new
new-Inv = record {
  response = refl;
  buffer = refl;
  within = omega arith;
  signalled = λ some_bytes. ground arith;
}

-- The client arms the bus, and three bytes arrive.
abbrev arming : List (Wake reading_driver)
arming = Wake.request (5 ∷ 0 ∷ 0 ∷ 0 ∷ 0 ∷ 0 ∷ 0 ∷ 0 ∷ []) ∷ Wake.irq ∷ []

rounds-Inv_example :
    Inv reading_driver (rounds reading_driver arming (new reading_driver 0, zeros 512))
rounds-Inv_example =
    rounds-Inv reading_driver arming (new reading_driver 0, zeros 512) reading-Reads new-Inv
