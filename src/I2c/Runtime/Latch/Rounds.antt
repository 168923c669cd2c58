-- ===== src/I2c/Runtime/Latch/Rounds.antt =====
-- services/i2c/server-runtime/src/lib.rs: the latch and the signal after any rounds of `run`.
use openprot.Prelude.{ℕ, List, [], ◌∷◌}
use openprot.I2c.Runtime.{Driver, Slot, handle_irq, handle_request}
use openprot.I2c.Runtime.Latch.{Reads, Wake, irq, request, round, rounds, Inv}
use openprot.I2c.Runtime.Latch.Interrupts.{handle_irq-Inv}
use openprot.I2c.Runtime.Latch.Requests.{handle_request-Fine}

module _ (driver : Driver) where
  -- Whatever interrupts come, and whatever bytes the requests have: while the latch holds bytes, the
  -- client's signal is raised, so that no message waits for a client that is not woken; and the latch
  -- never holds more than its buffer. The state before is one in which this is so, as it is for a new
  -- bus, and the driver reads no more than it is given room for.
  pub rounds-Inv :
      (wakes : List (Wake driver)) (st : Slot driver × List ℕ)
      → Reads driver
      → Inv driver st
      → Inv driver (rounds driver wakes st)
  unfolding rounds round
  rounds-Inv [] st reads inv = inv
  rounds-Inv (irq ∷ wakes) (slot, response) reads inv =
      rounds-Inv wakes (handle_irq driver slot, response) reads
        (handle_irq-Inv driver slot response reads inv)
  rounds-Inv (request req ∷ wakes) (slot, response) reads inv =
      let handled = handle_request driver slot req response in
      rounds-Inv wakes (handled.0, handled.1) reads
        (handle_request-Fine driver slot req response inv)
