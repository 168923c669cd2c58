-- ===== src/I2c/Runtime/Latch.antt =====
-- services/i2c/server-runtime/src/lib.rs: the latch of a bus, and the signal to its client, through every
-- sequence of interrupts and requests.
pub mod Interrupts
pub mod Requests
pub mod Rounds
use openprot.Prelude.{ℕ, ◌≤◌, ◌<◌, ◌≡◌, true, List, [], ◌∷◌, length, ok}
use openprot.I2c.{max_payload_size}
use openprot.I2c.Runtime.{Driver, Slot, handle_irq, handle_request}

-- What the driver documents of `read_slave_buffer`: it fills the slice that it is given, and returns how
-- many bytes it has read.
pub record Reads (driver : Driver) : Type 0 where
  pub keeps :
      (s : driver.bus.State) (rx : List ℕ) → length (driver.read_slave_buffer s rx).1 ≡ length rx
  pub bounded :
      (s : driver.bus.State) (rx : List ℕ) (n : ℕ)
      → (driver.read_slave_buffer s rx).2 ≡ ok n
      → n ≤ length rx

module _ (driver : Driver) where
  -- An interrupt of the bus, or a request of its client.
  pub data Wake : Type 0 where
    irq : Wake
    request : List ℕ → Wake

  -- One round of `run`, with the response buffer that the rounds share.
  unfoldable pub round : Wake → Slot driver × List ℕ → Slot driver × List ℕ
  round irq (slot, response) = (handle_irq driver slot, response)
  round (request req) (slot, response) =
      let handled = handle_request driver slot req response in (handled.0, handled.1)

  unfoldable pub rounds : List Wake → Slot driver × List ℕ → Slot driver × List ℕ
  rounds [] st = st
  rounds (wake ∷ wakes) st = rounds wakes (round wake st)

  -- The buffers have their lengths, the latch holds no more than its buffer, and while it holds bytes,
  -- the client's signal is raised.
  pub record Inv (st : Slot driver × List ℕ) : Type 0 where
    pub response : length st.1 ≡ 512
    pub buffer : length st.0.rx ≡ max_payload_size
    pub within : st.0.rx_len ≤ max_payload_size
    pub signalled : 0 < st.0.rx_len → st.0.user_signal ≡ true
