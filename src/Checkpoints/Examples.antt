-- ===== src/Checkpoints/Examples.antt =====
-- A walk of two checkpoints over a progress register, as in the tests of
-- services/orchestrator/adapters/walk/src/walk.rs.
use openprot.Checkpoints.Windows.{ends_in_time}
use openprot.Prelude.{arith, ◌≢◌, ℕ, ◌≡◌, refl, some, List, [], ◌∷◌, leb, if◌then◌else◌, Result, ok}
use openprot.Driver.Wiring.{Fault, complete}
use openprot.Checkpoints.{
  none, BootStatus, booting, booted, BootCheckpoint, armed, CheckpointWalk, poll, polls,
}
use openprot.Checkpoints.Order.{logging, probes, complete-in_order}

-- The probe `n` is booted once the register has reached `n`.
abbrev register : ℕ → ℕ → ℕ × Result {0, 0} Fault BootStatus
register probe level = (level, ok (if leb probe level then booted else booting))

abbrev device : List (BootCheckpoint ℕ)
device =
    record { name = "bl1"; probe = 1; timeout_millis = 100 }
    ∷ record { name = "kernel"; probe = 2; timeout_millis = 200 }
    ∷ []

abbrev device_walk : CheckpointWalk (ℕ × List ℕ) ℕ
device_walk = record { reader = (2, []); checkpoints = device; phase = armed }

completes : (polls (logging register) (0 ∷ 50 ∷ []) device_walk).1 ≡ some complete
unfolding polls poll
completes = refl

complete-in_order_example :
    (polls (logging register) (0 ∷ 50 ∷ []) device_walk).0.reader.1 ≡ probes device
complete-in_order_example = complete-in_order register (0 ∷ 50 ∷ []) device_walk refl completes

-- A register that never moves.
ends_in_time_example :
    (polls register
      (0 ∷ 70 ∷ 300 ∷ [])
      (record { reader = 0; checkpoints = device; phase = armed })).1
    ≢ none
ends_in_time_example =
    ends_in_time register 0 (70 ∷ []) 300
      (record { reader = 0; checkpoints = device; phase = armed }) refl (omega arith) (omega arith)
