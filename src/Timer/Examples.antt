-- ===== src/Timer/Examples.antt =====
-- A timer with two components: the theorems on services/orchestrator/timer, applied.
use openprot.Prelude.{
  ℕ, ◌≡◌, refl, ◌⊎◌, none, some, [], ◌∷◌, ok, err, ◌==◌, if◌then◌else◌, length, arith,
}
use openprot.Timer.{full, TimerManager, arm_boot, cancel_boot, poll}
use openprot.Timer.Armed.{lookup, IsWellFormed}
use openprot.Timer.Arming.{arm_boot-cases, cancel_boot_lem}
use openprot.Timer.Nearest.{Pops, poll-Pops}

abbrev sample : TimerManager
sample = record {
  capacity = 2;
  boot = record { id = 7; at = 30 } ∷ record { id = 4; at = 20 } ∷ [];
  commit = some 20;
}

sample-IsWellFormed : IsWellFormed sample
unfolding lookup
sample-IsWellFormed = record { unique = (refl, (refl, tt)); roomy = omega arith }

poll-Pops_example : Pops 25 sample (poll 25 sample)
poll-Pops_example = poll-Pops 25 sample sample-IsWellFormed

arm_boot-cases_example :
    ((arm_boot 9 40 sample).1 ≡ ok tt)
      × IsWellFormed (arm_boot 9 40 sample).0
      × ((arm_boot 9 40 sample).0.commit ≡ sample.commit)
      × ((k : ℕ)
          → lookup (arm_boot 9 40 sample).0.boot k
            ≡ (if 9 == k then some 40 else lookup sample.boot k))
    ⊎ ((arm_boot 9 40 sample).1 ≡ err full)
      × ((arm_boot 9 40 sample).0 ≡ sample)
      × (lookup sample.boot 9 ≡ none)
      × (length sample.boot ≡ sample.capacity)
arm_boot-cases_example = arm_boot-cases 9 40 sample sample-IsWellFormed

cancel_boot_example :
    IsWellFormed (cancel_boot 7 sample)
    × ((cancel_boot 7 sample).commit ≡ sample.commit)
    × ((k : ℕ)
        → lookup (cancel_boot 7 sample).boot k ≡ (if 7 == k then none else lookup sample.boot k))
cancel_boot_example = cancel_boot_lem 7 sample sample-IsWellFormed
