-- ===== src/Watchdogs/Examples.antt =====
-- Three watchdogs, two of them due: the theorem on draining, applied.
use openprot.Prelude.{◌<◌, refl, some, [], ◌∷◌, arith}
use openprot.Timer.{TimerManager}
use openprot.Timer.Armed.{IsWellFormed, lookup}
use openprot.Watchdogs.{wait_deadline, drain_expired}
use openprot.Watchdogs.Drain.{drained_wait}

abbrev three : TimerManager
three = record {
  capacity = 2;
  boot = record { id = 7; at = 30 } ∷ record { id = 4; at = 20 } ∷ [];
  commit = some 20;
}

three-IsWellFormed : IsWellFormed three
unfolding lookup
three-IsWellFormed = record { unique = (refl, (refl, tt)); roomy = omega arith }

drained_wait_example :
    IsWellFormed (drain_expired 25 4 three).0
    × (25 < wait_deadline 1000 (drain_expired 25 4 three).0)
drained_wait_example = drained_wait 1000 25 4 three (omega arith) three-IsWellFormed (omega arith)
