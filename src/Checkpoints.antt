-- ===== src/Checkpoints.antt =====
-- services/orchestrator/adapters/walk/src/walk.rs: a device's boot checkpoints, walked in order. The
-- reader is a state `R` with the `read` of its `EvidenceReader`; times are milliseconds, and the
-- timeout of a checkpoint is the number that `timeout().as_millis() as u64` gives. Reading the list
-- out of range, a panic in the source, reads as a walk that goes on waiting.
pub mod Order
pub mod Windows
mod Examples
use openprot.Prelude.{
  ℕ, suc, ◌+◌, min, String, Option, none, some, List, [], ◌∷◌, leb, ◌==◌, if◌then◌else◌, length,
  get_elem?, Result, ok, err,
}
use openprot.Driver.Wiring.{
  Fault, timed_out, device_retriable, device_fatal, WalkVerdict, waiting, complete, failed,
}

pub data BootStatus : Type 0 where
  booting booted failed_retriable failed_fatal : BootStatus

pub record BootCheckpoint (P : Type 0) : Type 0 where
  pub name : String
  pub probe : P
  pub timeout_millis : ℕ

pub data Phase : Type 0 where
  idle armed : Phase
  walking : ℕ → ℕ → Phase

abbrev pub u64_max : ℕ
u64_max = 18446744073709551615

abbrev pub saturating_add : ℕ → ℕ → ℕ
saturating_add a b = min (a + b) u64_max

pub record CheckpointWalk (R P : Type 0) : Type 0 where
  pub reader : R
  pub checkpoints : List (BootCheckpoint P)
  pub phase : Phase

-- `if let Phase::Armed = self.phase`
abbrev pub started : {P : Type 0} → ℕ → Phase → Option (BootCheckpoint P) → Phase
started now armed (some first) = walking 0 (saturating_add now first.timeout_millis)
started now armed none = armed
started now phase _ = phase

-- `unwrap_or(BootStatus::Booting)`
abbrev pub status_or_booting : Result {0, 0} Fault BootStatus → BootStatus
status_or_booting (ok status) = status
status_or_booting (err _) = booting

module _ {R P : Type 0} where
  -- `CheckpointWalk::new`, for the checkpoints of a device's configuration.
  unfoldable pub new : R → List (BootCheckpoint P) → CheckpointWalk R P
  new reader checkpoints = record { reader = reader; checkpoints = checkpoints; phase = idle }

  -- `arm`
  unfoldable pub arm : CheckpointWalk R P → CheckpointWalk R P
  arm walk = record walk { phase = armed }

  abbrev pub enter :
      ℕ → ℕ → ℕ → Option (BootCheckpoint P) → CheckpointWalk R P → CheckpointWalk R P × WalkVerdict
  enter now deadline next none walk = (walk, waiting deadline)
  enter now deadline next (some checkpoint) walk =
      let new_deadline = saturating_add now checkpoint.timeout_millis in
      (record walk { phase = walking next new_deadline }, waiting new_deadline)

  -- `match status`
  abbrev pub judge :
      ℕ
      → ℕ
      → ℕ
      → BootCheckpoint P
      → BootStatus
      → CheckpointWalk R P
      → CheckpointWalk R P × WalkVerdict
  judge now cursor deadline checkpoint booting walk = (walk, waiting deadline)
  judge now cursor deadline checkpoint booted walk =
      if suc cursor == length walk.checkpoints
      then (record walk { phase = idle }, complete)
      else enter now deadline (suc cursor) (get_elem? walk.checkpoints (suc cursor)) walk
  judge now cursor deadline checkpoint failed_retriable walk =
      (record walk { phase = idle }, failed checkpoint.name device_retriable)
  judge now cursor deadline checkpoint failed_fatal walk =
      (record walk { phase = idle }, failed checkpoint.name device_fatal)

  module _ (read : P → R → R × Result {0, 0} Fault BootStatus) where
    abbrev pub look :
        ℕ
        → ℕ
        → ℕ
        → Option (BootCheckpoint P)
        → CheckpointWalk R P
        → CheckpointWalk R P × WalkVerdict
    look now cursor deadline none walk = (walk, waiting u64_max)
    look now cursor deadline (some checkpoint) walk =
        if leb deadline now
        then (record walk { phase = idle }, failed checkpoint.name timed_out)
        else (let (reader, status) = read checkpoint.probe walk.reader in
            judge now cursor deadline checkpoint (status_or_booting status)
              (record walk { reader = reader }))

    abbrev pub poll_phase : ℕ → Phase → CheckpointWalk R P → CheckpointWalk R P × WalkVerdict
    poll_phase now (walking cursor deadline) walk =
        look now cursor deadline (get_elem? walk.checkpoints cursor) walk
    poll_phase now _ walk = (walk, waiting u64_max)

    -- `poll`
    unfoldable pub poll : ℕ → CheckpointWalk R P → CheckpointWalk R P × WalkVerdict
    poll now walk =
        let phase = started now walk.phase (get_elem? walk.checkpoints 0) in
        poll_phase now phase (record walk { phase = phase })

    -- Polls at the times given, up to the first verdict that ends the walk.
    unfoldable pub polls : List ℕ → CheckpointWalk R P → CheckpointWalk R P × Option WalkVerdict
    polls [] walk = (walk, none)
    polls (now ∷ times) walk =
        let later = polls times (poll now walk).0 in
        elim (poll now walk).1 [
          | waiting _ ↦ later
          | complete ↦ ((poll now walk).0, some complete)
          | failed name cause ↦ ((poll now walk).0, some (failed name cause))
        ]
