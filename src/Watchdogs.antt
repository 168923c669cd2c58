-- ===== src/Watchdogs.antt =====
-- services/orchestrator/server/src/runtime.rs: the watchdogs on the kernel's clock. An `Instant` is
-- a number, and the clock's reading and `Instant::MAX` are arguments.
pub mod Drain
mod Examples
use openprot.Prelude.{
  ℕ, zero, suc, ◌+◌, leb, Option, none, some, List, [], ◌∷◌, if◌then◌else◌, Result,
}
use openprot.Sm.Model.{ComponentId, Event, timeout, commit_timeout}
use openprot.Timer.{
  Full, TimerManager, Expired, boot, commit, next_deadline, poll, arm_boot, arm_commit,
}

-- `BootWatchdogs`
abbrev pub BootWatchdogs : Type 0
BootWatchdogs = TimerManager

-- `BootWatchdogs::deadline_in`
unfoldable pub deadline_in : ℕ → ℕ → ℕ → ℕ
deadline_in instant_max now after =
    if leb (now + after) instant_max then now + after else instant_max

-- `BootWatchdogs::arm_boot`
unfoldable pub arm_boot_in :
    ℕ → ℕ → ComponentId → ℕ → BootWatchdogs → BootWatchdogs × Result {0, 0} Full Unit
arm_boot_in instant_max now id after timers = arm_boot id (deadline_in instant_max now after) timers

-- `BootWatchdogs::arm_commit`
unfoldable pub arm_commit_in : ℕ → ℕ → ℕ → BootWatchdogs → BootWatchdogs
arm_commit_in instant_max now after timers = arm_commit (deadline_in instant_max now after) timers

abbrev or_max : ℕ → Option ℕ → ℕ
or_max instant_max none = instant_max
or_max instant_max (some deadline) = deadline

-- `BootWatchdogs::wait_deadline`
unfoldable pub wait_deadline : ℕ → BootWatchdogs → ℕ
wait_deadline instant_max timers = or_max instant_max (next_deadline timers)

abbrev pub expired_event : Expired → Event
expired_event (boot id) = timeout id
expired_event commit = commit_timeout

abbrev pub expired_events : BootWatchdogs × Option Expired → BootWatchdogs × Option Event
expired_events (timers, none) = (timers, none)
expired_events (timers, some expired) = (timers, some (expired_event expired))

-- `BootWatchdogs::poll_expired`
unfoldable pub poll_expired : ℕ → BootWatchdogs → BootWatchdogs × Option Event
poll_expired now timers = expired_events (poll now timers)

-- "Call in a loop after each `object_wait` return": the polls of one wake, up to the first `None`.
unfoldable pub drain_expired : ℕ → ℕ → BootWatchdogs → BootWatchdogs × List Event
drain_expired now zero timers = (timers, [])
drain_expired now (suc fuel) timers =
    let rest = drain_expired now fuel (poll_expired now timers).0 in
    elim (poll_expired now timers).1 [
      | none ↦ ((poll_expired now timers).0, [])
      | some event ↦ (rest.0, event ∷ rest.1)
    ]
