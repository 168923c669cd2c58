-- ===== src/Timer.antt =====
-- services/orchestrator/timer/src/lib.rs: the watchdogs. The instants `T` and the ids `Id` of the
-- source are numbers here; the capacity N is a field. A `heapless::Vec` is a list.
pub mod Armed
pub mod Arming
pub mod Nearest
mod Examples
use openprot.Prelude.{
  ℕ, zero, suc, min, Option, none, some, List, [], ◌∷◌, ◌++◌, ltb, leb, ◌==◌, if◌then◌else◌, length,
  Result, ok, err,
}

pub data Full : Type 0 where
  full : Full

pub data Expired : Type 0 where
  boot : ℕ → Expired
  commit : Expired

pub record BootDeadline : Type 0 where
  pub id : ℕ
  pub at : ℕ

pub record TimerManager : Type 0 where
  pub capacity : ℕ
  pub boot : List BootDeadline
  pub commit : Option ℕ

-- `TimerManager::new`
unfoldable pub new : ℕ → TimerManager
new n = record { capacity = n; boot = []; commit = none }

-- `self.boot.iter_mut().find(|d| d.id == id)` and the write through it.
unfoldable pub rearm : List BootDeadline → ℕ → ℕ → Option (List BootDeadline)
rearm [] id deadline = none
rearm (d ∷ ds) id deadline =
    let later = rearm ds id deadline in
    if d.id == id
    then some (record d { at = deadline } ∷ ds)
    else (elim later [ none ↦ none | some ds' ↦ some (d ∷ ds') ])

-- `TimerManager::arm_boot`
unfoldable pub arm_boot : ℕ → ℕ → TimerManager → TimerManager × Result {0, 0} Full Unit
arm_boot id deadline tm = elim (rearm tm.boot id deadline) [
  | some ds ↦ (record tm { boot = ds }, ok tt)
  | none ↦
      if ltb (length tm.boot) tm.capacity
      then (record tm { boot = tm.boot ++ record { id = id; at = deadline } ∷ [] }, ok tt)
      else (tm, err full)
]

-- `self.boot.iter().position(|d| d.id == id)`
unfoldable pub position : List BootDeadline → ℕ → Option ℕ
position [] id = none
position (d ∷ ds) id =
    let later = position ds id in
    if d.id == id then some 0 else (elim later [ none ↦ none | some i ↦ some (suc i) ])

abbrev pub insert_second : BootDeadline → List BootDeadline → List BootDeadline
insert_second d [] = d ∷ []
insert_second d (first ∷ rest) = first ∷ d ∷ rest

-- The last element in front of the others, which keep their order.
abbrev pub last_first : BootDeadline → List BootDeadline → List BootDeadline
last_first d [] = d ∷ []
last_first d (e ∷ ds) = insert_second d (last_first e ds)

-- `Vec::swap_remove`: the last element takes the place of the one that is removed.
abbrev pub swap_remove : List BootDeadline → ℕ → List BootDeadline
swap_remove [] i = []
swap_remove (d ∷ []) zero = []
swap_remove (d ∷ e ∷ ds) zero = last_first e ds
swap_remove (d ∷ ds) (suc i) = d ∷ swap_remove ds i

-- `TimerManager::cancel_boot`
unfoldable pub cancel_boot : ℕ → TimerManager → TimerManager
cancel_boot id tm = elim (position tm.boot id) [
  | none ↦ tm
  | some i ↦ record tm { boot = swap_remove tm.boot i }
]

-- `TimerManager::arm_commit`
unfoldable pub arm_commit : ℕ → TimerManager → TimerManager
arm_commit deadline tm = record tm { commit = some deadline }

-- `TimerManager::cancel_commit`
unfoldable pub cancel_commit : TimerManager → TimerManager
cancel_commit tm = record tm { commit = none }

-- `(Some(b), Some(c)) => Some(b.min(c)), (b, c) => b.or(c)`
abbrev pub nearer : Option ℕ → Option ℕ → Option ℕ
nearer none c = c
nearer (some b) none = some b
nearer (some b) (some c) = some (min b c)

-- `self.boot.iter().map(|d| d.at).min()`
unfoldable pub min_boot : List BootDeadline → Option ℕ
min_boot [] = none
min_boot (d ∷ ds) = nearer (some d.at) (min_boot ds)

-- `TimerManager::next_deadline`
unfoldable pub next_deadline : TimerManager → Option ℕ
next_deadline tm = nearer (min_boot tm.boot) tm.commit

-- The boot watchdog that `poll` looks for, with its index: `min_by` takes the first of several
-- that are equal.
pub record Due : Type 0 where
  pub index : ℕ
  pub at : ℕ
  pub id : ℕ

abbrev pub earlier : Due → Option Due → Due
earlier d none = d
earlier d (some e) = if leb d.at e.at then d else e

unfoldable pub earliest_boot : ℕ → ℕ → List BootDeadline → Option Due
earliest_boot now i [] = none
earliest_boot now i (d ∷ ds) =
    let later = earliest_boot now (suc i) ds in
    if leb d.at now
    then some (earlier (record { index = i; at = d.at; id = d.id }) later)
    else later

abbrev pub commit_due : ℕ → Option ℕ → Option ℕ
commit_due now none = none
commit_due now (some c) = if leb c now then some c else none

abbrev pub fire_boot : Due → TimerManager → TimerManager × Option Expired
fire_boot d tm = (record tm { boot = swap_remove tm.boot d.index }, some (boot d.id))

abbrev pub fire : Option Due → Option ℕ → TimerManager → TimerManager × Option Expired
fire none none tm = (tm, none)
fire (some d) none tm = fire_boot d tm
fire none (some c) tm = (record tm { commit = none }, some commit)
fire (some d) (some c) tm =
    if leb d.at c then fire_boot d tm else (record tm { commit = none }, some commit)

-- `TimerManager::poll`
unfoldable pub poll : ℕ → TimerManager → TimerManager × Option Expired
poll now tm = fire (earliest_boot now 0 tm.boot) (commit_due now tm.commit) tm
