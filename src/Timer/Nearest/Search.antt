-- ===== src/Timer/Nearest/Search.antt =====
-- The search for the earliest boot watchdog (services/orchestrator/timer/src/lib.rs, `poll`).
use openprot.Prelude.{
  ℕ, suc, ◌+◌, ◌≤◌, ◌<◌, ◌≡◌, refl, ap, ◌∙◌, ◌⊎◌, inl, inr, Bool, true, false, Option, none, some,
  List, [], ◌∷◌, leb, ◌==◌, if◌then◌else◌, arith, Bool-cases, get_elem?,
}
use openprot.Timer.{
  Expired, boot, commit, BootDeadline, TimerManager, nearer, min_boot, Due, earlier, earliest_boot,
}
use openprot.Timer.Armed.{lookup}

-- The deadline of a watchdog.
abbrev pub deadline_of : TimerManager → Expired → Option ℕ
deadline_of tm (boot id) = lookup tm.boot id
deadline_of tm commit = tm.commit

abbrev pub is_same : Expired → Expired → Bool
is_same (boot id) (boot k) = id == k
is_same (boot id) commit = false
is_same commit (boot k) = false
is_same commit commit = true

-- No deadline of an optional one is due.
abbrev pub IsLater : ℕ → Option ℕ → Type 0
IsLater now none = Unit
IsLater now (some t) = now < t

-- What the search for the earliest boot watchdog finds.
abbrev Finds : ℕ → ℕ → List BootDeadline → Option Due → Type 0
Finds now i ds found =
    ((found ≡ none) × IsLater now (min_boot ds))
    ⊎ ((k : ℕ) × (d : BootDeadline) × (found
          ≡ some (record { index = i + k; at = d.at; id = d.id }))
        × (get_elem? ds k ≡ some d)
        × (min_boot ds ≡ some d.at)
        × (d.at ≤ now))

abbrev pub found_at : ℕ → BootDeadline → Option Due
found_at j d = some (record { index = j; at = d.at; id = d.id })

-- A watchdog in front of those that were searched.
extend :
    (now i : ℕ) (d : BootDeadline) (ds : List BootDeadline) (found : Option Due)
    → Finds now (suc i) ds found
    → Finds now i (d ∷ ds) (
        if leb d.at now
        then some (earlier (record { index = i; at = d.at; id = d.id }) found)
        else found)
unfolding min_boot
extend now i d ds found (inl (f, m)) = elim (Bool-cases (leb d.at now)) [
  | inl y ↦
      let le : d.at ≤ now = ground arith in
      rw (y, f)
        (inr (0, d, ap (λ j. found_at j d) (omega arith), refl, first (min_boot ds) m le, le))
  | inr n ↦
      let lt : now < d.at = ground arith in rw (n, f) (inl (refl, none_due (min_boot ds) m lt))
]
  where
    first : (m : Option ℕ) → IsLater now m → d.at ≤ now → nearer (some d.at) m ≡ some d.at
    first none h y = refl
    first (some t) h y = ap some (omega arith)

    none_due : (m : Option ℕ) → IsLater now m → now < d.at → IsLater now (nearer (some d.at) m)
    none_due none h y = y
    none_due (some t) h y = omega arith
extend now i d ds found (inr (k, e, f, g, m, le)) = elim (Bool-cases (leb d.at now)) [
  | inr n ↦
      let lt : now < d.at = ground arith in
      rw (n, f)
        (inr (
          suc k,
          e,
          ap (λ j. found_at j e) (omega arith),
          g,
          ap (nearer (some d.at)) m ∙ ap some (omega arith),
          le,
        ))
  | inl y ↦
      rw (y, f)
        (elim (Bool-cases (leb d.at e.at)) [
          | inl c ↦
              let c' : d.at ≤ e.at = ground arith in
              rw c (
                inr (
                  0,
                  d,
                  ap (λ j. found_at j d) (omega arith),
                  refl,
                  ap (nearer (some d.at)) m ∙ ap some (omega arith),
                  omega arith,
                ))
          | inr c ↦
              let c' : e.at < d.at = ground arith in
              rw c (
                inr (
                  suc k,
                  e,
                  ap (λ j. found_at j e) (omega arith),
                  g,
                  ap (nearer (some d.at)) m ∙ ap some (omega arith),
                  le,
                ))
        ])
]

pub earliest_boot-Finds :
    (now i : ℕ) (ds : List BootDeadline) → Finds now i ds (earliest_boot now i ds)
unfolding earliest_boot min_boot
earliest_boot-Finds now i [] = inl (refl, tt)
earliest_boot-Finds now i (d ∷ ds) =
    extend now i d ds (earliest_boot now (suc i) ds) (earliest_boot-Finds now (suc i) ds)
