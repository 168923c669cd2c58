-- ===== src/Timer/Nearest.antt =====
-- `poll` and `next_deadline` agree (services/orchestrator/timer/src/lib.rs).
pub mod Search
use openprot.Prelude.{
  length, suc, ℕ, ◌+◌, ◌≤◌, ◌<◌, ◌≡◌, refl, sym, ap, ◌∙◌, subst, ◌⊎◌, inl, inr, Option, none, some,
  leb, ◌==◌, if◌then◌else◌, arith, Bool-cases, get_elem?,
}
use openprot.Timer.{
  Expired, boot, commit, BootDeadline, TimerManager, swap_remove, nearer, min_boot, next_deadline,
  commit_due, fire, fire_boot, poll,
}
use openprot.Timer.Armed.{
  one_if_some, armed_count, suc-length-swap_remove, get_elem?-deadline, lookup, IsWellFormed,
  swap_remove-IsWithout, length-swap_remove,
}
use openprot.Timer.Nearest.Search.{deadline_of, is_same, IsLater, found_at, earliest_boot-Finds}

-- What `poll` does: nothing while the next deadline is in the future, and else one watchdog with
-- that deadline fires, and is the only one that is gone.
abbrev pub Pops : ℕ → TimerManager → TimerManager × Option Expired → Type 0
Pops now tm res =
    ((res ≡ (tm, none)) × IsLater now (next_deadline tm))
    ⊎ ((t : ℕ) × (fired : Expired) × (res.1 ≡ some fired)
        × (next_deadline tm ≡ some t)
        × (t ≤ now)
        × (deadline_of tm fired ≡ some t)
        × IsWellFormed res.0
        × (suc (armed_count res.0) ≡ armed_count tm)
        × ((w : Expired)
            → deadline_of res.0 w ≡ (if is_same fired w then none else deadline_of tm w)))

pop_boot :
    (now : ℕ) (tm : TimerManager) (k : ℕ) (d : BootDeadline)
    → IsWellFormed tm
    → get_elem? tm.boot k ≡ some d
    → next_deadline tm ≡ some d.at
    → d.at ≤ now
    → Pops now tm (fire_boot (record { index = k; at = d.at; id = d.id }) tm)
pop_boot now tm k d wf g n le =
    let w = swap_remove-IsWithout tm.boot k d wf.unique g in
    inr (
      d.at,
      boot d.id,
      refl,
      n,
      le,
      get_elem?-deadline tm.boot k d wf.unique g,
      record { unique = w.1; roomy = omega (arith, length-swap_remove tm.boot k, wf.roomy) },
      (omega (arith, suc-length-swap_remove tm.boot k d g)),
      others w.0,
    )
  where
    others :
        ((j : ℕ)
          → lookup (swap_remove tm.boot k) j ≡ (if d.id == j then none else lookup tm.boot j))
        → (w : Expired)
        → deadline_of (record tm { boot = swap_remove tm.boot k }) w
          ≡ (if is_same (boot d.id) w then none else deadline_of tm w)
    others h (boot j) = h j
    others h commit = refl

pop_commit :
    (now : ℕ) (tm : TimerManager) (c : ℕ)
    → IsWellFormed tm
    → tm.commit ≡ some c
    → next_deadline tm ≡ some c
    → c ≤ now
    → Pops now tm (record tm { commit = none }, some commit)
pop_commit now tm c wf e n le =
    inr (c, commit, refl, n, le, e, record { unique = wf.unique; roomy = wf.roomy }, fewer, others)
  where
    fewer : suc (length tm.boot + 0) ≡ length tm.boot + one_if_some tm.commit
    fewer = omega (arith, ap one_if_some e)

    others :
        (w : Expired)
        → deadline_of (record tm { commit = none }) w
          ≡ (if is_same commit w then none else deadline_of tm w)
    others (boot j) = refl
    others commit = refl

-- For every well-formed timer: `poll` returns nothing and changes nothing while `next_deadline` is
-- absent or in the future; otherwise it reports a watchdog whose deadline is `next_deadline`, that
-- watchdog is disarmed, every other one keeps its deadline, and the timer is still well-formed.
pub poll-Pops : (now : ℕ) (tm : TimerManager) → IsWellFormed tm → Pops now tm (poll now tm)
unfolding poll next_deadline
poll-Pops now tm wf = elim (earliest_boot-Finds now 0 tm.boot) [
  | inl (f, m) ↦ rw f (no_boot m tm.commit refl)
  | inr (k, d, f, g, m, le) ↦
      rw (f ∙ ap (λ j. found_at j d) (zero_add k)) (one_boot k d g m le tm.commit refl)
]
  where
    zero_add : (k : ℕ) → 0 + k ≡ k
    zero_add k = omega arith

    both :
        {a c : Option ℕ}
        → min_boot tm.boot ≡ a
        → tm.commit ≡ c
        → nearer (min_boot tm.boot) tm.commit ≡ nearer a c
    both {a} {c} m e = ap (λ b. nearer b tm.commit) m ∙ ap (nearer a) e

    none_due : (c : ℕ) (m : Option ℕ) → IsLater now m → now < c → IsLater now (nearer m (some c))
    none_due c none h l = l
    none_due c (some b) h l = omega arith

    commit_first : (c : ℕ) (m : Option ℕ) → IsLater now m → c ≤ now → nearer m (some c) ≡ some c
    commit_first c none h l = refl
    commit_first c (some b) h l = ap some (omega arith)

    alone : (m : Option ℕ) → IsLater now m → IsLater now (nearer m none)
    alone none h = tt
    alone (some b) h = h

    no_boot :
        IsLater now (min_boot tm.boot)
        → (c : Option ℕ) → tm.commit ≡ c
        → Pops now tm (fire none (commit_due now c) tm)
    no_boot m none e = inl (
      refl,
      subst (λ c. IsLater now (nearer (min_boot tm.boot) c)) (sym e) (alone (min_boot tm.boot) m),
    )
    no_boot m (some c) e = elim (Bool-cases (leb c now)) [
      | inl y ↦
          let le : c ≤ now = ground arith in
          rw y (
            pop_commit now tm c wf e
              (ap (nearer (min_boot tm.boot)) e ∙ commit_first c (min_boot tm.boot) m le) le)
      | inr n ↦
          let lt : now < c = ground arith in
          rw n (
            inl (
              refl,
              subst (λ c. IsLater now (nearer (min_boot tm.boot) c)) (sym e)
                  (none_due c (min_boot tm.boot) m lt),
            ))
    ]

    one_boot :
        (k : ℕ) (d : BootDeadline)
        → get_elem? tm.boot k ≡ some d
        → min_boot tm.boot ≡ some d.at
        → d.at ≤ now
        → (c : Option ℕ) → tm.commit ≡ c
        → Pops now tm
            (fire (some (record { index = k; at = d.at; id = d.id })) (commit_due now c) tm)
    one_boot k d g m le none e = pop_boot now tm k d wf g (both m e) le
    one_boot k d g m le (some c) e = elim (Bool-cases (leb c now)) [
      | inr n ↦
          let lt : now < c = ground arith in
          rw n (pop_boot now tm k d wf g (both m e ∙ ap some (omega arith)) le)
      | inl y ↦
          let cle : c ≤ now = ground arith in
          rw y (elim (Bool-cases (leb d.at c)) [
            | inl b ↦
                let ble : d.at ≤ c = ground arith in
                rw b (pop_boot now tm k d wf g (both m e ∙ ap some (omega arith)) le)
            | inr b ↦
                let blt : c < d.at = ground arith in
                rw b (pop_commit now tm c wf e (both m e ∙ ap some (omega arith)) cle)
          ])
    ]
