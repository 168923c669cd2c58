-- ===== src/Timer/Arming.antt =====
-- Arming and cancelling (services/orchestrator/timer/src/lib.rs).
use openprot.Prelude.{
  ℕ, suc, ◌≤◌, ◌≡◌, refl, sym, ap, ◌∙◌, subst, ◌⊎◌, inl, inr, true, false, Option, none, some, List,
  [], ◌∷◌, ◌++◌, ltb, ◌==◌, if◌then◌else◌, length, ok, err, arith, Bool-cases, length-append,
  ==_iff, get_elem?,
}
use openprot.Timer.{
  full, BootDeadline, TimerManager, rearm, arm_boot, position, swap_remove, cancel_boot,
}
use openprot.Timer.Armed.{
  lookup, IsUnique, IsWellFormed, IsWithout, swap_remove-IsWithout, length-swap_remove,
}

-- `ds'` is `ds` with the deadline `t` for `id`.
abbrev IsWith : ℕ → ℕ → List BootDeadline → List BootDeadline → Type 0
IsWith id t ds ds' =
    ((k : ℕ) → lookup ds' k ≡ (if id == k then some t else lookup ds k)) × IsUnique ds'

-- What `rearm` finds.
abbrev Rearms : ℕ → ℕ → List BootDeadline → Option (List BootDeadline) → Type 0
Rearms id t ds found =
    ((found ≡ none) × (lookup ds id ≡ none))
    ⊎ ((ds' : List BootDeadline) × (found ≡ some ds')
        × IsWith id t ds ds'
        × (length ds' ≡ length ds))

set-lookup :
    (d : BootDeadline) (ds : List BootDeadline) (id t k : ℕ)
    → (d.id == id) ≡ true
    → lookup (record d { at = t } ∷ ds) k ≡ (if id == k then some t else lookup (d ∷ ds) k)
unfolding lookup
set-lookup d ds id t k h = ground arith

keep-lookup :
    (d : BootDeadline) (ds ds' : List BootDeadline) (id t k : ℕ)
    → (d.id == id) ≡ false
    → lookup ds' k ≡ (if id == k then some t else lookup ds k)
    → lookup (d ∷ ds') k ≡ (if id == k then some t else lookup (d ∷ ds) k)
unfolding lookup
keep-lookup d ds ds' id t k n h = elim (Bool-cases (id == k)) [
  | inl y ↦
      let m : (d.id == k) ≡ false = ap (λ j. d.id == j) (sym ((==_iff id k).0 y)) ∙ n in
      rw (y, m) (subst (λ b. lookup ds' k ≡ (if b then some t else lookup ds k)) y h)
  | inr f ↦ rw f (
      ap (λ later. if d.id == k then some d.at else later)
        (subst (λ b. lookup ds' k ≡ (if b then some t else lookup ds k)) f h))
]

keep-fresh :
    (d : BootDeadline) (ds ds' : List BootDeadline) (id t : ℕ)
    → (d.id == id) ≡ false
    → lookup ds' d.id ≡ (if id == d.id then some t else lookup ds d.id)
    → lookup ds d.id ≡ none
    → lookup ds' d.id ≡ none
keep-fresh d ds ds' id t n h u =
    let m : (id == d.id) ≡ false = ground arith in
    subst (λ b. lookup ds' d.id ≡ (if b then some t else lookup ds d.id)) m h ∙ u

rearm-Rearms : (ds : List BootDeadline) (id t : ℕ) → IsUnique ds → Rearms id t ds (rearm ds id t)
unfolding rearm lookup
rearm-Rearms [] id t u = inl (refl, refl)
rearm-Rearms (d ∷ ds) id t u = elim (Bool-cases (d.id == id)) [
  | inl y ↦ rw y (inr (record d { at = t } ∷ ds, refl, ((λ k. set-lookup d ds id t k y), u), refl))
  | inr n ↦ rw n (elim (rearm-Rearms ds id t u.1) [
    | inl (f, l) ↦ rw f (inl (refl, l))
    | inr (ds', f, w, len) ↦ rw f (
        inr (
          d ∷ ds',
          refl,
          (
            (λ k. keep-lookup d ds ds' id t k n (w.0 k)),
            (keep-fresh d ds ds' id t n (w.0 d.id) u.0, w.1),
          ),
          ap suc len,
        ))
  ])
]

append-IsWith :
    (ds : List BootDeadline) (id t : ℕ)
    → IsUnique ds
    → lookup ds id ≡ none
    → IsWith id t ds (ds ++ record { id = id; at = t } ∷ [])
unfolding lookup
append-IsWith [] id t u h = ((λ k. refl), (refl, tt))
append-IsWith (d ∷ ds) id t u h =
    let n : (d.id == id) ≡ false = ground arith in
    let later : lookup ds id ≡ none = ground arith in
    let w = append-IsWith ds id t u.1 later in
    (
      (λ k. keep-lookup d ds (ds ++ record { id = id; at = t } ∷ []) id t k n (w.0 k)),
      (keep-fresh d ds (ds ++ record { id = id; at = t } ∷ []) id t n (w.0 d.id) u.0, w.1),
    )

-- For a well-formed timer: `arm_boot` gives the component the deadline, in place of the one it
-- had, and changes no other watchdog; it refuses, and changes nothing, only when the component has
-- no deadline and N others do.
pub arm_boot-cases :
    (id deadline : ℕ) (tm : TimerManager)
    → IsWellFormed tm
    → let (tm', res) = arm_boot id deadline tm in
      ((res ≡ ok tt)
        × IsWellFormed tm'
        × (tm'.commit ≡ tm.commit)
        × ((k : ℕ) → lookup tm'.boot k ≡ (if id == k then some deadline else lookup tm.boot k)))
      ⊎ ((res ≡ err full)
          × (tm' ≡ tm)
          × (lookup tm.boot id ≡ none)
          × (length tm.boot ≡ tm.capacity))
unfolding arm_boot
arm_boot-cases id deadline tm wf = elim (rearm-Rearms tm.boot id deadline wf.unique) [
  | inr (ds', f, w, len) ↦
      rw (f, arm_boot)
        (inl (refl, record { unique = w.1; roomy = omega (arith, len, wf.roomy) }, refl, w.0))
  | inl (f, l) ↦
      rw (f, arm_boot)
        (elim (Bool-cases (ltb (length tm.boot) tm.capacity)) [
          | inl y ↦
              let w = append-IsWith tm.boot id deadline wf.unique l in
              rw y (inl (refl, record { unique = w.1; roomy = fits y }, refl, w.0))
          | inr n ↦ rw n (inr (refl, refl, l, filled n))
        ])
]
  where
    fits :
        ltb (length tm.boot) tm.capacity ≡ true
        → length (tm.boot ++ record { id = id; at = deadline } ∷ []) ≤ tm.capacity
    fits y =
        let k : suc (length tm.boot) ≤ tm.capacity = ground arith in
        omega (arith, length-append tm.boot (record { id = id; at = deadline } ∷ []))

    filled : ltb (length tm.boot) tm.capacity ≡ false → length tm.boot ≡ tm.capacity
    filled n = let k : tm.capacity ≤ length tm.boot = ground arith in omega (arith, wf.roomy)

position-found :
    (ds : List BootDeadline) (id : ℕ)
    → ((position ds id ≡ none) × (lookup ds id ≡ none))
      ⊎ ((i : ℕ) × (d : BootDeadline) × (position ds id ≡ some i)
          × (get_elem? ds i ≡ some d)
          × (d.id ≡ id))
unfolding position lookup
position-found [] id = inl (refl, refl)
position-found (d ∷ ds) id = elim (Bool-cases (d.id == id)) [
  | inl y ↦ rw y (inr (0, d, refl, refl, (==_iff d.id id).0 y))
  | inr n ↦ rw n (elim (position-found ds id) [
    | inl (p, l) ↦ rw p (inl (refl, l))
    | inr (i, e, p, g, q) ↦ rw p (inr (suc i, e, refl, g, q))
  ])
]

absent :
    (ds : List BootDeadline) (id k : ℕ)
    → lookup ds id ≡ none
    → lookup ds k ≡ (if id == k then none else lookup ds k)
absent ds id k h = elim (Bool-cases (id == k)) [
  | inl y ↦ rw y (sym (ap (lookup ds) ((==_iff id k).0 y)) ∙ h)
  | inr n ↦ rw n refl
]

-- For a well-formed timer: `cancel_boot` leaves the component without a deadline, and changes no
-- other watchdog.
pub cancel_boot_lem :
    (id : ℕ) (tm : TimerManager)
    → IsWellFormed tm
    → IsWellFormed (cancel_boot id tm)
      × ((cancel_boot id tm).commit ≡ tm.commit)
      × ((k : ℕ) → lookup (cancel_boot id tm).boot k ≡ (if id == k then none else lookup tm.boot k))
unfolding cancel_boot
cancel_boot_lem id tm wf = elim (position-found tm.boot id) [
  | inl (p, l) ↦ rw (p, cancel_boot) (wf, refl, λ k. absent tm.boot id k l)
  | inr (i, d, p, g, q) ↦
      let w =
        subst (λ j. IsWithout j tm.boot (swap_remove tm.boot i)) q
          (swap_remove-IsWithout tm.boot i d wf.unique g) in
      rw (p, cancel_boot)
        (
          record { unique = w.1; roomy = omega (arith, length-swap_remove tm.boot i, wf.roomy) },
          refl,
          w.0,
        )
]
