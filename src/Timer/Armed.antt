-- ===== src/Timer/Armed.antt =====
-- What is armed (services/orchestrator/timer/src/lib.rs): a component has at most one deadline, and
-- arming and cancelling change that of one component.
use openprot.Prelude.{
  ◌+◌, ==_iff, ==_refl, some-injective, get_elem?, get_elem?, ℕ, zero, suc, ◌≤◌, ◌≡◌, refl, sym, ap,
  ◌∙◌, subst, inl, inr, Bool, true, false, Option, none, some, List, [], ◌∷◌, ◌==◌, if◌then◌else◌,
  length, arith, Bool-cases,
}
use openprot.Timer.{BootDeadline, TimerManager, insert_second, last_first, swap_remove}

-- The deadline of a component, in a list of watchdogs.
unfoldable pub lookup : List BootDeadline → ℕ → Option ℕ
lookup [] k = none
lookup (d ∷ ds) k = let later = lookup ds k in if d.id == k then some d.at else later

abbrev pub IsUnique : List BootDeadline → Type 0
IsUnique [] = Unit
IsUnique (d ∷ ds) = (lookup ds d.id ≡ none) × IsUnique ds

pub record IsWellFormed (tm : TimerManager) : Type 0 where
  pub unique : IsUnique tm.boot
  pub roomy : length tm.boot ≤ tm.capacity

abbrev override : (ℕ → Option ℕ) → ℕ → Option ℕ → ℕ → Option ℕ
override f id v k = if id == k then v else f k

-- Two watchdogs of different components change places.
lookup-swap :
    (d e : BootDeadline) (ds : List BootDeadline) (k : ℕ)
    → (e.id == d.id) ≡ false
    → lookup (e ∷ d ∷ ds) k ≡ lookup (d ∷ e ∷ ds) k
unfolding lookup
lookup-swap d e ds k h = ground arith

lookup-head :
    (d e : BootDeadline) (ds : List BootDeadline)
    → lookup (e ∷ ds) d.id ≡ none
    → ((e.id == d.id) ≡ false) × (lookup ds d.id ≡ none)
unfolding lookup
lookup-head d e ds h = elim (Bool-cases (e.id == d.id)) [
  | inl y ↦ absurd (ground arith)
  | inr n ↦ (n, ground arith)
]

lookup-cons :
    (d : BootDeadline) (xs ys : List BootDeadline) (k : ℕ)
    → lookup xs k ≡ lookup ys k
    → lookup (d ∷ xs) k ≡ lookup (d ∷ ys) k
unfolding lookup
lookup-cons d xs ys k h = ap (λ later. if d.id == k then some d.at else later) h

insert_second-lookup :
    (d : BootDeadline) (ds : List BootDeadline) (k : ℕ)
    → lookup ds d.id ≡ none
    → lookup (insert_second d ds) k ≡ lookup (d ∷ ds) k
insert_second-lookup d [] k h = refl
insert_second-lookup d (e ∷ ds) k h = lookup-swap d e ds k (lookup-head d e ds h).0

lookup-other :
    (d e : BootDeadline) (ds : List BootDeadline)
    → (e.id == d.id) ≡ false
    → lookup ds e.id ≡ none
    → lookup (d ∷ ds) e.id ≡ none
unfolding lookup
lookup-other d e ds n h = ground arith

insert_second-IsUnique :
    (d : BootDeadline) (ds : List BootDeadline)
    → lookup ds d.id ≡ none
    → IsUnique ds
    → IsUnique (insert_second d ds)
insert_second-IsUnique d [] h u = (h, tt)
insert_second-IsUnique d (e ∷ ds) h u =
    let l = lookup-head d e ds h in (lookup-other d e ds l.0 u.0, (l.1, u.1))

-- The last element in front: the same deadlines, and still one for each component.
last_first-lookup :
    (d : BootDeadline) (ds : List BootDeadline)
    → IsUnique (d ∷ ds)
    → ((k : ℕ) → lookup (last_first d ds) k ≡ lookup (d ∷ ds) k) × IsUnique (last_first d ds)
last_first-lookup d [] u = (λ k. refl, u)
last_first-lookup d (e ∷ ds) u =
    let (same, unique) = last_first-lookup e ds u.1 in
    let fresh = same d.id ∙ u.0 in
    (
      λ k.
          insert_second-lookup d (last_first e ds) k fresh
          ∙ lookup-cons d (last_first e ds) (e ∷ ds) k (same k),
      insert_second-IsUnique d (last_first e ds) fresh unique,
    )

removed-head :
    (d : BootDeadline) (ds : List BootDeadline) (k : ℕ)
    → lookup ds d.id ≡ none
    → lookup ds k ≡ (if d.id == k then none else lookup (d ∷ ds) k)
unfolding lookup
removed-head d ds k h = elim (Bool-cases (d.id == k)) [
  | inl y ↦ rw y (sym (ap (lookup ds) ((==_iff d.id k).0 y)) ∙ h)
  | inr n ↦ rw n refl
]

get_elem?-lookup :
    (ds : List BootDeadline) (i : ℕ) (d : BootDeadline)
    → get_elem? ds i ≡ some d
    → lookup ds d.id ≡ none
    → ⊥
unfolding lookup
get_elem?-lookup [] i d h n = cc
get_elem?-lookup (e ∷ ds) zero d h n = some_is_not_none (
    sym (
      subst (λ d. lookup (e ∷ ds) d.id ≡ some e.at) (some-injective _ _ h) (rw (==_refl e.id) refl))
    ∙ n)
  where
    some_is_not_none : some e.at ≡ none → ⊥
    some_is_not_none q = cc
get_elem?-lookup (e ∷ ds) (suc i) d h n = get_elem?-lookup ds i d h (lookup-head d e ds n).1

get_elem?-distinct :
    (e d : BootDeadline) (ds : List BootDeadline) (i : ℕ)
    → lookup ds e.id ≡ none
    → get_elem? ds i ≡ some d
    → (e.id == d.id) ≡ false
get_elem?-distinct e d ds i n h = elim (Bool-cases (e.id == d.id)) [
  | inl y ↦ absurd (get_elem?-lookup ds i d h (sym (ap (lookup ds) ((==_iff e.id d.id).0 y)) ∙ n))
  | inr f ↦ f
]

removed-behind :
    (e d : BootDeadline) (xs ds : List BootDeadline) (k : ℕ)
    → (e.id == d.id) ≡ false
    → lookup xs k ≡ (if d.id == k then none else lookup ds k)
    → lookup (e ∷ xs) k ≡ (if d.id == k then none else lookup (e ∷ ds) k)
unfolding lookup
removed-behind e d xs ds k n h = elim (Bool-cases (d.id == k)) [
  | inl y ↦
      let m : (e.id == k) ≡ false = ap (λ j. e.id == j) (sym ((==_iff d.id k).0 y)) ∙ n in
      rw (y, m) (subst (λ b. lookup xs k ≡ (if b then none else lookup ds k)) y h)
  | inr f ↦ rw f (
      ap (λ later. if e.id == k then some e.at else later)
        (subst (λ b. lookup xs k ≡ (if b then none else lookup ds k)) f h))
]

none_either : (b : Bool) (o : Option ℕ) → o ≡ none → (if b then none else o) ≡ none
none_either true o h = refl
none_either false o h = h

-- `ds'` is `ds` without the watchdog of `id`.
abbrev pub IsWithout : ℕ → List BootDeadline → List BootDeadline → Type 0
IsWithout id ds ds' =
    ((k : ℕ) → lookup ds' k ≡ (if id == k then none else lookup ds k)) × IsUnique ds'

length-insert_second :
    (d : BootDeadline) (ds : List BootDeadline) → length (insert_second d ds) ≡ suc (length ds)
length-insert_second d [] = refl
length-insert_second d (e ∷ ds) = refl

length-last_first :
    (d : BootDeadline) (ds : List BootDeadline) → length (last_first d ds) ≡ suc (length ds)
length-last_first d [] = refl
length-last_first d (e ∷ ds) =
    omega (arith, length-insert_second d (last_first e ds), length-last_first e ds)

-- What is left when the element at `i` is removed.
pub swap_remove-IsWithout :
    (ds : List BootDeadline) (i : ℕ) (d : BootDeadline)
    → IsUnique ds
    → get_elem? ds i ≡ some d
    → IsWithout d.id ds (swap_remove ds i)
swap_remove-IsWithout [] i d u h = absurd (none_is_not_some h)
  where
    none_is_not_some : none ≡ some d → ⊥
    none_is_not_some e = cc
swap_remove-IsWithout (e ∷ []) zero d u h =
    subst (λ d. IsWithout d.id (e ∷ []) []) (some-injective _ _ h)
      ((λ k. removed-head e [] k u.0), tt)
swap_remove-IsWithout (e ∷ f ∷ ds) zero d u h =
    let (same, unique) = last_first-lookup f ds u.1 in
    subst (λ d. IsWithout d.id (e ∷ f ∷ ds) (last_first f ds)) (some-injective _ _ h)
      ((λ k. same k ∙ removed-head e (f ∷ ds) k u.0), unique)
swap_remove-IsWithout (e ∷ ds) (suc i) d u h =
    let (same, unique) = swap_remove-IsWithout ds i d u.1 h in
    (
      λ k. removed-behind e d (swap_remove ds i) ds k (get_elem?-distinct e d ds i u.0 h) (same k),
      (same e.id ∙ none_either (d.id == e.id) (lookup ds e.id) u.0, unique),
    )

pub length-swap_remove : (ds : List BootDeadline) (i : ℕ) → length (swap_remove ds i) ≤ length ds
length-swap_remove [] i = omega arith
length-swap_remove (d ∷ []) zero = omega arith
length-swap_remove (d ∷ e ∷ ds) zero = omega (arith, length-last_first e ds)
length-swap_remove (d ∷ ds) (suc i) = omega (arith, length-swap_remove ds i)

pub get_elem?-deadline :
    (ds : List BootDeadline) (i : ℕ) (d : BootDeadline)
    → IsUnique ds
    → get_elem? ds i ≡ some d
    → lookup ds d.id ≡ some d.at
unfolding lookup
get_elem?-deadline [] i d u h = cc
get_elem?-deadline (e ∷ ds) zero d u h =
    subst (λ d. lookup (e ∷ ds) d.id ≡ some d.at) (some-injective _ _ h) (rw (==_refl e.id) refl)
get_elem?-deadline (e ∷ ds) (suc i) d u h =
    rw (get_elem?-distinct e d ds i u.0 h) (get_elem?-deadline ds i d u.1 h)

pub suc-length-swap_remove :
    (ds : List BootDeadline) (i : ℕ) (d : BootDeadline)
    → get_elem? ds i ≡ some d
    → suc (length (swap_remove ds i)) ≡ length ds
suc-length-swap_remove [] i d h = cc
suc-length-swap_remove (e ∷ []) zero d h = refl
suc-length-swap_remove (e ∷ f ∷ ds) zero d h = ap suc (length-last_first f ds)
suc-length-swap_remove (e ∷ ds) (suc i) d h = ap suc (suc-length-swap_remove ds i d h)

abbrev pub one_if_some : Option ℕ → ℕ
one_if_some none = 0
one_if_some (some c) = 1

-- How many watchdogs are armed.
abbrev pub armed_count : TimerManager → ℕ
armed_count tm = length tm.boot + one_if_some tm.commit
