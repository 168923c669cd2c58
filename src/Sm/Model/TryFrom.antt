-- ===== src/Sm/Model/TryFrom.antt =====
-- `Chain::try_from` (services/orchestrator/sm/src/model.rs) accepts the valid chains and no others.
use native.Mathlib.Nat.{zero-add, add-suc, suc-add, add-zero}
use openprot.Prelude.{
  ℕ, zero, suc, ◌+◌, ◌≡◌, ◌↔◌, refl, ap, subst, false, ◌||◌, none, some, List, [], ◌∷◌, ◌++◌, arith,
  get_elem?, ◌==◌, Option-cases, inl, inr, some-injective, All, ok,
}
use openprot.Sm.Model.{
  ComponentId, ComponentAttrs, Entry, Chain, position, any_id, find_duplicate, check_dependency,
  find_bad_dependency, try_from,
}
use openprot.Sm.Model.Valid.{IsUnique, DependsEarlier, IsValidChain}

any_id-append :
    (before : List Entry) (e : Entry) (id : ComponentId)
    → any_id (before ++ e ∷ []) id ≡ (any_id before id || e.0 == id)
unfolding any_id
any_id-append [] e id = ground arith
any_id-append (x ∷ before) e id = ground (arith, any_id-append before e id)

-- None of the entries has an id of `before`.
abbrev IsFresh : List Entry → List Entry → Type 0
IsFresh before rest = All (λ e. any_id before e.0 ≡ false) rest

IsFresh-split :
    (before : List Entry) (e : Entry) (rest : List Entry)
    → IsFresh (before ++ e ∷ []) rest
    → IsFresh before rest × (any_id rest e.0 ≡ false)
unfolding any_id
IsFresh-split before e [] h = (tt, refl)
IsFresh-split before e (x ∷ rest) h =
    let (f, a) = IsFresh-split before e rest h.1 in
    ((ground (arith, any_id-append before e x.0), f), ground (arith, any_id-append before e x.0))

IsFresh-join :
    (before : List Entry) (e : Entry) (rest : List Entry)
    → IsFresh before rest
    → any_id rest e.0 ≡ false
    → IsFresh (before ++ e ∷ []) rest
unfolding any_id
IsFresh-join before e [] f a = tt
IsFresh-join before e (x ∷ rest) f a =
    (ground (arith, any_id-append before e x.0), IsFresh-join before e rest f.1 (ground arith))

find_duplicate-none :
    (before rest : List Entry)
    → find_duplicate before rest ≡ none
    → IsFresh before rest × IsUnique rest
unfolding find_duplicate
find_duplicate-none before [] h = (tt, tt)
find_duplicate-none before ((id, attrs) ∷ rest) h =
    let fresh : any_id before id ≡ false = ground arith in
    let (f, u) = find_duplicate-none (before ++ (id, attrs) ∷ []) rest (ground arith) in
    let (g, a) = IsFresh-split before (id, attrs) rest f in ((fresh, g), (a, u))

find_duplicate_unique :
    (before rest : List Entry)
    → IsFresh before rest
    → IsUnique rest
    → find_duplicate before rest ≡ none
unfolding find_duplicate
find_duplicate_unique before [] f u = refl
find_duplicate_unique before ((id, attrs) ∷ rest) f u = ground (
  arith,
  find_duplicate_unique (before ++ (id, attrs) ∷ []) rest
      (IsFresh-join before (id, attrs) rest f.1 u.0) u.1,
)

check_dependency-none :
    (entries : List Entry) (i : ℕ) (id : ComponentId) (attrs : ComponentAttrs)
    → check_dependency entries i id attrs.depends_on ≡ none
    → DependsEarlier entries i attrs
unfolding check_dependency
check_dependency-none entries i id attrs h dep e = elim (Option-cases (position entries dep)) [
  | inl n ↦ absurd (ground arith)
  | inr (j, p) ↦ (j, p, ground arith)
]

check_dependency-earlier :
    (entries : List Entry) (i : ℕ) (id : ComponentId) (attrs : ComponentAttrs)
    → DependsEarlier entries i attrs
    → check_dependency entries i id attrs.depends_on ≡ none
unfolding check_dependency
check_dependency-earlier entries i id attrs h = elim (Option-cases attrs.depends_on) [
  | inl e ↦ ground arith
  | inr (dep, e) ↦ let (j, p, lt) = h dep e in ground arith
]

IsFresh-nil : (rest : List Entry) → IsFresh [] rest
unfolding any_id
IsFresh-nil [] = tt
IsFresh-nil (e ∷ rest) = (refl, IsFresh-nil rest)

-- The entries from index `i` on have their dependencies behind them.
abbrev IsOrderedFrom : List Entry → ℕ → List Entry → Type 0
IsOrderedFrom entries i rest =
    (k : ℕ) (id : ComponentId) (attrs : ComponentAttrs)
    → get_elem? rest k ≡ some (id, attrs)
    → DependsEarlier entries (i + k) attrs

find_bad-none :
    (entries : List Entry) (i : ℕ) (rest : List Entry)
    → find_bad_dependency entries i rest ≡ none
    → IsOrderedFrom entries i rest
unfolding find_bad_dependency
find_bad-none entries i [] h k id attrs g = cc
find_bad-none entries i ((cid, a) ∷ rest) h zero id attrs g =
    subst (DependsEarlier entries (i + 0)) (ap (λ (e : Entry). e.1) (some-injective _ _ g))
      (rw (add-zero i) (check_dependency-none entries i cid a (ground arith)))
find_bad-none entries i ((cid, a) ∷ rest) h (suc k) id attrs g =
    rw (add-suc i k, ← suc-add i k) (find_bad-none entries (suc i) rest (ground arith) k id attrs g)

find_bad-ordered :
    (entries : List Entry) (i : ℕ) (rest : List Entry)
    → IsOrderedFrom entries i rest
    → find_bad_dependency entries i rest ≡ none
unfolding find_bad_dependency
find_bad-ordered entries i [] h = refl
find_bad-ordered entries i ((cid, a) ∷ rest) h =
    let first : check_dependency entries i cid a.depends_on ≡ none =
      check_dependency-earlier entries i cid a
        (subst (λ n. DependsEarlier entries n a) (add-zero i) (h 0 cid a refl)) in
    let rest_ok : find_bad_dependency entries (suc i) rest ≡ none =
      find_bad-ordered entries (suc i) rest
        (λ k id attrs g. rw (suc-add i k, ← add-suc i k) (h (suc k) id attrs g)) in
    ground arith

-- `try_from` returns the chain of the given entries exactly if these are at least one and at most
-- 255, no id stands twice, and whatever an entry depends on stands before it.
pub try_from-IsValidChain :
    (entries : List Entry)
    → (try_from entries ≡ ok (record { entries = entries })) ↔ IsValidChain entries
unfolding try_from
try_from-IsValidChain [] = (λ h. cc, λ v. absurd (omega (arith, v.nonempty)))
try_from-IsValidChain (e ∷ rest) = (sound, complete)
  where
    all : List Entry
    all = e ∷ rest

    sound : try_from all ≡ ok (record { entries = all }) → IsValidChain all
    sound h = record {
      nonempty = omega arith;
      indexable = ground arith;
      unique = (find_duplicate-none [] all (ground arith)).1;
      ordered = λ i id attrs g.
          subst (λ n. DependsEarlier all n attrs) (zero-add i)
            (find_bad-none all 0 all (ground arith) i id attrs g);
    }

    complete : IsValidChain all → try_from all ≡ ok (record { entries = all })
    complete v = ground (
      arith,
      find_duplicate_unique [] all (IsFresh-nil all) v.unique,
      find_bad-ordered all 0 all (λ k id attrs g. rw (zero-add k) (v.ordered k id attrs g)),
      v.indexable,
    )

-- Nothing else is ever returned as a chain.
pub try_from-entries :
    (entries : List Entry) (chain : Chain) → try_from entries ≡ ok chain → chain.entries ≡ entries
unfolding try_from
try_from-entries [] chain h = cc
try_from-entries (e ∷ rest) chain h = ground arith
