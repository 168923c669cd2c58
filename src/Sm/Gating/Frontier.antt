-- ===== src/Sm/Gating/Frontier.antt =====
-- The work list of `cascade_hold` (services/orchestrator/sm/src/lib.rs): it never overflows, since
-- it covers as many entries of the chain as it is long.
use openprot.Prelude.{
  Bool-cases, inl, inr, subst, some-injective, ℕ, zero, suc, ◌+◌, ◌≤◌, ◌≡◌, refl, sym, ◌∙◌, true,
  not, ◌&&◌, ◌||◌, some, List, [], ◌∷◌, ◌++◌, arith, length, get_elem?, if◌then◌else◌,
  length-append, append-nil, append_assoc, ◌==◌, All, contains, push_within, is_some_of, take,
}
use openprot.Sm.Model.{ComponentId, Entry, position}
use openprot.Sm.Rot.Soundness.{IsMember}
use openprot.Sm.Gating.{collect_dependents}

-- The components that depend on `holder` and are not on the frontier, with no limit.
unfoldable pub dependents : ComponentId → List ComponentId → List Entry → List ComponentId
dependents holder frontier [] = []
dependents holder frontier ((id, attrs) ∷ chain) =
    let rest = dependents holder frontier chain in
    if is_some_of holder attrs.depends_on && not (contains frontier id) then id ∷ rest else rest

length-dependents-le :
    (holder : ComponentId) (frontier : List ComponentId) (chain : List Entry)
    → length (dependents holder frontier chain) ≤ length chain
unfolding dependents
length-dependents-le holder frontier [] = omega arith
length-dependents-le holder frontier (e ∷ chain) =
    ground (arith, length-dependents-le holder frontier chain)

pub push_within_fits :
    (n : ℕ) (xs : List ComponentId) (x : ComponentId)
    → suc (length xs) ≤ n
    → push_within n xs x ≡ xs ++ x ∷ []
push_within_fits n xs x h = ground arith

collect-append :
    (n : ℕ) (holder : ComponentId) (frontier : List ComponentId) (chain : List Entry)
    (found : List ComponentId)
    → length found + length (dependents holder frontier chain) ≤ n
    → collect_dependents n holder frontier chain found ≡ found ++ dependents holder frontier chain
unfolding collect_dependents dependents
collect-append n holder frontier [] found h = sym (append-nil found)
collect-append n holder frontier ((id, attrs) ∷ chain) found h =
    elim (Bool-cases (is_some_of holder attrs.depends_on && not (contains frontier id))) [
      | inl e ↦
          rw (e, push_within_fits n found id (ground arith))
            (collect-append n holder frontier chain (found ++ id ∷ [])
                (ground (arith, length-append found (id ∷ [])))
              ∙ ground (arith, append_assoc found (id ∷ []) (dependents holder frontier chain)))
      | inr e ↦ ground (arith, collect-append n holder frontier chain found)
    ]

-- Within the capacity of the chain no dependent is lost.
pub collect_lem :
    (n : ℕ) (holder : ComponentId) (frontier : List ComponentId) (chain : List Entry)
    → length chain ≤ n
    → collect_dependents n holder frontier chain [] ≡ dependents holder frontier chain
collect_lem n holder frontier chain h =
    collect-append n holder frontier chain []
      (omega (arith, length-dependents-le holder frontier chain))

pub contains-append :
    (xs ys : List ComponentId) (id : ComponentId)
    → contains (xs ++ ys) id ≡ (contains xs id || contains ys id)
contains-append [] ys id = refl
contains-append (x ∷ xs) ys id = ground (arith, contains-append xs ys id)

-- How many entries of the chain have their id in a list.
pub covered : List Entry → List ComponentId → ℕ
covered [] ids = 0
covered ((id, attrs) ∷ chain) ids =
    let n = covered chain ids in if contains ids id then suc n else n

pub covered-le : (chain : List Entry) (ids : List ComponentId) → covered chain ids ≤ length chain
unfolding covered
covered-le [] ids = omega arith
covered-le (e ∷ chain) ids = ground (arith, covered-le chain ids)

pub covered-member :
    (chain : List Entry) (id : ComponentId) → IsMember chain id → 1 ≤ covered chain (id ∷ [])
unfolding covered position
covered-member [] id (i, e) = cc
covered-member ((cid, attrs) ∷ chain) id (zero, e) = ground arith
covered-member ((cid, attrs) ∷ chain) id (suc i, e) =
    ground (arith, λ (p : position chain id ≡ some i). covered-member chain id (i, p))

-- The dependents of a holder are new on the frontier, each for an entry of its own.
pub covered-dependents :
    (holder : ComponentId) (chain : List Entry) (frontier new : List ComponentId)
    → All (λ id. contains new id ≡ true) (dependents holder frontier chain)
    → covered chain frontier + length (dependents holder frontier chain)
      ≤ covered chain (frontier ++ new)
unfolding covered dependents
covered-dependents holder [] frontier new h = omega arith
covered-dependents holder ((id, attrs) ∷ chain) frontier new h =
    ground (arith, covered-dependents holder chain frontier new, contains-append frontier new id)

All-contains_cons :
    (xs : List ComponentId) (x : ComponentId) (ys : List ComponentId)
    → All (λ id. contains xs id ≡ true) ys
    → All (λ id. contains (x ∷ xs) id ≡ true) ys
All-contains_cons xs x [] h = tt
All-contains_cons xs x (y ∷ ys) h = (ground arith, All-contains_cons xs x ys h.1)

pub All-contains : (xs : List ComponentId) → All (λ id. contains xs id ≡ true) xs
All-contains [] = tt
All-contains (x ∷ xs) = (ground arith, All-contains_cons xs x xs (All-contains xs))

pub All-contains_elim {κ} :
    (P : ComponentId → Type κ) (xs : List ComponentId) (id : ComponentId)
    → All P xs
    → contains xs id ≡ true
    → P id
All-contains_elim P [] id h c = cc
All-contains_elim P (x ∷ xs) id h c = elim (Bool-cases (x == id)) [
  | inl e ↦ subst P (ground arith) h.0
  | inr e ↦ All-contains_elim P xs id h.1 (ground arith)
]

pub All-join {κ} :
    (P : ComponentId → Type κ) (xs ys : List ComponentId) → All P xs → All P ys → All P (xs ++ ys)
All-join P [] ys h k = k
All-join P (x ∷ xs) ys h k = (h.0, All-join P xs ys h.1 k)

pub All-weaken {κ} :
    (P Q : ComponentId → Type κ) (xs : List ComponentId)
    → ((id : ComponentId) → P id → Q id)
    → All P xs
    → All Q xs
All-weaken P Q [] f h = tt
All-weaken P Q (x ∷ xs) f h = (f x h.0, All-weaken P Q xs f h.1)

-- The part of the frontier that the loop has been through grows by one.
pub All-take-suc {κ} :
    (P : ComponentId → Type κ) (i : ℕ) (xs ys : List ComponentId) (x : ComponentId)
    → get_elem? xs i ≡ some x
    → All P (take i xs)
    → P x
    → All P (take (suc i) (xs ++ ys))
All-take-suc P i [] ys x e h p = cc
All-take-suc P zero (y ∷ xs) ys x e h p = (subst P (sym (some-injective _ _ e)) p, tt)
All-take-suc P (suc i) (y ∷ xs) ys x e h p = (h.0, All-take-suc P i xs ys x e h.1 p)
