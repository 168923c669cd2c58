-- ===== src/Sm/Rot/Statuses.antt =====
-- Laws of the status table of services/orchestrator/sm/src/lib.rs: reading one component's status
-- after a write to another's, and after a write to all.
use openprot.Prelude.{
  ap, ℕ, zero, suc, ◌≡◌, refl, Option, none, some, List, [], ◌∷◌, map, ◌==◌, arith, length,
  get_elem?, modify, if◌then◌else◌, length-modify, Option-cases, inl, inr, ◌<◌,
}
use openprot.Sm.Model.{ComponentId, Entry, position}
use openprot.Sm.Rot.{ComponentStatus, lookup_status, change_status}

abbrev pub map_status :
    (ComponentStatus → ComponentStatus) → Option ComponentStatus → Option ComponentStatus
map_status f none = none
map_status f (some s) = some (f s)

-- An index is the first place of one component only.
pub position-injective :
    (chain : List Entry) (id j : ComponentId) (i : ℕ)
    → position chain id ≡ some i
    → position chain j ≡ some i
    → id ≡ j
unfolding position
position-injective [] id j i h k = cc
position-injective ((cid, _) ∷ chain) id j zero h k = ground arith
position-injective ((cid, _) ∷ chain) id j (suc i) h k =
    ground (arith, position-injective chain id j i)

pub position-lt :
    (chain : List Entry) (id : ComponentId) (i : ℕ) → position chain id ≡ some i → i < length chain
unfolding position
position-lt [] id i h = cc
position-lt ((cid, _) ∷ chain) id zero h = omega arith
position-lt ((cid, _) ∷ chain) id (suc i) h = ground (arith, position-lt chain id i)

get_elem?-modify :
    (ss : List ComponentStatus) (i k : ℕ) (f : ComponentStatus → ComponentStatus)
    → get_elem? (modify ss i f) k
      ≡ (if i == k then map_status f (get_elem? ss k) else get_elem? ss k)
get_elem?-modify [] i k f = ground arith
get_elem?-modify (s ∷ ss) zero zero f = refl
get_elem?-modify (s ∷ ss) zero (suc k) f = ground arith
get_elem?-modify (s ∷ ss) (suc i) zero f = ground arith
get_elem?-modify (s ∷ ss) (suc i) (suc k) f = ground (arith, get_elem?-modify ss i k f)

pub get_elem?-map :
    (ss : List ComponentStatus) (k : ℕ) (f : ComponentStatus → ComponentStatus)
    → get_elem? (map f ss) k ≡ map_status f (get_elem? ss k)
get_elem?-map [] k f = refl
get_elem?-map (s ∷ ss) zero f = refl
get_elem?-map (s ∷ ss) (suc k) f = get_elem?-map ss k f

-- A write to one component's status is read back there, and nowhere else.
pub lookup-change_status :
    (chain : List Entry) (ss : List ComponentStatus) (id : ComponentId)
    (f : ComponentStatus → ComponentStatus) (j : ComponentId)
    → lookup_status chain (change_status chain ss id f) j
      ≡ (if id == j then map_status f (lookup_status chain ss j) else lookup_status chain ss j)
unfolding lookup_status change_status
lookup-change_status chain ss id f j = elim (Option-cases (position chain id)) [
  | inl e ↦ ground arith
  | inr (i, e) ↦ elim (Option-cases (position chain j)) [
    | inl k ↦ ground arith
    | inr (k, ek) ↦ ground (arith, get_elem?-modify ss i k f, position-injective chain id j i)
  ]
]

pub lookup-map :
    (chain : List Entry) (ss : List ComponentStatus) (f : ComponentStatus → ComponentStatus)
    (j : ComponentId)
    → lookup_status chain (map f ss) j ≡ map_status f (lookup_status chain ss j)
unfolding lookup_status
lookup-map chain ss f j = elim (Option-cases (position chain j)) [
  | inl e ↦ ground arith
  | inr (i, e) ↦ ground (arith, get_elem?-map ss i f)
]

pub length-change_status :
    (chain : List Entry) (ss : List ComponentStatus) (id : ComponentId)
    (f : ComponentStatus → ComponentStatus)
    → length (change_status chain ss id f) ≡ length ss
unfolding change_status
length-change_status chain ss id f = elim (Option-cases (position chain id)) [
  | inl e ↦ ground arith
  | inr (i, e) ↦ ground (arith, length-modify ss i f)
]

modify_twice :
    (ss : List ComponentStatus) (i : ℕ) (f g : ComponentStatus → ComponentStatus)
    → modify (modify ss i f) i g ≡ modify ss i (λ s. g (f s))
modify_twice [] i f g = refl
modify_twice (s ∷ ss) zero f g = refl
modify_twice (s ∷ ss) (suc i) f g = ap (◌∷◌ s) (modify_twice ss i f g)

-- Two writes to one component are one.
pub change_status_twice :
    (chain : List Entry) (ss : List ComponentStatus) (id : ComponentId)
    (f g : ComponentStatus → ComponentStatus)
    → change_status chain (change_status chain ss id f) id g
      ≡ change_status chain ss id (λ s. g (f s))
unfolding change_status
change_status_twice chain ss id f g = elim (Option-cases (position chain id)) [
  | inl e ↦ ground arith
  | inr (i, e) ↦ ground (arith, modify_twice ss i f g)
]
