-- ===== src/Sm/Model/Valid.antt =====
-- What a `Chain` of services/orchestrator/sm/src/model.rs guarantees, and what it is good for.
use openprot.Prelude.{
  ℕ, zero, suc, ◌≤◌, ◌<◌, ◌≡◌, true, false, some, List, [], ◌∷◌, arith, length, get_elem?, ◌==◌,
  Bool-cases, inl, inr,
}
use openprot.Sm.Model.{ComponentId, ComponentAttrs, Entry, position, any_id}

-- No id stands twice.
abbrev pub IsUnique : List Entry → Type 0
IsUnique [] = Unit
IsUnique ((id, _) ∷ chain) = (any_id chain id ≡ false) × IsUnique chain

-- A dependency of the entry at `i` stands strictly earlier.
abbrev pub DependsEarlier : List Entry → ℕ → ComponentAttrs → Type 0
DependsEarlier chain i attrs =
    (dep : ComponentId)
    → attrs.depends_on ≡ some dep
    → (j : ℕ) × (position chain dep ≡ some j) × (j < i)

pub record IsValidChain (chain : List Entry) : Type 0 where
  pub nonempty : 0 < length chain
  pub indexable : length chain ≤ 255
  pub unique : IsUnique chain
  pub ordered :
      (i : ℕ) (id : ComponentId) (attrs : ComponentAttrs)
      → get_elem? chain i ≡ some (id, attrs)
      → DependsEarlier chain i attrs

any_id-get_elem? :
    (chain : List Entry) (i : ℕ) (id : ComponentId) (attrs : ComponentAttrs)
    → get_elem? chain i ≡ some (id, attrs)
    → any_id chain id ≡ true
unfolding any_id
any_id-get_elem? [] i id attrs h = cc
any_id-get_elem? ((cid, a) ∷ chain) zero id attrs h = ground arith
any_id-get_elem? ((cid, a) ∷ chain) (suc i) id attrs h =
    ground (arith, any_id-get_elem? chain i id attrs h)

-- In a chain without duplicates the entry at `i` is the one that a search finds there.
pub position-get_elem? :
    (chain : List Entry) (i : ℕ) (id : ComponentId) (attrs : ComponentAttrs)
    → IsUnique chain
    → get_elem? chain i ≡ some (id, attrs)
    → position chain id ≡ some i
unfolding position
position-get_elem? [] i id attrs u h = cc
position-get_elem? ((cid, a) ∷ chain) zero id attrs u h = ground arith
position-get_elem? ((cid, a) ∷ chain) (suc i) id attrs u h = elim (Bool-cases (cid == id)) [
  | inl e ↦ absurd (ground (arith, any_id-get_elem? chain i id attrs h))
  | inr e ↦ ground (arith, position-get_elem? chain i id attrs u.1 h)
]
