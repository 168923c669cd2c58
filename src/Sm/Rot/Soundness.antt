-- ===== src/Sm/Rot/Soundness.antt =====
-- Well-formed status tables of services/orchestrator/sm/src/lib.rs, and how many components are in
-- service.
use openprot.Prelude.{
  All-get_elem?, ℕ, zero, suc, ◌≤◌, ◌≡◌, refl, true, false, some, List, [], ◌∷◌, map, arith, length,
  get_elem?, modify, if◌then◌else◌, Option-cases, inl, inr, ◌<◌, All,
}
use openprot.Sm.Model.{ComponentId, Entry, position}
use openprot.Sm.Rot.{
  ComponentStatus, Rot, is_isolated, status_of, lookup_status, change_status, gate_status,
}
use openprot.Sm.Rot.Statuses.{position-lt}

-- A gated component is neither released nor owes a boot signal, and only a released one owes one.
pub record IsCoherent (s : ComponentStatus) : Type 0 where
  pub gated_held : is_isolated s.lifecycle ≡ true → s.released ≡ false
  pub awaiting_live : s.awaiting_boot ≡ true → s.released ≡ true

pub record IsSound (r : Rot) : Type 0 where
  pub parallel : length r.statuses ≡ length r.chain
  pub coherent : All IsCoherent r.statuses

abbrev pub IsMember : List Entry → ComponentId → Type 0
IsMember chain id = (i : ℕ) × (position chain id ≡ some i)

get_elem?-some :
    (ss : List ComponentStatus) (i : ℕ)
    → i < length ss
    → (s : ComponentStatus) × (get_elem? ss i ≡ some s)
get_elem?-some [] i h = absurd (omega arith)
get_elem?-some (s ∷ ss) zero h = (s, refl)
get_elem?-some (s ∷ ss) (suc i) h = get_elem?-some ss i (omega arith)

-- Every component of the chain has a status.
pub status_of-some :
    (r : Rot) (id : ComponentId)
    → IsSound r
    → IsMember r.chain id
    → (s : ComponentStatus) × (status_of r id ≡ some s)
unfolding lookup_status
status_of-some r id v (i, e) =
    let (s, h) =
      get_elem?-some r.statuses i (omega (arith, v.parallel, position-lt r.chain id i e)) in
    (s, rw (e, lookup_status) h)

pub All-modify {κ} :
    (P : ComponentStatus → Type κ) (ss : List ComponentStatus) (i : ℕ)
    (f : ComponentStatus → ComponentStatus)
    → ((s : ComponentStatus) → P s → P (f s))
    → All P ss
    → All P (modify ss i f)
All-modify P [] i f keep h = h
All-modify P (s ∷ ss) zero f keep h = (keep s h.0, h.1)
All-modify P (s ∷ ss) (suc i) f keep h = (h.0, All-modify P ss i f keep h.1)

pub All-map {κ} :
    (P : ComponentStatus → Type κ) (ss : List ComponentStatus)
    (f : ComponentStatus → ComponentStatus)
    → ((s : ComponentStatus) → P s → P (f s))
    → All P ss
    → All P (map f ss)
All-map P [] f keep h = h
All-map P (s ∷ ss) f keep h = (keep s h.0, All-map P ss f keep h.1)

pub All-change_status {κ} :
    (P : ComponentStatus → Type κ) (chain : List Entry) (ss : List ComponentStatus)
    (id : ComponentId) (f : ComponentStatus → ComponentStatus)
    → ((s : ComponentStatus) → P s → P (f s))
    → All P ss
    → All P (change_status chain ss id f)
unfolding change_status
All-change_status P chain ss id f keep h = elim (Option-cases (position chain id)) [
  | inl e ↦ rw (e, change_status) h
  | inr (i, e) ↦ rw (e, change_status) (All-modify P ss i f keep h)
]

All-modify_at {κ} :
    (P : ComponentStatus → Type κ) (ss : List ComponentStatus) (i : ℕ)
    (f : ComponentStatus → ComponentStatus)
    → ((s : ComponentStatus) → get_elem? ss i ≡ some s → P (f s))
    → All P ss
    → All P (modify ss i f)
All-modify_at P [] i f new h = h
All-modify_at P (s ∷ ss) zero f new h = (new s refl, h.1)
All-modify_at P (s ∷ ss) (suc i) f new h = (h.0, All-modify_at P ss i f new h.1)

-- The same for a write that depends on the status that it finds.
pub All-change_at {κ} :
    (P : ComponentStatus → Type κ) (chain : List Entry) (ss : List ComponentStatus)
    (id : ComponentId) (f : ComponentStatus → ComponentStatus)
    → ((s : ComponentStatus) → lookup_status chain ss id ≡ some s → P (f s))
    → All P ss
    → All P (change_status chain ss id f)
unfolding lookup_status change_status
All-change_at P chain ss id f new h = elim (Option-cases (position chain id)) [
  | inl e ↦ rw (e, change_status) h
  | inr (i, e) ↦
      rw (e, change_status) (All-modify_at P ss i f (λ s g. new s (rw (e, lookup_status) g)) h)
]

pub All-lookup {κ} :
    (P : ComponentStatus → Type κ) (chain : List Entry) (ss : List ComponentStatus)
    (id : ComponentId) (s : ComponentStatus)
    → All P ss
    → lookup_status chain ss id ≡ some s
    → P s
unfolding lookup_status
All-lookup P chain ss id s h e = elim (Option-cases (position chain id)) [
  | inl n ↦ absurd (ground arith)
  | inr (i, k) ↦ All-get_elem? P ss i s h (ground arith)
]

-- How many components are not isolated, and how many run.
abbrev pub in_service : List ComponentStatus → ℕ
in_service [] = 0
in_service (s ∷ ss) = let n = in_service ss in if is_isolated s.lifecycle then n else suc n

abbrev pub running : List ComponentStatus → ℕ
running [] = 0
running (s ∷ ss) = let n = running ss in if s.released then suc n else n

pub in_service-le-length : (ss : List ComponentStatus) → in_service ss ≤ length ss
in_service-le-length [] = omega arith
in_service-le-length (s ∷ ss) = ground (arith, in_service-le-length ss)

pub running-le-in_service :
    (ss : List ComponentStatus) → All IsCoherent ss → running ss ≤ in_service ss
running-le-in_service [] h = omega arith
running-le-in_service (s ∷ ss) h = ground (arith, running-le-in_service ss h.1, h.0.gated_held)

in_service-modify :
    (ss : List ComponentStatus) (i : ℕ) (s : ComponentStatus)
    → get_elem? ss i ≡ some s
    → is_isolated s.lifecycle ≡ false
    → suc (in_service (modify ss i gate_status)) ≡ in_service ss
in_service-modify [] i s e h = cc
in_service-modify (x ∷ ss) zero s e h = ground arith
in_service-modify (x ∷ ss) (suc i) s e h = ground (arith, in_service-modify ss i s)

-- Gating a component that is in service takes one out.
pub in_service-gate :
    (chain : List Entry) (ss : List ComponentStatus) (id : ComponentId) (s : ComponentStatus)
    → lookup_status chain ss id ≡ some s
    → is_isolated s.lifecycle ≡ false
    → suc (in_service (change_status chain ss id gate_status)) ≡ in_service ss
unfolding lookup_status change_status
in_service-gate chain ss id s e h = elim (Option-cases (position chain id)) [
  | inl n ↦ absurd (ground arith)
  | inr (i, k) ↦ ground (arith, in_service-modify ss i s)
]

-- A write that leaves the lifecycle alone leaves the number alone.
in_service-modify_other :
    (ss : List ComponentStatus) (i : ℕ) (f : ComponentStatus → ComponentStatus)
    → ((s : ComponentStatus) → is_isolated (f s).lifecycle ≡ is_isolated s.lifecycle)
    → in_service (modify ss i f) ≡ in_service ss
in_service-modify_other [] i f h = refl
in_service-modify_other (s ∷ ss) zero f h = rw (h s)
in_service-modify_other (s ∷ ss) (suc i) f h = rw (in_service-modify_other ss i f h)

pub in_service-change :
    (chain : List Entry) (ss : List ComponentStatus) (id : ComponentId)
    (f : ComponentStatus → ComponentStatus)
    → ((s : ComponentStatus) → is_isolated (f s).lifecycle ≡ is_isolated s.lifecycle)
    → in_service (change_status chain ss id f) ≡ in_service ss
unfolding change_status
in_service-change chain ss id f h = elim (Option-cases (position chain id)) [
  | inl e ↦ rw (e, change_status)
  | inr (i, e) ↦ rw (e, change_status) (in_service-modify_other ss i f h)
]
