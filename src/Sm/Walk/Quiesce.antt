-- ===== src/Sm/Walk/Quiesce.antt =====
-- `quiesce_all` (services/orchestrator/sm/src/lib.rs) holds every component that runs.
use openprot.Prelude.{
  suc, ◌≤◌, ◌≡◌, refl, ap, ◌∙◌, false, none, some, List, [], ◌∷◌, arith, length, map, if◌then◌else◌,
  ◌==◌, Bool-cases, inl, inr, All,
}
use openprot.Sm.Model.{ComponentId, Entry, Effect, position, any_id}
use openprot.Sm.Model.Valid.{IsUnique}
use openprot.Sm.Rot.{
  Rot, ComponentStatus, status_of, lookup_status, quiesce_status, quiesce_effects, quiesce_all,
}
use openprot.Sm.Rot.Statuses.{map_status, lookup-map}
use openprot.Sm.Rot.Soundness.{
  IsSound, IsCoherent, All-map, running, in_service, running-le-in_service,
}
use openprot.Sm.Lifecycle.{Phase, held, phase, replay}
use openprot.Sm.Walk.{Evolves, IsDown}

lookup_status-cons :
    (e : Entry) (chain : List Entry) (s : ComponentStatus) (ss : List ComponentStatus)
    (id : ComponentId)
    → lookup_status (e ∷ chain) (s ∷ ss) id
      ≡ (if e.0 == id then some s else lookup_status chain ss id)
unfolding lookup_status position
lookup_status-cons e chain s ss id = ground arith

lookup_status-nil : (chain : List Entry) (id : ComponentId) → lookup_status chain [] id ≡ none
unfolding lookup_status
lookup_status-nil chain id = ground arith

-- A component that is not in the chain is not asked to hold.
quiesce-none :
    (chain : List Entry) (ss : List ComponentStatus) (id : ComponentId) (p : Phase)
    → any_id chain id ≡ false
    → replay id (quiesce_effects chain ss) p ≡ some p
unfolding quiesce_effects replay any_id
quiesce-none [] ss id p u = refl
quiesce-none (e ∷ chain) [] id p u = refl
quiesce-none ((cid, a) ∷ chain) (s ∷ ss) id p u = ground (arith, quiesce-none chain ss id p)

quiesce-Refines :
    (chain : List Entry) (ss : List ComponentStatus) (id : ComponentId)
    → IsUnique chain
    → All IsCoherent ss
    → replay id (quiesce_effects chain ss) (phase (lookup_status chain ss id))
      ≡ some (phase (map_status quiesce_status (lookup_status chain ss id)))
unfolding quiesce_effects replay
quiesce-Refines [] ss id u c = unfold lookup_status position in refl
quiesce-Refines (e ∷ chain) [] id u c = rw (lookup_status-nil (e ∷ chain) id)
quiesce-Refines ((cid, a) ∷ chain) (s ∷ ss) id u c = elim (Bool-cases (cid == id)) [
  | inl e ↦ ground (
    arith,
    lookup_status-cons (cid, a) chain s ss id,
    quiesce-none chain ss id held (ground arith),
    quiesce-none chain ss id (phase (some s)) (ground arith),
    c.0.gated_held,
  )
  | inr e ↦
      ground (arith, lookup_status-cons (cid, a) chain s ss id, quiesce-Refines chain ss id u.1 c.1)
]

quiesce_status-IsCoherent : (s : ComponentStatus) → IsCoherent s → IsCoherent (quiesce_status s)
quiesce_status-IsCoherent s h = ground arith

pub length-map_statuses :
    (ss : List ComponentStatus) (f : ComponentStatus → ComponentStatus)
    → length (map f ss) ≡ length ss
length-map_statuses [] f = refl
length-map_statuses (s ∷ ss) f = ap suc (length-map_statuses ss f)

length-quiesce_effects-le :
    (chain : List Entry) (ss : List ComponentStatus)
    → length (quiesce_effects chain ss) ≤ running ss
unfolding quiesce_effects
length-quiesce_effects-le [] ss = omega arith
length-quiesce_effects-le (e ∷ chain) [] = omega arith
length-quiesce_effects-le ((id, a) ∷ chain) (s ∷ ss) =
    ground (arith, length-quiesce_effects-le chain ss)

in_service-quiesce :
    (ss : List ComponentStatus) → in_service (map quiesce_status ss) ≡ in_service ss
in_service-quiesce [] = refl
in_service-quiesce (s ∷ ss) = ground (arith, in_service-quiesce ss)

-- Every component that runs is held, once; the others are left alone; afterwards none runs.
pub record Quiesces (r : Rot) (es : List Effect) (r' : Rot) : Type 0 where
  pub evolves : Evolves r es r'
  pub down : (id : ComponentId) → IsDown (phase (status_of r' id))
  pub affordable : length es ≤ in_service r.statuses
  pub in_service_kept : in_service r'.statuses ≡ in_service r.statuses
  pub pending_kept : r'.pending_commit ≡ r.pending_commit

pub quiesce_all-Quiesces :
    (r : Rot) → IsSound r → IsUnique r.chain → Quiesces r (quiesce_all r).1 (quiesce_all r).0
unfolding quiesce_all
quiesce_all-Quiesces r v u = record {
  evolves = record {
    framed = record {
      chain_kept = refl;
      capacity_kept = refl;
      effect_capacity_kept = refl;
      max_retry_kept = refl;
    };
    sound = record {
      parallel = length-map_statuses r.statuses quiesce_status ∙ v.parallel;
      coherent = All-map IsCoherent r.statuses quiesce_status quiesce_status-IsCoherent v.coherent;
    };
    refines = λ id.
        rw (lookup-map r.chain r.statuses quiesce_status id)
          (quiesce-Refines r.chain r.statuses id u v.coherent);
  };
  down = λ id. ground (arith, lookup-map r.chain r.statuses quiesce_status id);
  affordable = omega (
    arith,
    length-quiesce_effects-le r.chain r.statuses,
    running-le-in_service r.statuses v.coherent,
  );
  in_service_kept = in_service-quiesce r.statuses;
  pending_kept = refl;
}
