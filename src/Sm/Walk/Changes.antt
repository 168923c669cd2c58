-- ===== src/Sm/Walk/Changes.antt =====
-- The small writes of the handlers (services/orchestrator/sm/src/lib.rs) and their effects.
use openprot.Prelude.{
  ap, ap, ap, ap, ap, ap, ℕ, ◌≡◌, refl, ap, sym, ◌∙◌, false, Option, none, some, [], ◌∷◌, arith,
  if◌then◌else◌, ◌==◌,
}
use openprot.Sm.Model.{ComponentId, release_reset, recover_component}
use openprot.Sm.Rot.{
  Rot, ComponentStatus, is_gated, status_of, lookup_status, change_status, update_status,
  mark_released, clear_awaiting_boot, release_status, booted_status,
}
use openprot.Sm.Handlers.{held_status}
use openprot.Sm.Rot.Statuses.{
  map_status, lookup-change_status, change_status_twice, length-change_status,
}
use openprot.Sm.Rot.Soundness.{IsSound, IsCoherent, All-change_status, All-change_at}
use openprot.Sm.Lifecycle.{held, phase, replay}
use openprot.Sm.Walk.{Evolves}

-- A write that a component's phase does not show.
pub record IsSilent (f : ComponentStatus → ComponentStatus) : Type 0 where
  pub same_phase : (s : ComponentStatus) → phase (some (f s)) ≡ phase (some s)
  pub coherent : (s : ComponentStatus) → IsCoherent s → IsCoherent (f s)

pub update-phase :
    (f : ComponentStatus → ComponentStatus) (id j : ComponentId) (r : Rot)
    → IsSilent f
    → phase (status_of (update_status id f r) j) ≡ phase (status_of r j)
update-phase f id j r h =
    rw (lookup-change_status r.chain r.statuses id f j) (at (lookup_status r.chain r.statuses j))
  where
    at : (o : Option ComponentStatus) → phase (if id == j then map_status f o else o) ≡ phase o
    at none = ground arith
    at (some s) = ground (arith, h.same_phase s)

pub update-Evolves :
    (f : ComponentStatus → ComponentStatus) (id : ComponentId) (r : Rot)
    → IsSilent f
    → IsSound r
    → Evolves r [] (update_status id f r)
unfolding replay
update-Evolves f id r h v = record {
  framed = record {
    chain_kept = refl;
    capacity_kept = refl;
    effect_capacity_kept = refl;
    max_retry_kept = refl;
  };
  sound = record {
    parallel = length-change_status r.chain r.statuses id f ∙ v.parallel;
    coherent = All-change_status IsCoherent r.chain r.statuses id f h.coherent v.coherent;
  };
  refines = λ j. ap some (sym (update-phase f id j r h));
}

-- A component that is held is released: it runs, and owes a boot signal.
pub release-Evolves :
    (id : ComponentId) (r : Rot)
    → IsSound r
    → phase (status_of r id) ≡ held
    → (s : ComponentStatus) → status_of r id ≡ some s
    → Evolves r (release_reset id ∷ []) (mark_released id r)
unfolding replay
release-Evolves id r v h s e = record {
  framed = record {
    chain_kept = refl;
    capacity_kept = refl;
    effect_capacity_kept = refl;
    max_retry_kept = refl;
  };
  sound = record {
    parallel = length-change_status r.chain r.statuses id release_status ∙ v.parallel;
    coherent =
        All-change_at IsCoherent r.chain r.statuses id release_status (λ t p. ground arith)
          v.coherent;
  };
  refines = λ j. ground (arith, lookup-change_status r.chain r.statuses id release_status j);
}

abbrev pub recovered : ComponentId → Rot → Rot
recovered id r =
    update_status id held_status (clear_awaiting_boot id (record r { pending_commit = false }))

-- A component that is in service is held while it is restored.
pub recover-Evolves :
    (id : ComponentId) (attempt : ℕ) (r : Rot)
    → IsSound r
    → is_gated r id ≡ false
    → Evolves r (recover_component id attempt ∷ []) (recovered id r)
unfolding replay
recover-Evolves id attempt r v n = record {
  framed = record {
    chain_kept = refl;
    capacity_kept = refl;
    effect_capacity_kept = refl;
    max_retry_kept = refl;
  };
  sound = record {
    parallel =
        length-change_status r.chain _ id held_status
        ∙ length-change_status r.chain r.statuses id booted_status
        ∙ v.parallel;
    coherent = rw (change_status_twice r.chain r.statuses id booted_status held_status) (
        All-change_status IsCoherent r.chain r.statuses id (λ s. held_status (booted_status s))
          (λ s c. ground arith) v.coherent);
  };
  refines = λ j. ground (
    arith,
    lookup-change_status r.chain (change_status r.chain r.statuses id booted_status) id held_status
        j,
    lookup-change_status r.chain r.statuses id booted_status j,
  );
}
