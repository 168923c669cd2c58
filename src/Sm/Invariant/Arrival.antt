-- ===== src/Sm/Invariant/Arrival.antt =====
-- The entry actions establish the invariant of their state (services/orchestrator/sm/src/lib.rs).
use openprot.Prelude.{◌≡◌, refl, ◌∙◌, ap, some, List, [], ◌∷◌, arith, append-nil, map}
use openprot.Sm.Model.{
  ComponentId, Effect, State, power_on_reset, pre_supervision, awaiting_ready, ready, updating,
  recovering, locked, authenticate_update, stage_update, latch_lockdown,
}
use openprot.Sm.Rot.{
  Rot, status_of, status_retry, quiesce_all, advance_to_next_ungated, clear_retry_status,
}
use openprot.Sm.Handlers.{entry_action}
use openprot.Sm.Rot.Statuses.{lookup-map}
use openprot.Sm.Rot.Soundness.{IsSound, IsCoherent, All-map}
use openprot.Sm.Lifecycle.{obey, phase, replay}
use openprot.Sm.Walk.{Evolves, Evolves-refl, Evolves-trans}
use openprot.Sm.Walk.Advance.{advance-Advances}
use openprot.Sm.Walk.Quiesce.{quiesce_all-Quiesces, length-map_statuses}
use openprot.Sm.Walk.Changes.{recovered, recover-Evolves}
use openprot.Sm.Invariant.{IsBased, IsBased-framed, IsWindowShut, StateOk, Enters, neutral-Evolves}
use openprot.Sm.Invariant.Corruption.{clear_retry-IsSilent}

-- The state's entry action, run where a handler has changed to it.
pub record Arrives (state : State) (r : Rot) (res : Rot × List Effect × Unit {0}) : Type 0 where
  pub evolves : Evolves r res.1 res.0
  pub state_ok : StateOk state res.0

pre_supervision-entry :
    (r : Rot)
    → IsBased r
    → IsSound r
    → IsWindowShut r
    → Arrives pre_supervision r (entry_action pre_supervision r)
unfolding entry_action
pre_supervision-entry r b v s =
    let q = quiesce_all-Quiesces r v b.valid.unique in
    let r1 = (quiesce_all r).0 in
    let b1 = IsBased-framed b q.evolves.framed in
    let a =
      advance-Advances 0 r1 q.evolves.sound b1.valid.unique b1.valid.indexable
        (λ id k p le. q.down id) in
    record {
      evolves =
          rw (append-nil (advance_to_next_ungated 0 r1).1) (Evolves-trans _ _ q.evolves a.evolves);
      state_ok = (a.walking, ap (λ (t : Rot). t.pending_commit) a.only_cursor ∙ q.pending_kept ∙ s);
    }

updating-entry : (r : Rot) → IsSound r → Arrives updating r (entry_action updating r)
unfolding entry_action
updating-entry r v =
    let x =
      Evolves-trans (authenticate_update ∷ []) (stage_update ∷ [])
        (neutral-Evolves authenticate_update r (λ j p. unfold obey in refl) v)
        (neutral-Evolves stage_update r (λ j p. unfold obey in refl) v) in
    record {
      evolves = record {
        framed = record {
          chain_kept = refl;
          capacity_kept = refl;
          effect_capacity_kept = refl;
          max_retry_kept = refl;
        };
        sound = record { parallel = v.parallel; coherent = v.coherent };
        refines = x.refines;
      };
      state_ok = refl;
    }

ready-entry : (r : Rot) → IsSound r → Arrives ready r (entry_action ready r)
unfolding entry_action
ready-entry r v = record {
  evolves = record {
    framed = record {
      chain_kept = refl;
      capacity_kept = refl;
      effect_capacity_kept = refl;
      max_retry_kept = refl;
    };
    sound = record {
      parallel = length-map_statuses r.statuses clear_retry_status ∙ v.parallel;
      coherent =
          All-map IsCoherent r.statuses clear_retry_status clear_retry-IsSilent.coherent v.coherent;
    };
    refines = λ id. unfold replay in ap some (same id);
  };
  state_ok = tt;
}
  where
    same :
        (id : ComponentId)
        → phase (status_of r id)
          ≡ phase (status_of (record r { statuses = map clear_retry_status r.statuses }) id)
    same id = ground (arith, lookup-map r.chain r.statuses clear_retry_status id)

pub entry_action-Arrives :
    (state : State) (r : Rot)
    → IsBased r
    → IsSound r
    → Enters state r
    → Arrives state r (entry_action state r)
unfolding entry_action
entry_action-Arrives pre_supervision r b v s = pre_supervision-entry r b v s
entry_action-Arrives updating r b v s = updating-entry r v
entry_action-Arrives (recovering id) r b v s = record {
  evolves = recover-Evolves id (status_retry (status_of (recovered id r) id)) r v s;
  state_ok = refl;
}
entry_action-Arrives locked r b v s = record {
  evolves = neutral-Evolves latch_lockdown r (λ j p. unfold obey in refl) v;
  state_ok = tt;
}
entry_action-Arrives ready r b v s = ready-entry r v
entry_action-Arrives (awaiting_ready a) r b v s = record {
  evolves = Evolves-refl r v;
  state_ok = s;
}
entry_action-Arrives power_on_reset r b v s = absurd s
