-- ===== src/Sm/Invariant/Leaf.antt =====
-- The handlers of the states keep the invariant (services/orchestrator/sm/src/lib.rs).
pub mod Boot
use openprot.Prelude.{
  ==_iff, subst, ℕ, refl, ◌∙◌, inl, inr, Bool, true, false, [], ◌∷◌, arith, append-nil, Bool-cases,
  if◌then◌else◌, ◌==◌, ltb,
}
use openprot.Sm.Model.{
  ComponentId, Event, update_request, update_verified, update_rejected, boot_confirmed,
  corruption_detected, restored, recovery_unavailable, recovery_failed, commit_timeout, Effect,
  activate_update, discard_staged, commit_svn_floor, report_update_aborted, State, power_on_reset,
  pre_supervision, awaiting_ready, ready, updating, recovering, locked, component_id,
}
use openprot.Sm.Rot.{pure, Rot, Outcome, handled, transition, super, bump_status, bump_retry}
use openprot.Sm.Handlers.{handle_ready, handle_updating, handle_recovering, handle}
use openprot.Sm.Rot.Soundness.{IsSound, IsMember}
use openprot.Sm.Lifecycle.{obey}
use openprot.Sm.Gating.{handle_corruption, exhaust_recovery}
use openprot.Sm.Gating.Policy.{handle_corruption-cases}
use openprot.Sm.Walk.{Gates-Evolves, Evolves, Evolves-trans}
use openprot.Sm.Walk.Changes.{IsSilent, update-Evolves}
use openprot.Sm.Invariant.{
  IsBased-framed, IsBased, StateOk, OutcomeOk, Handles, stays, Handles-after, neutral-Evolves,
  IsNeutral,
}
use openprot.Sm.Invariant.Corruption.{exhaust_recovery-Handles}
use openprot.Sm.Invariant.Leaf.Boot.{
  IsModelled, power_on_reset-Handles, pre_supervision-Handles, awaiting_ready-Handles,
}

-- An effect about no component's reset, and a write to the commit window.
neutral-Handles :
    (state : State) (r : Rot) (e : Effect) (pending : Bool) (outcome : Outcome)
    → IsNeutral e
    → IsSound r
    → OutcomeOk state (record r { pending_commit = pending }) outcome
    → Handles state r (record r { pending_commit = pending }, e ∷ [], outcome)
neutral-Handles state r e pending outcome n v ok =
    let x = neutral-Evolves e r n v in
    record {
      evolves = record {
        framed = record {
          chain_kept = refl;
          capacity_kept = refl;
          effect_capacity_kept = refl;
          max_retry_kept = refl;
        };
        sound = record { parallel = v.parallel; coherent = v.coherent };
        refines = x.refines;
      };
      outcome = ok;
    }

ready-Handles : (event : Event) (r : Rot) → IsSound r → Handles ready r (handle_ready event r)
unfolding handle_ready
ready-Handles update_request r v = stays ready r (transition updating) v tt
ready-Handles (boot_confirmed id) r v =
    neutral-Handles ready r (commit_svn_floor id) false handled (λ j p. unfold obey in refl) v tt
ready-Handles commit_timeout r v = stays ready r _ v (choice r.pending_commit)
  where
    choice : (b : Bool) → OutcomeOk ready r (if b then transition locked else handled)
    choice true = tt
    choice false = tt
ready-Handles _ r v = stays ready r super v tt

updating-Handles :
    (event : Event) (r : Rot)
    → IsBased r
    → IsSound r
    → StateOk updating r
    → IsModelled r event
    → Handles updating r (handle_updating event r)
unfolding handle_updating component_id
updating-Handles update_verified r b v s m =
    neutral-Handles updating r activate_update true (transition ready) (λ j p. unfold obey in refl)
      v tt
updating-Handles update_rejected r b v s m =
    neutral-Handles updating r discard_staged r.pending_commit (transition ready)
      (λ j p. unfold obey in refl) v tt
updating-Handles (corruption_detected id) r b v s m =
    elim (handle_corruption-cases id r v (m id refl) b.roomy) [
      | inl (e, g, h) ↦ rw e (record {
        evolves = rw (append-nil (handle_corruption id r).1) (Gates-Evolves g);
        outcome = g.pending_kept ∙ s;
      })
      | inr (e, u, q) ↦ rw e (record { evolves = aborts; outcome = u })
    ]
  where
    aborts : Evolves r (discard_staged ∷ report_update_aborted ∷ []) r
    aborts =
        Evolves-trans (discard_staged ∷ []) (report_update_aborted ∷ [])
          (neutral-Evolves discard_staged r (λ j p. unfold obey in refl) v)
          (neutral-Evolves report_update_aborted r (λ j p. unfold obey in refl) v)
updating-Handles _ r b v s m = stays updating r super v s

pub bump-IsSilent : IsSilent bump_status
bump-IsSilent = record { same_phase = λ s. refl; coherent = λ s h. ground arith }

recovering-Handles :
    (failed : ComponentId) (event : Event) (r : Rot)
    → IsBased r
    → IsSound r
    → StateOk (recovering failed) r
    → IsModelled r event
    → Handles (recovering failed) r (handle_recovering failed event r)
unfolding handle_recovering component_id bump_retry
recovering-Handles failed (restored id) r b v s m = elim (Bool-cases (id == failed)) [
  | inr e ↦ rw (e, handle_recovering) (stays (recovering failed) r handled v s)
  | inl e ↦
      rw (e, handle_recovering)
        (Handles-after (recovering failed) r bumped [] _ bumps (
          decide (ltb attempts r.max_retry)
            (subst (IsMember r.chain) ((==_iff id failed).0 e) (m id refl))))
]
  where
    bumped : Rot
    bumped = (bump_retry failed r).0

    attempts : ℕ
    attempts = (bump_retry failed r).2

    bumps : Evolves r [] bumped
    bumps = update-Evolves bump_status failed r bump-IsSilent v

    decide :
        (again : Bool)
        → IsMember r.chain failed
        → Handles
            (recovering failed)
            bumped
            ((if again then pure (transition pre_supervision) else exhaust_recovery failed) bumped)
    decide true k = stays (recovering failed) bumped (transition pre_supervision) bumps.sound s
    decide false k =
        exhaust_recovery-Handles (recovering failed) failed bumped (IsBased-framed b bumps.framed)
          bumps.sound k (λ w. w) s s
recovering-Handles failed (recovery_unavailable id) r b v s m = elim (Bool-cases (id == failed)) [
  | inr e ↦ rw (e, handle_recovering) (stays (recovering failed) r handled v s)
  | inl e ↦
      rw (e, handle_recovering)
        (exhaust_recovery-Handles (recovering failed) failed r b v
          (subst (IsMember r.chain) ((==_iff id failed).0 e) (m id refl)) (λ w. w) s s)
]
recovering-Handles failed recovery_failed r b v s m =
    stays (recovering failed) r (transition locked) v tt
recovering-Handles failed _ r b v s m = stays (recovering failed) r super v s

-- Every handler, in every state, for every event about the chain.
pub handle-Handles :
    (state : State) (event : Event) (r : Rot)
    → IsBased r
    → IsSound r
    → StateOk state r
    → IsModelled r event
    → Handles state r (handle state event r)
unfolding handle
handle-Handles power_on_reset event r b v s m = power_on_reset-Handles event r v s
handle-Handles pre_supervision event r b v s m = pre_supervision-Handles event r b v s m
handle-Handles (awaiting_ready awaiting) event r b v s m =
    awaiting_ready-Handles awaiting event r b v s m
handle-Handles ready event r b v s m = ready-Handles event r v
handle-Handles updating event r b v s m = updating-Handles event r b v s m
handle-Handles (recovering failed) event r b v s m = recovering-Handles failed event r b v s m
handle-Handles locked event r b v s m = stays locked r super v tt
