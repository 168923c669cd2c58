-- ===== src/System/Recovery.antt =====
-- A required component that is corrupt, on a platform whose driver has no recovery
-- (services/orchestrator/sm/src/lib.rs and services/orchestrator/driver/src/driver.rs).
use openprot.Sm.Locked.{lock}
use openprot.Sm.Handlers.{held_status, entry_action, handle_supervising, handle_ready, handle}
use openprot.Prelude.{
  ℕ, zero, suc, ◌≤◌, ◌≡◌, refl, sym, ap, ◌∙◌, subst, inl, inr, Bool, true, false, some, List, [],
  ◌∷◌, ◌++◌, arith, Bool-cases, if◌then◌else◌,
}
use openprot.Sm.Model.{
  ComponentId, ComponentAttrs, corruption_detected, Effect, recover_component, ready, recovering,
  locked, required,
}
use openprot.Sm.Rot.{
  clear_awaiting_boot, update_status, status_of, status_retry, Rot, is_gated, find_attrs,
  transition,
}
use openprot.Sm.Gating.{handle_corruption, gate_by_policy, gate_attrs}
use openprot.Sm.Engine.{
  latch, dispatch_with, after, fail, apply_outcome, supervise, settle_answer, Orchestrator, step,
  emitted, react, Run, drain, settle_event, execute_batch, execute_one, is_modelled,
}
use openprot.Sm.Invariant.{Inv}
use openprot.Sm.Budget.Step.{step-emitted}
use openprot.Sm.Failure.{failure_locks, execute_batch-single}
use openprot.Driver.Wiring.{Capabilities}
use openprot.Driver.{PlatformDriver, execute}
use openprot.System.{platform, dispatch}

-- Corruption of a required component in service goes to recovery, and changes nothing else.
required-corruption :
    (r : Rot) (id : ComponentId) (attrs : ComponentAttrs)
    → is_gated r id ≡ false
    → find_attrs r.chain id ≡ some attrs
    → attrs.failure_policy ≡ required
    → handle_corruption id r ≡ (r, [], transition (recovering id))
unfolding handle_corruption gate_by_policy gate_attrs
required-corruption r id attrs n f p = rw (n, f, p) refl

ready-corruption :
    (r : Rot) (id : ComponentId)
    → handle_corruption id r ≡ (r, [], transition (recovering id))
    → (attempts : ℕ) × ((react ready (corruption_detected id) r).1
        ≡ recover_component id attempts ∷ [])
unfolding react handle handle_ready supervise handle_supervising apply_outcome entry_action
ready-corruption r id c = (
  status_retry (
      status_of
        (update_status id held_status
          (clear_awaiting_boot id (record r { pending_commit = false })))
        id),
  rw c refl,
)

fail-failed : {W : Type 0} (run : Run W) → (fail run).failed ≡ true
fail-failed {W = W} run = elim (Bool-cases run.failed) [
  | inl y ↦ subst (λ b. (failed_run b).failed ≡ true) (sym y) y
  | inr n ↦ subst (λ b. (failed_run b).failed ≡ true) (sym n) refl
]
  where
    failed_run : Bool → Run W
    failed_run b = if b then run else record run { failed = true; pending = latch run.pending }

emitted_is :
    (o : Orchestrator) (id : ComponentId) {es : List Effect}
    → is_modelled o.rot (corruption_detected id) ≡ true
    → o.state ≡ ready
    → (react ready (corruption_detected id) o.rot).1 ≡ es
    → emitted o (corruption_detected id) ≡ es
unfolding emitted
emitted_is o id m s e = rw m (ap (λ t. (react t (corruption_detected id) o.rot).1) s ∙ e)

module _ (B : Capabilities) where
  recovery-fails :
      (id : ComponentId) (attempts : ℕ) (run : Run (PlatformDriver B))
      → (execute_batch (platform B) (recover_component id attempts ∷ []) run).failed ≡ true
  unfolding execute_one settle_answer platform execute
  recovery-fails id attempts run =
      ap (λ run. run.failed) (execute_batch-single (platform B) (recover_component id attempts) run)
      ∙ fail-failed (record run { log = run.log ++ recover_component id attempts ∷ [] })

  -- With the platform driver, which has no executor for `RecoverComponent`, and a machine that
  -- satisfies the invariant: when a required component in service is found corrupt in `Ready`,
  -- `dispatch` ends, and ends `Locked`, within 11 rounds and whatever the board does.
  pub required_corruption_locks :
      (fuel : ℕ) (o : Orchestrator) (id : ComponentId) (attrs : ComponentAttrs)
      (driver : PlatformDriver B)
      → Inv o
      → o.state ≡ ready
      → is_modelled o.rot (corruption_detected id) ≡ true
      → is_gated o.rot id ≡ false
      → find_attrs o.rot.chain id ≡ some attrs
      → attrs.failure_policy ≡ required
      → 11 ≤ fuel
      → (end : Orchestrator × Run (PlatformDriver B)) × (dispatch B fuel o
            (corruption_detected id)
            driver
          ≡ some end)
        × (end.0.state ≡ locked)
  required_corruption_locks zero o id attrs driver i s m n f p enough = absurd (omega arith)
  required_corruption_locks (suc fuel) o id attrs driver i s m n f p enough =
      let start : Run (PlatformDriver B) = record {
        world = driver;
        pending = [];
        failed = false;
        log = [];
      } in
      let c = ready-corruption o.rot id (required-corruption o.rot id attrs n f p) in
      let batch : (step o (corruption_detected id)).1 ≡ recover_component id c.0 ∷ [] =
        step-emitted o (corruption_detected id) i ∙ emitted_is o id m s c.1 in
      let fails : (settle_event (platform B) (corruption_detected id) (o, start)).1.failed ≡ true =
        (unfold settle_event in
          ap (λ es. (execute_batch (platform B) es start).failed) batch
          ∙ recovery-fails id c.0 start) in
      let end =
        failure_locks fuel (platform B) o (corruption_detected id) start i refl (omega arith)
          (omega arith) fails in
      (
        (lock (after o (corruption_detected id)), end.0),
        (unfold dispatch dispatch_with drain in end.1),
        (unfold lock in refl),
      )
