-- ===== src/Sm/Examples.antt =====
-- Sample machines: the theorems on services/orchestrator/sm, applied.
use openprot.Sm.Boot.{boot_reaches_ready}
use openprot.Sm.Boot.Passes.{all_boot}
use openprot.Sm.Release.{emitted-Lets, Lets}
use openprot.Sm.Model.TryFrom.{try_from-IsValidChain}
use openprot.Sm.Failure.{failure_locks}
use openprot.Sm.Model.Valid.{IsValidChain}
use openprot.Sm.Gating.Gates.{Gates}
use openprot.Sm.Gating.Cascade.Exact.{cascade_hold-HoldsExactly, HoldsExactly}
use openprot.Sm.Locked.{effect_failed_locks, locked_is_terminal, lock}
use openprot.Sm.Rot.Soundness.{IsMember}
use openprot.Sm.Budget.Step.{step-emitted}
use openprot.Prelude.{
  ◌↔◌, ◌≤◌, ◌≡◌, refl, ◌⊎◌, true, false, some, List, [], ◌∷◌, ◌++◌, ok, arith, length, All,
}
use openprot.Sm.Model.{
  Entry, Chain, try_from, find_duplicate, find_bad_dependency, check_dependency, position, any_id,
  passive_cascading, active_isolable, passive_required, with_depends_on, Event, power_good,
  provisioned, verification_passed, verification_failed, corruption_detected, restored,
  component_ready, update_request, effect_failed, latch_lockdown, component_id, locked, ready,
  update_verified,
}
use openprot.Sm.Rot.{
  quiesce_effects, Rot, is_gated, status_of, lookup_status, change_status, gate_one, find_attrs,
  in_chain, quiesce_all, advance_to_next_ungated, advance_from, new_rot,
}
use openprot.Sm.Engine.{
  emit_all, latch, queue_follow_up, settle_answer, execute_one, execute_batch, effect_error, drain,
  Run, settle_event, Executor, Orchestrator, run_events, trace, step, after, emitted, react,
  is_modelled, supervise, apply_outcome, new,
}
use openprot.Sm.Gating.{
  handle_corruption, gate_by_policy, cascade_hold, cascade_loop, collect_dependents,
  gate_dependents, handle_corruption_advancing, step_over,
}
use openprot.Sm.Handlers.{
  handle_updating, handle_ready, handle_awaiting_ready, handle, handle_power_on_reset,
  handle_pre_supervision, entry_action, release,
}
use openprot.Sm.Lifecycle.{held, phase, replay}
use openprot.Sm.Invariant.{Inv}
use openprot.Sm.Trace.{trace-replay, window_only_when_ready, new-Inv, run_events-Inv}
use openprot.Sm.Isolation.{isolation_is_final, acts_on}

abbrev sample : List Entry
unfolding passive_cascading active_isolable passive_required with_depends_on
sample =
    (0, passive_cascading) ∷ (1, with_depends_on active_isolable 0) ∷ (2, passive_required) ∷ []

abbrev chain : Chain
chain = record { entries = sample }

accepted : try_from sample ≡ ok chain
unfolding try_from find_duplicate find_bad_dependency check_dependency position any_id sample
accepted = refl

abbrev machine : Orchestrator
machine = new 3 8 chain 2

abbrev corrupted : List Event
corrupted = power_good provisioned ∷ verification_passed 0 ∷ corruption_detected 0 ∷ []

gated_1 : is_gated (run_events machine corrupted).rot 1 ≡ true
unfolding run_events step after emitted react is_modelled component_id in_chain supervise
    apply_outcome handle handle_power_on_reset handle_pre_supervision entry_action release
    quiesce_all advance_to_next_ungated advance_from find_attrs lookup_status change_status gate_one
    handle_corruption gate_by_policy cascade_hold cascade_loop collect_dependents gate_dependents
    handle_corruption_advancing step_over new new_rot position sample
gated_1 = refl

machine-Inv : Inv machine
machine-Inv = new-Inv 3 8 sample chain 2 accepted (unfold sample in omega arith) (omega arith)

trace-replay_example :
    replay 2 (trace machine corrupted) held
    ≡ some (phase (status_of (run_events machine corrupted).rot 2))
trace-replay_example =
    trace-replay 3 8 sample chain 2 corrupted 2 accepted (unfold sample in omega arith)
      (omega arith)

run_events-Inv_example : Inv (run_events machine corrupted)
run_events-Inv_example = run_events-Inv machine corrupted machine-Inv

-- The isolated component 1, and a recovery of component 2 afterwards.
isolation_is_final_example :
    (is_gated
        (run_events (run_events machine corrupted) (verification_failed 2 ∷ restored 2 ∷ [])).rot
        1
      ≡ true)
    × All
        (λ e. acts_on 1 e ≡ false)
        (trace (run_events machine corrupted) (verification_failed 2 ∷ restored 2 ∷ []))
isolation_is_final_example =
    isolation_is_final (run_events machine corrupted) (verification_failed 2 ∷ restored 2 ∷ []) 1
      (run_events-Inv machine corrupted machine-Inv) gated_1

abbrev updated : List Event
updated =
    power_good provisioned
    ∷ verification_passed 0
    ∷ verification_passed 1
    ∷ component_ready 1
    ∷ verification_passed 2
    ∷ update_request
    ∷ update_verified
    ∷ []

window_open : (run_events machine updated).rot.pending_commit ≡ true
unfolding run_events step after emitted react is_modelled component_id in_chain supervise
    apply_outcome handle handle_power_on_reset handle_pre_supervision handle_awaiting_ready
    handle_ready handle_updating entry_action release quiesce_all advance_to_next_ungated
    advance_from find_attrs lookup_status change_status new new_rot position sample
window_open = refl

window_only_when_ready_example :
    ((run_events machine updated).state ≡ ready) ⊎ ((run_events machine updated).state ≡ locked)
window_only_when_ready_example =
    window_only_when_ready 3 8 sample chain 2 updated accepted (unfold sample in omega arith)
      (omega arith) window_open

step-emitted_example :
    (step machine (power_good provisioned)).1 ≡ emitted machine (power_good provisioned)
step-emitted_example = step-emitted machine (power_good provisioned) machine-Inv

root_listed : IsMember machine.rot.chain 0
unfolding new new_rot position sample
root_listed = (0, refl)

roomy : length machine.rot.chain ≤ machine.rot.chain_capacity
unfolding new new_rot sample
roomy = omega arith

cascade_hold-HoldsExactly_example :
    HoldsExactly 0 machine.rot (cascade_hold 0 machine.rot).1 (cascade_hold 0 machine.rot).0
cascade_hold-HoldsExactly_example =
    cascade_hold-HoldsExactly 0 machine.rot machine-Inv.sound root_listed roomy

try_from-IsValidChain_example :
    (try_from sample ≡ ok (record { entries = sample })) ↔ IsValidChain sample
try_from-IsValidChain_example = try_from-IsValidChain sample

locked_is_terminal_example : step (lock machine) (restored 1) ≡ (lock machine, [])
locked_is_terminal_example = locked_is_terminal (lock machine) (restored 1) (unfold lock in refl)

effect_failed_locks_example :
    (after machine effect_failed ≡ lock machine)
    × ((emitted machine effect_failed ≡ latch_lockdown ∷ [])
        ⊎ ((machine.state ≡ locked) × (emitted machine effect_failed ≡ [])))
effect_failed_locks_example = effect_failed_locks machine

-- A platform on which every effect fails.
abbrev broken : Executor Unit
broken effect world = (world, effect_error)

abbrev idle : Run Unit
idle = record { world = tt; pending = []; failed = false; log = [] }

broken-fails : (settle_event broken (power_good provisioned) (machine, idle)).1.failed ≡ true
unfolding settle_event execute_batch execute_one settle_answer queue_follow_up latch step emit_all
    after emitted react is_modelled component_id supervise apply_outcome handle
    handle_power_on_reset entry_action quiesce_all quiesce_effects advance_to_next_ungated
    advance_from lookup_status new new_rot position sample
broken-fails = refl

failure_locks_example :
    (end : Run Unit) × (drain 10 broken
        (settle_event broken (power_good provisioned) (machine, idle))
      ≡ some (lock (after machine (power_good provisioned)), end))
    × ((end.log ≡ (settle_event broken (power_good provisioned) (machine, idle)).1.log)
        ⊎ (end.log
            ≡ (settle_event broken (power_good provisioned) (machine, idle)).1.log
              ++ latch_lockdown ∷ []))
failure_locks_example =
    failure_locks 10 broken machine (power_good provisioned) idle machine-Inv refl (omega arith)
      (omega arith) broken-fails

emitted-Lets_example :
    Lets
      (verification_passed 0)
      (after machine (power_good provisioned)).rot
      (emitted (after machine (power_good provisioned)) (verification_passed 0))
emitted-Lets_example = emitted-Lets (after machine (power_good provisioned)) (verification_passed 0)

boot_reaches_ready_example :
    (run_events (new 3 8 chain 2) (power_good provisioned ∷ all_boot sample)).state ≡ ready
boot_reaches_ready_example = boot_reaches_ready 3 8 sample chain 2 accepted
