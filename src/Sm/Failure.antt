-- ===== src/Sm/Failure.antt =====
-- `Orchestrator::dispatch_with` is fail-closed (services/orchestrator/sm/src/lib.rs).
pub mod Batch
use openprot.Prelude.{
  Option, none, some, ap, sym, ◌∙◌, sym, ◌∙◌, some, Option, ltb, ap, ◌≡◌, refl, subst, ◌⊎◌, inl,
  inr, true, false, List, [], ◌∷◌, Bool, Bool-cases, if◌then◌else◌, ◌≤◌, ◌<◌, ℕ, zero, suc, length,
  length-append, arith, ◌++◌,
}
use openprot.Sm.Model.{Event, effect_failed, Effect, latch_lockdown}
use openprot.Sm.Invariant.{Inv}
use openprot.Sm.Trace.{step-Inv}
use openprot.Sm.Budget.Step.{step-emitted}
use openprot.Sm.Engine.{
  after, emitted, fail, Orchestrator, step, Executor, Answer, fed_back, effect_error, Run,
  execute_batch, execute_one, settle_answer, settle_event, drain, latch, pending_cap,
  queue_follow_up,
}
use openprot.Sm.Locked.{lock, effect_failed_locks}
use openprot.Sm.Failure.Batch.{IsLatched, queue-cases, execute_batch-settles, locked-settle_event}

-- The loop, from a failure on.
module _ {W : Type 0} where
  drain-empty :
      (fuel : ℕ) (on_effect : Executor W) (o : Orchestrator) (run : Run W)
      → run.pending ≡ []
      → drain (suc fuel) on_effect (o, run) ≡ some (o, run)
  unfolding drain
  drain-empty fuel on_effect o run q =
      ap
        (λ es. elim es as (λ _. Option (Orchestrator × Run W)) [
          | [] ↦ some (o, run)
          | event ∷ pending ↦
              drain fuel on_effect
                (settle_event on_effect event (o, record run { pending = pending }))
        ])
        q

  drain-front :
      (fuel : ℕ) (on_effect : Executor W) (o : Orchestrator) (run : Run W) (e : Event)
      (es : List Event)
      → run.pending ≡ e ∷ es
      → drain (suc fuel) on_effect (o, run)
        ≡ drain fuel on_effect (settle_event on_effect e (o, record run { pending = es }))
  unfolding drain
  drain-front fuel on_effect o run e es q =
      ap
        (λ es. elim es as (λ _. Option (Orchestrator × Run W)) [
          | [] ↦ some (o, run)
          | event ∷ pending ↦
              drain fuel on_effect
                (settle_event on_effect event (o, record run { pending = pending }))
        ])
        q

  -- A locked machine empties the queue, and executes nothing.
  drain-locked :
      (fuel : ℕ) (on_effect : Executor W) (o : Orchestrator) (run : Run W)
      → length run.pending < fuel
      → drain fuel on_effect (lock o, run) ≡ some (lock o, record run { pending = [] })
  drain-locked zero on_effect o run h = absurd (omega arith)
  drain-locked (suc fuel) on_effect o run h = elim (queue-cases run.pending) [
    | inl q ↦
        drain-empty fuel on_effect (lock o) run q
        ∙ (λ i. some (lock o, record run { pending = q i }))
    | inr (e, es, q) ↦
        drain-front fuel on_effect (lock o) run e es q
        ∙ ap (drain fuel on_effect)
            (locked-settle_event on_effect e o (record run { pending = es }))
        ∙ drain-locked fuel on_effect o (record run { pending = es }) (omega (arith, ap length q))
  ]

  pub execute_batch-single :
      (on_effect : Executor W) (e : Effect) (run : Run W)
      → execute_batch on_effect (e ∷ []) run ≡ (execute_one on_effect e run).0
  unfolding execute_batch
  execute_batch-single on_effect e run = elim (Bool-cases (execute_one on_effect e run).1) [
    | inl y ↦ rw y refl
    | inr n ↦ rw n refl
  ]

  -- An answer after the failure adds at most one event to the queue.
  late_answer :
      (answer : W × Answer) (e : Effect) (run : Run W)
      → run.failed ≡ true
      → let run' = (settle_answer answer e run).0 in
        (length run'.pending ≤ suc (length run.pending)) × (run'.log ≡ run.log ++ e ∷ [])
  unfolding settle_answer queue_follow_up
  late_answer (world, fed_back none) e run f = (omega arith, refl)
  late_answer (world, fed_back (some next)) e run f =
      elim (Bool-cases (ltb (length run.pending) pending_cap)) [
        | inl y ↦ rw y (omega (arith, length-append run.pending (next ∷ [])), refl)
        | inr n ↦ rw n (subst (LateOk next) (sym f) (omega arith, refl))
      ]
    where
      LateOk : Event → Bool → Type 0
      LateOk next b =
          let run1 = record run { world = world; log = run.log ++ e ∷ [] } in
          let res : Run W × Bool = (if b then (run1, true) else (fail run1, false)) in
          let run' = res.0 in
          (length run'.pending ≤ suc (length run.pending)) × (run'.log ≡ run.log ++ e ∷ [])
  late_answer (world, effect_error) e run f =
      subst
        (λ b.
          let run1 = record run { world = world; log = run.log ++ e ∷ [] } in
          let run' =
            (if b then run1 else record run1 { failed = true; pending = latch run1.pending }) in
          (length run'.pending ≤ suc (length run.pending)) × (run'.log ≡ run.log ++ e ∷ []))
        (sym f) (omega arith, refl)

  late_batch :
      (on_effect : Executor W) (run : Run W)
      → run.failed ≡ true
      → let run' = execute_batch on_effect (latch_lockdown ∷ []) run in
        (length run'.pending ≤ suc (length run.pending))
        × (run'.log ≡ run.log ++ latch_lockdown ∷ [])
  unfolding execute_one
  late_batch on_effect run f =
      subst
        (λ run'.
          (length run'.pending ≤ suc (length run.pending))
          × (run'.log ≡ run.log ++ latch_lockdown ∷ []))
        (sym (execute_batch-single on_effect latch_lockdown run))
        (late_answer (on_effect latch_lockdown run.world) latch_lockdown run f)

  latched-settle_event :
      (on_effect : Executor W) (o : Orchestrator) (run : Run W) (es : List Effect)
      → Inv o
      → emitted o effect_failed ≡ es
      → settle_event on_effect effect_failed (o, run) ≡ (lock o, execute_batch on_effect es run)
  unfolding settle_event
  latched-settle_event on_effect o run es i e =
      let a : (step o effect_failed).0 ≡ lock o = (unfold step in (effect_failed_locks o).0) in
      let b : (step o effect_failed).1 ≡ es = step-emitted o effect_failed i ∙ e in
      ap (λ p. (p, execute_batch on_effect (step o effect_failed).1 run)) a
      ∙ ap (λ p. (lock o, execute_batch on_effect p run)) b

  -- After a failure is latched: the next step locks the machine, the executor is handed at most the
  -- lockdown, and the loop ends.
  latched-drain :
      (fuel : ℕ) (on_effect : Executor W) (o : Orchestrator) (run : Run W)
      → Inv o
      → IsLatched run
      → 10 ≤ fuel
      → (run' : Run W) × (drain fuel on_effect (o, run) ≡ some (lock o, run'))
        × ((run'.log ≡ run.log) ⊎ (run'.log ≡ run.log ++ latch_lockdown ∷ []))
  latched-drain zero on_effect o run i l h = absurd (omega arith)
  latched-drain (suc fuel) on_effect o run i l h =
      let run1 = record run { pending = l.rest } in
      let front = drain-front fuel on_effect o run effect_failed l.rest l.front in
      elim (effect_failed_locks o).1 [
        | inl e ↦
            let run2 = execute_batch on_effect (latch_lockdown ∷ []) run1 in
            let late = late_batch on_effect run1 l.failed in
            (
              record run2 { pending = [] },
              front
                  ∙ ap (drain fuel on_effect)
                      (latched-settle_event on_effect o run1 (latch_lockdown ∷ []) i e)
                  ∙ drain-locked fuel on_effect o run2 (omega (arith, late.0, l.bounded)),
              inr late.1,
            )
        | inr (s, e) ↦ (
          record run1 { pending = [] },
          front
              ∙ ap (drain fuel on_effect) (latched-settle_event on_effect o run1 [] i e)
              ∙ (unfold execute_batch in
                  drain-locked fuel on_effect o run1 (omega (arith, l.bounded))),
          inl refl,
        )
      ]

  -- Whatever the executor does, for a machine that satisfies the invariant, a queue within its
  -- capacity and no failure so far: when the effects of an event bring about the first failure,
  -- the loop ends within 10 more rounds, the machine is locked and otherwise as the event left it,
  -- and the executor is handed nothing more but at most one `LatchLockdown`.
  pub failure_locks :
      (fuel : ℕ) (on_effect : Executor W) (o : Orchestrator) (event : Event) (run : Run W)
      → Inv o
      → run.failed ≡ false
      → length run.pending ≤ pending_cap
      → 10 ≤ fuel
      → (settle_event on_effect event (o, run)).1.failed ≡ true
      → (end : Run W) × (drain fuel on_effect (settle_event on_effect event (o, run))
          ≡ some (lock (after o event), end))
        × ((end.log ≡ (settle_event on_effect event (o, run)).1.log)
            ⊎ (end.log ≡ (settle_event on_effect event (o, run)).1.log ++ latch_lockdown ∷ []))
  unfolding settle_event step
  failure_locks fuel on_effect o event run i f h enough failed =
      let run' = execute_batch on_effect (step o event).1 run in
      latched-drain fuel on_effect (step o event).0 run' (step-Inv o event i)
        (latched (execute_batch-settles on_effect (step o event).1 run f h) failed) enough
    where
      false_is_not_true : false ≡ true → ⊥
      false_is_not_true e = cc

      latched :
          {run' : Run W}
          → ((run'.failed ≡ false) × (length run'.pending ≤ pending_cap)) ⊎ IsLatched run'
          → run'.failed ≡ true
          → IsLatched run'
      latched (inl (n, b)) y = absurd (false_is_not_true (sym n ∙ y))
      latched (inr l) y = l
