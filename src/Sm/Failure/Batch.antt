-- ===== src/Sm/Failure/Batch.antt =====
-- A batch of effects up to its first failure (services/orchestrator/sm/src/lib.rs, `dispatch_with`).
use openprot.Prelude.{
  Option, none, some, ap, sym, sym, some, Option, ltb, ap, ◌≡◌, refl, subst, ◌⊎◌, inl, inr, true,
  false, List, [], ◌∷◌, Bool, Bool-cases, if◌then◌else◌, ◌≤◌, ◌<◌, suc, length, length-append,
  arith, ◌++◌,
}
use openprot.Sm.Model.{Event, effect_failed, Effect, emit}
use openprot.Sm.Engine.{
  fail, Orchestrator, Executor, Answer, fed_back, effect_error, Run, execute_batch, execute_one,
  settle_answer, settle_event, pop_back, latch, pending_cap, queue_follow_up,
}
use openprot.Sm.Locked.{lock, locked-step}

length-pop_back : (e : Event) (es : List Event) → suc (length (pop_back (e ∷ es))) ≡ length (e ∷ es)
length-pop_back e [] = refl
length-pop_back e (f ∷ es) = ap suc (length-pop_back f es)

-- What a failure leaves: the flag, and `EffectFailed` in front of a queue that is not too long.
pub record IsLatched {W : Type 0} (run : Run W) : Type 0 where
  pub failed : run.failed ≡ true
  pub rest : List Event
  pub front : run.pending ≡ effect_failed ∷ rest
  pub bounded : length rest ≤ 7

latch-bounded :
    (pending : List Event)
    → length pending ≤ pending_cap
    → (rest : List Event) × (latch pending ≡ effect_failed ∷ rest) × (length rest ≤ 7)
unfolding latch
latch-bounded [] h = ([], refl, omega arith)
latch-bounded (e ∷ es) h = elim (Bool-cases (ltb (length (e ∷ es)) pending_cap)) [
  | inl y ↦ (e ∷ es, rw y refl, ground arith)
  | inr n ↦ (pop_back (e ∷ es), rw n refl, omega (arith, length-pop_back e es))
]

pub queue-cases :
    (es : List Event) → (es ≡ []) ⊎ ((e : Event) × (rest : List Event) × (es ≡ e ∷ rest))
queue-cases [] = inl refl
queue-cases (e ∷ es) = inr (e, es, refl)

module _ {W : Type 0} where
  fail-IsLatched :
      (run : Run W) → run.failed ≡ false → length run.pending ≤ pending_cap → IsLatched (fail run)
  fail-IsLatched run f h =
      let l = latch-bounded run.pending h in
      subst
        (λ b.
          IsLatched (if b then run else record run { failed = true; pending = latch run.pending }))
        (sym f) (record { failed = refl; rest = l.0; front = l.1; bounded = l.2 })

  -- What a round of the inner loop does while nothing has failed.
  abbrev Settles : Run W × Bool → Type 0
  Settles res =
      ((res.1 ≡ true) × (res.0.failed ≡ false) × (length res.0.pending ≤ pending_cap))
      ⊎ ((res.1 ≡ false) × IsLatched res.0)

  queue_follow_up-Settles :
      (follow_up : Option Event) (run : Run W)
      → run.failed ≡ false
      → length run.pending ≤ pending_cap
      → Settles (queue_follow_up follow_up run)
  unfolding queue_follow_up
  queue_follow_up-Settles none run f h = inl (refl, f, h)
  queue_follow_up-Settles (some next) run f h =
      elim (Bool-cases (ltb (length run.pending) pending_cap)) [
        | inl y ↦ rw y (inl (refl, f, room y))
        | inr n ↦
            let l = fail-IsLatched run f h in
            rw n (
              subst (λ b. Settles (if b then (run, true) else (fail run, false))) (sym f)
                (inr (refl, l)))
      ]
    where
      room :
          ltb (length run.pending) pending_cap ≡ true
          → length (run.pending ++ next ∷ []) ≤ pending_cap
      room y =
          let k : length run.pending < 8 = ground arith in
          omega (arith, length-append run.pending (next ∷ []))

  settle_answer-Settles :
      (answer : W × Answer) (effect : Effect) (run : Run W)
      → run.failed ≡ false
      → length run.pending ≤ pending_cap
      → Settles (settle_answer answer effect run)
  unfolding settle_answer
  settle_answer-Settles (world, fed_back follow_up) effect run f h =
      queue_follow_up-Settles follow_up _ f h
  settle_answer-Settles (world, effect_error) effect run f h = inr (refl, fail-IsLatched _ f h)

  execute_one-Settles :
      (on_effect : Executor W) (effect : Effect) (run : Run W)
      → run.failed ≡ false
      → length run.pending ≤ pending_cap
      → Settles (execute_one on_effect effect run)
  unfolding execute_one
  execute_one-Settles on_effect (emit e) run f h = queue_follow_up-Settles (some e) run f h
  execute_one-Settles on_effect external run f h =
      settle_answer-Settles (on_effect external run.world) external run f h

  -- A batch either succeeds and leaves the queue within its capacity, or ends at its first failure,
  -- which is latched.
  pub execute_batch-settles :
      (on_effect : Executor W) (effects : List Effect) (run : Run W)
      → run.failed ≡ false
      → length run.pending ≤ pending_cap
      → let run' = execute_batch on_effect effects run in
        ((run'.failed ≡ false) × (length run'.pending ≤ pending_cap)) ⊎ IsLatched run'
  unfolding execute_batch
  execute_batch-settles on_effect [] run f h = inl (f, h)
  execute_batch-settles on_effect (e ∷ es) run f h =
      elim (execute_one-Settles on_effect e run f h) [
        | inl (y, f', h') ↦
            rw y (execute_batch-settles on_effect es (execute_one on_effect e run).0 f' h')
        | inr (n, l) ↦ rw n (inr l)
      ]

  pub locked-settle_event :
      (on_effect : Executor W) (e : Event) (o : Orchestrator) (run : Run W)
      → settle_event on_effect e (lock o, run) ≡ (lock o, run)
  unfolding settle_event lock execute_batch
  locked-settle_event on_effect e o run =
      ap (λ p. (p.0, execute_batch on_effect p.1 run)) (locked-step o.rot e)
