-- ===== src/Sm/Engine.antt =====
-- services/orchestrator/sm/src/lib.rs: the sink, `Orchestrator::step` and `dispatch_with`.
use openprot.Prelude.{
  ℕ, zero, suc, Bool, true, false, Option, none, some, List, [], ◌∷◌, ◌++◌, ltb, if◌then◌else◌,
  length, push_within,
}
use openprot.Sm.Model.{
  Chain, Event, effect_failed, Effect, emit, State, power_on_reset, awaiting_ready, ready, updating,
  recovering, component_id,
}
use openprot.Sm.Rot.{◌>>=◌, ◌>>◌, Outcome, transition, super, Rot, Act, pure, new_rot, in_chain}
use openprot.Sm.Handlers.{handle, handle_supervising, entry_action}

pub record Orchestrator : Type 0 where
  pub rot : Rot
  pub state : State

-- `Orchestrator::new`, where N is `n` and E is `e`.
unfoldable pub new : ℕ → ℕ → Chain → ℕ → Orchestrator
unfolding new_rot
new n e chain max_retry = record { rot = new_rot n e chain max_retry; state = power_on_reset }

-- `Orchestrator::is_supervised`
abbrev pub is_supervised : State → Bool
is_supervised (awaiting_ready _) = true
is_supervised ready = true
is_supervised updating = true
is_supervised (recovering _) = true
is_supervised _ = false

-- Step 2 of `step`: what the leaf handler leaves is the supervisor's.
unfoldable pub supervise : State → Event → Outcome → Act Outcome
supervise state event super = if is_supervised state then handle_supervising event else pure super
supervise state event outcome = pure outcome

-- Step 3 of `step`: the result is the new state.
unfoldable pub apply_outcome : State → Outcome → Act State
apply_outcome state (transition target) = do entry_action target; pure target
apply_outcome state _ = pure state

unfoldable pub react : State → Event → Act State
unfolding supervise apply_outcome
react state event = do
  leaf ← handle state event
  outcome ← supervise state event leaf
  apply_outcome state outcome

-- Step 0 of `step`: whether the event names no component, or one of the chain.
unfoldable pub is_modelled : Rot → Event → Bool
is_modelled r event = elim (component_id event) [ none ↦ true | some id ↦ in_chain r id ]

-- What a step emits, before any limit on the sink.
unfoldable pub emitted : Orchestrator → Event → List Effect
emitted o event = if is_modelled o.rot event then (react o.state event o.rot).1 else []

unfoldable pub after : Orchestrator → Event → Orchestrator
after o event =
    if is_modelled o.rot event
    then record { rot = (react o.state event o.rot).0; state = (react o.state event o.rot).2 }
    else o

-- `Sink::emit`, for each effect in turn: a push to a vector of capacity `e`.
unfoldable pub emit_all : ℕ → List Effect → List Effect → List Effect
emit_all e sink [] = sink
emit_all e sink (effect ∷ effects) = emit_all e (push_within e sink effect) effects

-- `Orchestrator::step`, with the contents of a fresh sink.
unfoldable pub step : Orchestrator → Event → Orchestrator × List Effect
step o event = (after o event, emit_all o.rot.effect_capacity [] (emitted o event))

abbrev pub pending_cap : ℕ
pending_cap = 8

-- An executor's answer to an effect: an event that it returns, or an `EffectError`.
pub data Answer : Type 0 where
  fed_back : Option Event → Answer
  effect_error : Answer

-- `on_effect`: what carries out the effects, with the state `W` of the platform.
abbrev pub Executor : Type 0 → Type 0
Executor W = Effect → W → W × Answer

-- `pending.pop_back()`
abbrev pub pop_back : List Event → List Event
pop_back [] = []
pop_back (e ∷ []) = []
pop_back (e ∷ f ∷ es) = e ∷ pop_back (f ∷ es)

-- `latch`
unfoldable pub latch : List Event → List Event
latch pending =
    effect_failed ∷ (if ltb (length pending) pending_cap then pending else pop_back pending)

-- The variables of `dispatch_with` between two effects. `log` lists the effects that were handed to
-- the executor, oldest first; the source keeps no such list.
pub record Run (W : Type 0) : Type 0 where
  pub world : W
  pub pending : List Event
  pub failed : Bool
  pub log : List Effect

module _ {W : Type 0} where
  -- An `EffectError`, and a queue that is full: latch once.
  abbrev pub fail : Run W → Run W
  fail run = if run.failed then run else record run { failed = true; pending = latch run.pending }

  -- `pending.push_back(next)`; the flag says whether the batch goes on.
  unfoldable pub queue_follow_up : Option Event → Run W → Run W × Bool
  queue_follow_up none run = (run, true)
  queue_follow_up (some next) run =
      if ltb (length run.pending) pending_cap
      then (record run { pending = run.pending ++ next ∷ [] }, true)
      else if run.failed
      then (run, true)
      else (fail run, false)

  unfoldable pub settle_answer : W × Answer → Effect → Run W → Run W × Bool
  unfolding queue_follow_up
  settle_answer (world, fed_back follow_up) effect run =
      queue_follow_up follow_up (record run { world = world; log = run.log ++ effect ∷ [] })
  settle_answer (world, effect_error) effect run =
      (fail (record run { world = world; log = run.log ++ effect ∷ [] }), false)

  -- One round of the inner loop.
  unfoldable pub execute_one : Executor W → Effect → Run W → Run W × Bool
  unfolding settle_answer
  execute_one on_effect (emit internal) run = queue_follow_up (some internal) run
  execute_one on_effect external run = settle_answer (on_effect external run.world) external run

  -- The inner loop, over `buf.effects()`.
  unfoldable pub execute_batch : Executor W → List Effect → Run W → Run W
  execute_batch on_effect [] run = run
  execute_batch on_effect (effect ∷ effects) run =
      let rest = execute_batch on_effect effects (execute_one on_effect effect run).0 in
      if (execute_one on_effect effect run).1 then rest else (execute_one on_effect effect run).0

  -- One round of the outer loop, for the event that was popped.
  unfoldable pub settle_event : Executor W → Event → Orchestrator × Run W → Orchestrator × Run W
  settle_event on_effect event (o, run) =
      ((step o event).0, execute_batch on_effect (step o event).1 run)

  -- `while let Some(ev) = pending.pop_front()`. An executor that returns events for ever keeps the
  -- source's loop going; `none` means that the fuel ran out first.
  unfoldable pub drain : ℕ → Executor W → Orchestrator × Run W → Option (Orchestrator × Run W)
  drain zero on_effect (o, run) = none
  drain (suc fuel) on_effect (o, run) = elim run.pending [
    | [] ↦ some (o, run)
    | event ∷ pending ↦
        drain fuel on_effect (settle_event on_effect event (o, record run { pending = pending }))
  ]

  -- `Orchestrator::dispatch_with`
  unfoldable pub dispatch_with :
      ℕ → Orchestrator → Event → Executor W → W → Option (Orchestrator × Run W)
  unfolding drain
  dispatch_with fuel o event on_effect world =
      drain fuel on_effect
        (o, record { world = world; pending = event ∷ []; failed = false; log = [] })

-- A history of events, each settled by one step; the trace is what the steps put into their sinks.
unfoldable pub run_events : Orchestrator → List Event → Orchestrator
run_events o [] = o
run_events o (event ∷ events) = run_events (step o event).0 events

unfoldable pub trace : Orchestrator → List Event → List Effect
trace o [] = []
trace o (event ∷ events) = (step o event).1 ++ trace (step o event).0 events
