-- ===== src/Sm/Invariant/Step.antt =====
-- Every event keeps the invariant, and the effects of a step are allowed to every component
-- (services/orchestrator/sm/src/lib.rs, `Orchestrator::step`).
use openprot.Prelude.{
  ◌≡◌, inl, inr, true, List, ◌++◌, arith, append-nil, append_assoc, Bool-cases, Option-cases,
}
use openprot.Sm.Model.{Event, Effect, State, position}
use openprot.Sm.Rot.{Rot, Outcome, handled, transition, super, in_chain}
use openprot.Sm.Handlers.{handle, entry_action}
use openprot.Sm.Engine.{Orchestrator, supervise, apply_outcome, react, is_modelled, emitted, after}
use openprot.Sm.Rot.Soundness.{IsSound}
use openprot.Sm.Walk.{Evolves, Evolves-refl, Evolves-trans}
use openprot.Sm.Invariant.{IsBased, IsBased-framed, StateOk, OutcomeOk, Inv}
use openprot.Sm.Invariant.Leaf.Boot.{IsModelled}
use openprot.Sm.Invariant.Supervisor.{dispatched-Handles}
use openprot.Sm.Invariant.Arrival.{entry_action-Arrives}

pub is_modelled-IsModelled :
    (r : Rot) (event : Event) → is_modelled r event ≡ true → IsModelled r event
unfolding is_modelled in_chain
is_modelled-IsModelled r event h id e = elim (Option-cases (position r.chain id)) [
  | inl n ↦ absurd (ground arith)
  | inr (i, p) ↦ (i, p)
]

-- What a step does, after the membership test.
record Reacts (state : State) (r : Rot) (res : Rot × List Effect × State) : Type 0 where
  evolves : Evolves r res.1 res.0
  state_ok : StateOk res.2 res.0

apply-Reacts :
    (state : State) (r : Rot) (outcome : Outcome)
    → IsBased r
    → IsSound r
    → OutcomeOk state r outcome
    → Reacts state r (apply_outcome state outcome r)
unfolding apply_outcome
apply-Reacts state r (transition target) b v s =
    let x = entry_action-Arrives target r b v s in
    record { evolves = rw (append-nil (entry_action target r).1) x.evolves; state_ok = x.state_ok }
apply-Reacts state r handled b v s = record { evolves = Evolves-refl r v; state_ok = s }
apply-Reacts state r super b v s = record { evolves = Evolves-refl r v; state_ok = s }

react-Reacts :
    (state : State) (event : Event) (r : Rot)
    → IsBased r
    → IsSound r
    → StateOk state r
    → IsModelled r event
    → Reacts state r (react state event r)
unfolding react
react-Reacts state event r b v s m =
    let leaf = handle state event r in
    let res = supervise state event leaf.2 leaf.0 in
    let d = dispatched-Handles state event r b v s m in
    let x =
      apply-Reacts state res.0 res.2 (IsBased-framed b d.evolves.framed) d.evolves.sound
        d.outcome in
    record {
      evolves =
          rw (← append_assoc leaf.1 res.1 (apply_outcome state res.2 res.0).1)
            (Evolves-trans (leaf.1 ++ res.1) _ d.evolves x.evolves);
      state_ok = x.state_ok;
    }

-- A step keeps the invariant.
pub after-Inv : (o : Orchestrator) (event : Event) → Inv o → Inv (after o event)
unfolding after
after-Inv o event i = elim (Bool-cases (is_modelled o.rot event)) [
  | inr n ↦ rw n i
  | inl y ↦
      let x =
        react-Reacts o.state event o.rot i.based i.sound i.state_ok
          (is_modelled-IsModelled o.rot event y) in
      rw y (record {
        based = IsBased-framed i.based x.evolves.framed;
        sound = x.evolves.sound;
        state_ok = x.state_ok;
      })
]

-- The effects of a step move every component along its life cycle, to what the machine records.
pub emitted-Evolves :
    (o : Orchestrator) (event : Event) → Inv o → Evolves o.rot (emitted o event) (after o event).rot
unfolding after emitted
emitted-Evolves o event i = elim (Bool-cases (is_modelled o.rot event)) [
  | inr n ↦ rw n (Evolves-refl o.rot i.sound)
  | inl y ↦
      rw y
        (react-Reacts o.state event o.rot i.based i.sound i.state_ok
          (is_modelled-IsModelled o.rot event y)).evolves
]
