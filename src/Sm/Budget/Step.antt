-- ===== src/Sm/Budget/Step.antt =====
-- No effect of a step is lost: the sink of `Orchestrator::step` never overflows
-- (services/orchestrator/sm/src/lib.rs).
use openprot.Prelude.{
  subst, ℕ, suc, ◌+◌, ◌*◌, ◌≤◌, ◌≡◌, sym, ◌∙◌, ap, inl, inr, List, [], ◌∷◌, ◌++◌, arith, length,
  length-append, append-nil, append_assoc, Bool-cases, push_within,
}
use openprot.Sm.Model.{
  Event, Effect, State, power_on_reset, pre_supervision, awaiting_ready, ready, updating,
  recovering, locked,
}
use openprot.Sm.Rot.{Rot, Outcome, handled, transition, super, quiesce_all, advance_to_next_ungated}
use openprot.Sm.Rot.Soundness.{IsSound, IsMember, in_service}
use openprot.Sm.Handlers.{handle, handle_supervising, entry_action}
use openprot.Sm.Engine.{
  Orchestrator, is_supervised, supervise, apply_outcome, react, is_modelled, emitted, emit_all,
  step,
}
use openprot.Sm.Walk.Advance.{advance-Advances}
use openprot.Sm.Walk.Quiesce.{quiesce_all-Quiesces}
use openprot.Sm.Invariant.{IsBased, IsBased-framed, StateOk, Inv}
use openprot.Sm.Invariant.Leaf.{handle-Handles}
use openprot.Sm.Invariant.Leaf.Boot.{IsModelled}
use openprot.Sm.Invariant.Supervisor.{dispatched-Handles}
use openprot.Sm.Invariant.Step.{is_modelled-IsModelled}
use openprot.Sm.Budget.{IsWithin, capacity_pos}
use openprot.Sm.Budget.Handlers.{handle-Fits, handle_supervising-Fits}

pre_supervision-length :
    (r : Rot)
    → IsBased r
    → IsSound r
    → length (entry_action pre_supervision r).1 ≤ in_service r.statuses + 2
unfolding entry_action
pre_supervision-length r b v =
    let q = quiesce_all-Quiesces r v b.valid.unique in
    let r1 = (quiesce_all r).0 in
    let b1 = IsBased-framed b q.evolves.framed in
    let a =
      advance-Advances 0 r1 q.evolves.sound b1.valid.unique b1.valid.indexable
        (λ id k p le. q.down id) in
    omega (
      arith,
      length-append (quiesce_all r).1 ((advance_to_next_ungated 0 r1).1 ++ []),
      ap length (append-nil (advance_to_next_ungated 0 r1).1),
      a.short,
      q.affordable,
    )

-- The handler's effects and those of the entry action together.
apply-length :
    (n : ℕ) (state : State) (r : Rot) (es : List Effect) (outcome : Outcome)
    → 1 ≤ n
    → IsBased r
    → IsSound r
    → IsWithin n r es outcome
    → length es + length (apply_outcome state outcome r).1 ≤ 2 * n + 2
unfolding apply_outcome
apply-length n state r es handled p b v h = omega arith
apply-length n state r es super p b v h = omega arith
apply-length n state r es (transition pre_supervision) p b v h =
    omega (
      arith,
      pre_supervision-length r b v,
      ap length (append-nil (entry_action pre_supervision r).1),
    )
apply-length n state r es (transition ready) p b v h = unfold entry_action in omega arith
apply-length n state r es (transition (awaiting_ready a)) p b v h =
    unfold entry_action in omega arith
apply-length n state r es (transition power_on_reset) p b v h = unfold entry_action in omega arith
apply-length n state r es (transition updating) p b v h = unfold entry_action in omega arith
apply-length n state r es (transition (recovering id)) p b v h = unfold entry_action in omega arith
apply-length n state r es (transition locked) p b v h = unfold entry_action in omega arith

IsWithin-prefix :
    (n : ℕ) (r : Rot) (es fs : List Effect) (outcome : Outcome)
    → length es ≤ 0
    → IsWithin n r fs outcome
    → IsWithin n r (es ++ fs) outcome
IsWithin-prefix n r [] fs outcome h k = k
IsWithin-prefix n r (e ∷ es) fs outcome h k = absurd (omega arith)

-- Both levels of dispatch together are within the budget.
dispatched-IsWithin :
    (state : State) (event : Event) (r : Rot) (s : Rot) (es : List Effect) (outcome : Outcome)
    → r.chain_capacity ≡ s.chain_capacity
    → IsBased s
    → IsSound s
    → IsModelled s event
    → IsWithin r.chain_capacity s es outcome
    → let res = supervise state event outcome s in
      IsWithin r.chain_capacity res.0 (es ++ res.1) res.2
unfolding supervise
dispatched-IsWithin state event r s es handled c b v m h = rw (append-nil es) h
dispatched-IsWithin state event r s es (transition t) c b v m h =
    subst (λ fs. IsWithin r.chain_capacity s fs (transition t)) (sym (append-nil es)) h
dispatched-IsWithin state event r s es super c b v m h = elim (Bool-cases (is_supervised state)) [
  | inr n ↦ rw n (rw (append-nil es) h)
  | inl y ↦ rw y (
      IsWithin-prefix r.chain_capacity (handle_supervising event s).0 es
        (handle_supervising event s).1 (handle_supervising event s).2 h
        (rw c (handle_supervising-Fits event s b v m)))
]

react-length :
    (state : State) (event : Event) (r : Rot)
    → IsBased r
    → IsSound r
    → StateOk state r
    → IsModelled r event
    → length (react state event r).1 ≤ 2 * r.chain_capacity + 2
unfolding react
react-length state event r b v s m =
    let leaf = handle state event r in
    let h = handle-Handles state event r b v s m in
    let res = supervise state event leaf.2 leaf.0 in
    let d = dispatched-Handles state event r b v s m in
    omega (
      arith,
      length-append leaf.1 (res.1 ++ (apply_outcome state res.2 res.0).1),
      length-append res.1 (apply_outcome state res.2 res.0).1,
      length-append leaf.1 res.1,
      apply-length r.chain_capacity state res.0 (leaf.1 ++ res.1) res.2 (capacity_pos r b)
          (IsBased-framed b d.evolves.framed) d.evolves.sound
          (dispatched-IsWithin state event r leaf.0 leaf.1 leaf.2
            (sym h.evolves.framed.capacity_kept) (IsBased-framed b h.evolves.framed) h.evolves.sound
            (λ id e. subst (λ c. IsMember c id) (sym h.evolves.framed.chain_kept) (m id e))
            (handle-Fits state event r b v s m)),
    )

-- A step emits at most 2 N + 2 effects.
pub emitted-length :
    (o : Orchestrator) (event : Event)
    → Inv o
    → length (emitted o event) ≤ 2 * o.rot.chain_capacity + 2
unfolding emitted
emitted-length o event i = elim (Bool-cases (is_modelled o.rot event)) [
  | inr n ↦ rw n (omega arith)
  | inl y ↦ rw y (
      react-length o.state event o.rot i.based i.sound i.state_ok
        (is_modelled-IsModelled o.rot event y))
]

emit_all-fits :
    (e : ℕ) (sink es : List Effect) → length sink + length es ≤ e → emit_all e sink es ≡ sink ++ es
unfolding emit_all
emit_all-fits e sink [] h = sym (append-nil sink)
emit_all-fits e sink (x ∷ es) h = rw (pushed (omega arith)) (
    emit_all-fits e (sink ++ x ∷ []) es (omega (arith, length-append sink (x ∷ [])))
    ∙ append_assoc sink (x ∷ []) es)
  where
    pushed : suc (length sink) ≤ e → push_within e sink x ≡ sink ++ x ∷ []
    pushed k = ground arith

-- For a machine that satisfies the invariant, for every event: the sink of the step, of capacity
-- E, holds every effect that the step emits, in order, and so none is lost.
pub step-emitted : (o : Orchestrator) (event : Event) → Inv o → (step o event).1 ≡ emitted o event
unfolding step
step-emitted o event i =
    emit_all-fits o.rot.effect_capacity [] (emitted o event)
      (omega (arith, emitted-length o event i, i.based.buffered))
