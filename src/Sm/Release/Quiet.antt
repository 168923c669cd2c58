-- ===== src/Sm/Release/Quiet.antt =====
-- The methods that take components out of service, and the entry actions, let nothing out of reset (services/orchestrator/sm/src/lib.rs).

use openprot.Sm.Handlers.{entry_action}
use openprot.Sm.Gating.{
  exhausted, id_gated, gate_attrs, step_over, cascade_hold, exhaust_recovery, handle_corruption,
  handle_corruption_advancing, gate_by_policy, cascade_loop, gate_dependents,
}
use openprot.Prelude.{
  drop, push_within, get_elem?, ℕ, suc, ◌≡◌, refl, ap, inl, inr, some, List, [], ◌∷◌, ◌++◌,
  Bool-cases, Option-cases, zero, append-nil,
}
use openprot.Sm.Model.{
  FailurePolicy, cascading, isolable, required, recovering, awaiting_ready, FailurePolicy,
  ComponentId, ComponentAttrs, Entry, Effect, release_reset, State, power_on_reset, pre_supervision,
  ready, updating, locked,
}
use openprot.Sm.Rot.{
  Gating, gated, not_gated, Outcome, handled, transition, super, transition, find_attrs,
  quiesce_all, Outcome, ComponentStatus, quiesce_effects, advance_to_next_ungated, advance_from,
  is_gated, gate_one, Rot, cursor_id,
}

-- The components that a list of effects lets out of reset.
unfoldable pub releases : List Effect → List ComponentId
releases [] = []
releases (release_reset id ∷ es) = id ∷ releases es
releases (_ ∷ es) = releases es

pub releases-append : (es fs : List Effect) → releases (es ++ fs) ≡ releases es ++ releases fs
unfolding releases
releases-append [] fs = refl
releases-append (release_reset id ∷ es) fs = ap (◌∷◌ id) (releases-append es fs)
releases-append (_ ∷ es) fs = releases-append es fs

gate_one-releases : (id : ComponentId) (r : Rot) → releases (gate_one id r).1 ≡ []
unfolding gate_one releases
gate_one-releases id r = elim (Bool-cases (is_gated r id)) [ inl y ↦ rw y refl | inr n ↦ rw n refl ]

gate_dependents-releases :
    (n : ℕ) (ids frontier : List ComponentId) (r : Rot)
    → releases (gate_dependents n ids frontier r).1 ≡ []
unfolding gate_dependents releases
gate_dependents-releases n [] frontier r = refl
gate_dependents-releases n (id ∷ ids) frontier r =
    simp (
      releases-append,
      gate_one-releases,
      gate_dependents-releases n ids (push_within n frontier id),
    )

cascade_loop-releases :
    (fuel i : ℕ) (frontier : List ComponentId) (r : Rot)
    → releases (cascade_loop fuel i frontier r).1 ≡ []
unfolding cascade_loop releases
cascade_loop-releases zero i frontier r = refl
cascade_loop-releases (suc fuel) i frontier r = elim (Option-cases (get_elem? frontier i)) [
  | inl n ↦ rw (n, cascade_loop) refl
  | inr (holder, s) ↦
      rw (s, cascade_loop)
        (simp (releases-append, gate_dependents-releases, cascade_loop-releases fuel))
]

cascade_hold-releases : (id : ComponentId) (r : Rot) → releases (cascade_hold id r).1 ≡ []
unfolding cascade_hold releases
cascade_hold-releases id r = simp (releases-append, gate_one-releases, cascade_loop-releases)

gate_by_policy-releases : (id : ComponentId) (r : Rot) → releases (gate_by_policy id r).1 ≡ []
unfolding gate_by_policy releases
gate_by_policy-releases id r = elim (Option-cases (find_attrs r.chain id)) [
  | inl n ↦ rw (n, gate_by_policy) refl
  | inr (attrs, s) ↦ rw s (by_policy attrs attrs.failure_policy refl)
]
  where
    by_policy :
        (attrs : ComponentAttrs) (policy : FailurePolicy)
        → attrs.failure_policy ≡ policy
        → releases (gate_attrs (some attrs) id r).1 ≡ []
    by_policy attrs cascading e = rw (e, gate_attrs) (simp (releases-append, cascade_hold-releases))
    by_policy attrs isolable e = rw (e, gate_attrs) (simp (releases-append, gate_one-releases))
    by_policy attrs required e = rw (e, gate_attrs) refl

exhausted-releases : (id : ComponentId) (g : Gating) (r : Rot) → releases (exhausted id g r).1 ≡ []
unfolding exhausted releases
exhausted-releases id gated r = refl
exhausted-releases id not_gated r = refl

pub exhaust_recovery-releases :
    (id : ComponentId) (r : Rot) → releases (exhaust_recovery id r).1 ≡ []
unfolding exhaust_recovery releases
exhaust_recovery-releases id r =
    simp (releases-append, gate_by_policy-releases, exhausted-releases id)

pub handle_corruption-releases :
    (id : ComponentId) (r : Rot) → releases (handle_corruption id r).1 ≡ []
unfolding handle_corruption releases
handle_corruption-releases id r = elim (Bool-cases (is_gated r id)) [
  | inl y ↦ rw (y, handle_corruption) refl
  | inr n ↦ rw (n, handle_corruption) (simp (releases-append, gate_by_policy-releases))
]

advance_from-releases :
    (chain : List Entry) (idx : ℕ) (r : Rot) → releases (advance_from chain idx r).1 ≡ []
unfolding advance_from releases
advance_from-releases [] idx r = refl
advance_from-releases ((id, attrs) ∷ chain) idx r = elim (Bool-cases (is_gated r id)) [
  | inl y ↦ rw (y, advance_from) (advance_from-releases chain (suc idx) r)
  | inr n ↦ rw (n, advance_from) refl
]

pub advance-releases : (start : ℕ) (r : Rot) → releases (advance_to_next_ungated start r).1 ≡ []
unfolding advance_to_next_ungated
advance-releases start r = advance_from-releases (drop start r.chain) start r

step_over-releases : (outcome : Outcome) (r : Rot) → releases (step_over outcome r).1 ≡ []
unfolding step_over releases
step_over-releases handled r = elim (Bool-cases (id_gated r (cursor_id r))) [
  | inl y ↦ rw (y, step_over) (simp (releases-append, advance-releases))
  | inr n ↦ rw (n, step_over) refl
]
step_over-releases (transition t) r = refl
step_over-releases super r = refl

pub advancing-releases :
    (id : ComponentId) (r : Rot) → releases (handle_corruption_advancing id r).1 ≡ []
unfolding handle_corruption_advancing
advancing-releases id r = simp (releases-append, handle_corruption-releases, step_over-releases)

quiesce_effects-releases :
    (chain : List Entry) (statuses : List ComponentStatus)
    → releases (quiesce_effects chain statuses) ≡ []
unfolding quiesce_effects releases
quiesce_effects-releases [] statuses = refl
quiesce_effects-releases (e ∷ chain) [] = refl
quiesce_effects-releases ((id, attrs) ∷ chain) (s ∷ statuses) = elim (Bool-cases s.released) [
  | inl y ↦ rw (y, quiesce_effects) (quiesce_effects-releases chain statuses)
  | inr n ↦ rw (n, quiesce_effects) (quiesce_effects-releases chain statuses)
]

pub entry_action-releases : (state : State) (r : Rot) → releases (entry_action state r).1 ≡ []
unfolding entry_action quiesce_all releases
entry_action-releases pre_supervision r =
    simp (releases-append, quiesce_effects-releases, advance-releases, append-nil)
entry_action-releases power_on_reset r = refl
entry_action-releases (awaiting_ready a) r = refl
entry_action-releases ready r = refl
entry_action-releases updating r = refl
entry_action-releases (recovering id) r = refl
entry_action-releases locked r = refl
