-- ===== src/Sm/Gating.antt =====
-- services/orchestrator/sm/src/lib.rs: taking components out of service (`cascade_hold`,
-- `gate_by_policy`, `exhaust_recovery`, `handle_corruption`, `handle_corruption_advancing`).
pub mod Gates
pub mod Frontier
pub mod Cascade
pub mod Policy
use openprot.Prelude.{
  ℕ, zero, suc, Bool, false, ◌&&◌, not, Option, none, some, List, [], ◌∷◌, if◌then◌else◌,
  is_some_of, get_elem?, push_within, contains,
}
use openprot.Sm.Model.{
  ComponentId, ComponentAttrs, isolable, cascading, required, Entry, recovery_failed,
  pre_supervision, recovering, ready, report_recovery_failed, emit,
}
use openprot.Sm.Rot.{
  ◌>>=◌, ◌>>◌, Outcome, handled, transition, Gating, gated, not_gated, Rot, Act, pure, gets,
  ctx_emit, change, find_attrs, is_gated, gate_one, clear_retry, cursor_id, advance_to_next_ungated,
}

-- The inner loop of `cascade_hold`: the components that depend on `holder` and are not on the
-- frontier, pushed to a vector of capacity `n`.
unfoldable pub collect_dependents :
    ℕ → ComponentId → List ComponentId → List Entry → List ComponentId → List ComponentId
collect_dependents n holder frontier [] dependents = dependents
collect_dependents n holder frontier ((id, attrs) ∷ chain) dependents =
    collect_dependents n holder frontier chain (
      if is_some_of holder attrs.depends_on && not (contains frontier id)
      then push_within n dependents id
      else dependents)

-- `for id in dependents { self.gate_one(ctx, id); frontier.push(id) }`; the result is the frontier.
unfoldable pub gate_dependents : ℕ → List ComponentId → List ComponentId → Act (List ComponentId)
gate_dependents n [] frontier = pure frontier
gate_dependents n (id ∷ rest) frontier = do
  gate_one id
  gate_dependents n rest (push_within n frontier id)

-- `while let Some(&holder) = frontier.get(i)`. The frontier never holds more than its capacity, so
-- that many rounds are all.
unfoldable pub cascade_loop : ℕ → ℕ → List ComponentId → Act (List ComponentId)
cascade_loop zero i frontier = pure frontier
cascade_loop (suc fuel) i frontier = elim (get_elem? frontier i) [
  | none ↦ pure frontier
  | some holder ↦ do
    r ← gets (λ r. r)
    frontier' ←
        gate_dependents r.chain_capacity
          (collect_dependents r.chain_capacity holder frontier r.chain []) frontier
    cascade_loop fuel (suc i) frontier'
]

-- `Rot::cascade_hold`; the result is the frontier at the end, which the source drops.
unfoldable pub cascade_hold : ComponentId → Act (List ComponentId)
cascade_hold root = do
  gate_one root
  r ← gets (λ r. r)
  cascade_loop r.chain_capacity 0 (push_within r.chain_capacity [] root)

unfoldable pub gate_attrs : Option ComponentAttrs → ComponentId → Act Gating
gate_attrs none id = pure not_gated
gate_attrs (some attrs) id = elim attrs.failure_policy [
  | cascading ↦ do cascade_hold id; pure gated
  | isolable ↦ do gate_one id; pure gated
  | required ↦ pure not_gated
]

-- `Rot::gate_by_policy`
unfoldable pub gate_by_policy : ComponentId → Act Gating
unfolding gate_attrs
gate_by_policy id = do attrs ← gets (λ r. find_attrs r.chain id); gate_attrs attrs id

unfoldable pub exhausted : ComponentId → Gating → Act Outcome
exhausted failed gated = do change (clear_retry failed); pure (transition pre_supervision)
exhausted failed not_gated = do
  ctx_emit (report_recovery_failed failed)
  ctx_emit (emit recovery_failed)
  pure handled

-- `Rot::exhaust_recovery`
unfoldable pub exhaust_recovery : ComponentId → Act Outcome
unfolding exhausted
exhaust_recovery failed = do g ← gate_by_policy failed; exhausted failed g

corrupted : ComponentId → Gating → Outcome
corrupted id gated = handled
corrupted id not_gated = transition (recovering id)

-- `Rot::handle_corruption`
unfoldable pub handle_corruption : ComponentId → Act Outcome
unfolding corrupted
handle_corruption id = do
  r ← gets (λ r. r)
  if is_gated r id then pure handled else do g ← gate_by_policy id; pure (corrupted id g)

abbrev pub id_gated : Rot → Option ComponentId → Bool
id_gated r none = false
id_gated r (some id) = is_gated r id

-- The walk goes on behind a component that was gated while it was under verification.
unfoldable pub step_over : Outcome → Act Outcome
step_over handled = do
  r ← gets (λ r. r)
  if not (id_gated r (cursor_id r)) then pure handled else do
    found ← advance_to_next_ungated (suc r.cursor)
    pure (if found then handled else transition ready)
step_over outcome = pure outcome

-- `Rot::handle_corruption_advancing`
unfoldable pub handle_corruption_advancing : ComponentId → Act Outcome
unfolding step_over
handle_corruption_advancing id = do outcome ← handle_corruption id; step_over outcome
