-- ===== src/Sm/Budget.antt =====
-- How many effects a handler emits (services/orchestrator/sm/src/lib.rs, the comment of `Sink`):
-- the part that corruption and the walk can cost.
pub mod Handlers
pub mod Step
use openprot.Prelude.{
  ℕ, suc, ◌+◌, ◌*◌, ◌≤◌, ◌≡◌, refl, ◌⊎◌, inl, inr, List, [], ◌++◌, arith, length, length-append,
  append-nil, Bool-cases,
}
use openprot.Sm.Model.{
  ComponentId, Effect, State, pre_supervision, awaiting_ready, ready, updating, recovering, locked,
}
use openprot.Sm.Rot.{
  Rot, Outcome, handled, transition, super, cursor_id, advance_to_next_ungated, clear_retry_status,
}
use openprot.Sm.Rot.Soundness.{
  IsSound, IsMember, in_service, in_service-le-length, in_service-change,
}
use openprot.Sm.Gating.{
  handle_corruption, handle_corruption_advancing, exhaust_recovery, id_gated, step_over,
}
use openprot.Sm.Gating.Policy.{handle_corruption-cases, exhaust_recovery-cases}
use openprot.Sm.Walk.{IsWalking}
use openprot.Sm.Walk.Advance.{advance-Advances}
use openprot.Sm.Invariant.{IsBased, IsBased-framed}
use openprot.Sm.Invariant.Corruption.{Gates-down}

-- What may be in the sink when a handler has come to an outcome, so that the entry action still
-- fits.
abbrev pub IsWithin : ℕ → Rot → List Effect → Outcome → Type 0
IsWithin n r es (transition pre_supervision) = length es + 2 * in_service r.statuses ≤ 2 * n
IsWithin n r es (transition ready) = length es ≤ 2 * n + 2
IsWithin n r es (transition (awaiting_ready _)) = length es ≤ 2 * n + 2
IsWithin n r es (transition State.power_on_reset) = length es ≤ 2 * n + 2
IsWithin n r es (transition updating) = length es ≤ 2
IsWithin n r es (transition (recovering _)) = length es ≤ 2
IsWithin n r es (transition locked) = length es ≤ 2
IsWithin n r es handled = length es ≤ 2 * n + 2
IsWithin n r es super = length es ≤ 0

pub in_service-le-capacity :
    (r : Rot) → IsBased r → IsSound r → in_service r.statuses ≤ r.chain_capacity
in_service-le-capacity r b v = omega (arith, in_service-le-length r.statuses, v.parallel, b.roomy)

pub capacity_pos : (r : Rot) → IsBased r → 1 ≤ r.chain_capacity
capacity_pos r b = omega (arith, b.valid.nonempty, b.roomy)

-- A corruption is contained for two effects a component, or starts a recovery for none.
abbrev pub Contained : ℕ → ComponentId → Rot → Rot × List Effect × Outcome → Type 0
Contained n id r res =
    ((length res.1 ≤ 2 * n) × ((res.2 ≡ handled) ⊎ (res.2 ≡ transition ready)))
    ⊎ (res ≡ (r, [], transition (recovering id)))

step_over-outcome :
    (r : Rot) → ((step_over handled r).2 ≡ handled) ⊎ ((step_over handled r).2 ≡ transition ready)
unfolding step_over
step_over-outcome r = elim (Bool-cases (id_gated r (cursor_id r))) [
  | inr n ↦ inl (rw (n, step_over))
  | inl g ↦ elim (Bool-cases (advance_to_next_ungated (suc r.cursor) r).2) [
    | inl f ↦ inl (rw (g, step_over, f))
    | inr f ↦ inr (rw (g, step_over, f))
  ]
]

module _ (id : ComponentId) (r : Rot) (b : IsBased r) (v : IsSound r)
    (m : IsMember r.chain id) where
  pub handle_corruption-Contained : Contained r.chain_capacity id r (handle_corruption id r)
  handle_corruption-Contained = elim (handle_corruption-cases id r v m b.roomy) [
    | inl (e, g, h) ↦ inl (omega (arith, g.spends, in_service-le-capacity r b v), inl e)
    | inr (e, u, q) ↦ inr e
  ]

  pub handle_corruption_advancing-Contained :
      IsWalking r → Contained r.chain_capacity id r (handle_corruption_advancing id r)
  unfolding handle_corruption_advancing step_over
  handle_corruption_advancing-Contained w = elim (handle_corruption-cases id r v m b.roomy) [
    | inl (e, g, h) ↦
        let s = (handle_corruption id r).0 in
        let b1 = IsBased-framed b g.framed in
        let a =
          advance-Advances (suc s.cursor) s g.sound b1.valid.unique b1.valid.indexable (
            Gates-down g (suc s.cursor)
              (λ j k p h. w.ahead j k p (omega (arith, g.cursor_kept)))) in
        rw e (
          inl (
            ground (
              arith,
              length-append (handle_corruption id r).1
                  ((advance_to_next_ungated (suc s.cursor) s).1 ++ []),
              append-nil (advance_to_next_ungated (suc s.cursor) s).1,
              append-nil (handle_corruption id r).1,
              g.spends,
              a.affordable,
              in_service-le-capacity r b v,
            ),
            step_over-outcome s,
          ))
    | inr (e, u, q) ↦ inr (rw e)
  ]

  pub exhaust_recovery-IsWithin :
      IsWithin r.chain_capacity
        (exhaust_recovery id r).0
        (exhaust_recovery id r).1
        (exhaust_recovery id r).2
  exhaust_recovery-IsWithin = elim (exhaust_recovery-cases id r v m b.roomy) [
    | inl (e, (t, c, x)) ↦ rw e (
        rw x (
          omega (
            arith,
            c.gates.spends,
            in_service-change t.chain t.statuses id clear_retry_status (λ s. refl),
            in_service-le-capacity r b v,
          )))
    | inr (e, q) ↦ rw e (omega (arith, capacity_pos r b))
  ]
