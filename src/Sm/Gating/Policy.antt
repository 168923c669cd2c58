-- ===== src/Sm/Gating/Policy.antt =====
-- What the failure policies do (services/orchestrator/sm/src/lib.rs): `gate_by_policy`,
-- `exhaust_recovery` and `handle_corruption`.
use openprot.Prelude.{
  subst, append-nil, ◌≤◌, ◌≡◌, refl, sym, true, false, ◌⊎◌, inl, inr, Option, none, some, List, [],
  ◌∷◌, length, Bool-cases, Option-cases,
}
use openprot.Sm.Model.{
  FailurePolicy, ComponentId, ComponentAttrs, Effect, recovery_failed, required, isolable,
  cascading, report_recovery_failed, emit, pre_supervision, recovering,
}
use openprot.Sm.Rot.{
  Rot, handled, transition, gated, not_gated, is_gated, find_attrs, gate_one, clear_retry,
}
use openprot.Sm.Rot.Soundness.{IsSound, IsMember}
use openprot.Sm.Gating.{
  gate_attrs, cascade_hold, gate_by_policy, exhaust_recovery, handle_corruption,
}
use openprot.Sm.Gating.Gates.{Gates-refl, Gates, gate_one-Gates, gate_one-is_gated}
use openprot.Sm.Gating.Cascade.{itself}
use openprot.Sm.Gating.Cascade.Exact.{cascade_hold-HoldsExactly}

-- What gating a component comes to: it is out of service, as far as its policy reaches.
pub record Contains (id : ComponentId) (r : Rot) (es : List Effect) (r' : Rot) : Type 0 where
  pub gates : Gates r es r'
  pub gated : is_gated r' id ≡ true

-- The storage and the sink of a method, its result apart.
abbrev pub IsRequired : Option ComponentAttrs → Type 0
IsRequired none = Unit
IsRequired (some attrs) = attrs.failure_policy ≡ required

module _ (id : ComponentId) (r : Rot) (v : IsSound r) (m : IsMember r.chain id)
    (h : length r.chain ≤ r.chain_capacity) where
  gate_one-Contains : Contains id r (gate_one id r).1 (gate_one id r).0
  gate_one-Contains = record { gates = gate_one-Gates id r v m; gated = gate_one-is_gated id r v m }

  cascade_hold-Contains : Contains id r (cascade_hold id r).1 (cascade_hold id r).0
  cascade_hold-Contains =
      let x = cascade_hold-HoldsExactly id r v m h in
      record { gates = x.gates; gated = x.held id itself }

  abbrev pub Cases : Option ComponentAttrs → Type 0
  Cases attrs =
      ((gate_by_policy id r).2 ≡ gated)
        × Contains id r (gate_by_policy id r).1 (gate_by_policy id r).0
      ⊎ (gate_by_policy id r ≡ (r, [], not_gated)) × IsRequired attrs

  by_policy :
      (attrs : ComponentAttrs) (policy : FailurePolicy)
      → find_attrs r.chain id ≡ some attrs
      → attrs.failure_policy ≡ policy
      → Cases (some attrs)
  unfolding gate_by_policy
  by_policy attrs cascading e p =
      rw (e, p, gate_attrs)
        (inl (refl, rw (append-nil (cascade_hold id r).1) cascade_hold-Contains))
  by_policy attrs isolable e p =
      rw (e, p, gate_attrs) (inl (refl, rw (append-nil (gate_one id r).1) gate_one-Contains))
  by_policy attrs required e p = rw (e, p, gate_attrs) (inr (refl, refl))

  unknown : find_attrs r.chain id ≡ none → Cases none
  unfolding gate_by_policy
  unknown e = inr (rw e refl, tt)

  -- A component is gated, unless it is required or unknown: then nothing changes.
  pub gate_by_policy-Cases : Cases (find_attrs r.chain id)
  gate_by_policy-Cases = elim (Option-cases (find_attrs r.chain id)) [
    | inl e ↦ subst Cases (sym e) (unknown e)
    | inr (attrs, e) ↦ subst Cases (sym e) (by_policy attrs attrs.failure_policy e refl)
  ]

  pub handle_corruption-cases :
      ((handle_corruption id r).2 ≡ handled)
        × Gates r (handle_corruption id r).1 (handle_corruption id r).0
        × (is_gated (handle_corruption id r).0 id ≡ true)
      ⊎ (handle_corruption id r ≡ (r, [], transition (recovering id)))
        × (is_gated r id ≡ false)
        × IsRequired (find_attrs r.chain id)
  unfolding handle_corruption
  handle_corruption-cases = elim (Bool-cases (is_gated r id)) [
    | inl g ↦ rw (g, handle_corruption) (inl (refl, Gates-refl r v, g))
    | inr n ↦ elim gate_by_policy-Cases [
      | inl (e, c) ↦
          rw n (rw e (inl (refl, rw (append-nil (gate_by_policy id r).1) c.gates, c.gated)))
      | inr (e, q) ↦ rw n (rw e (inr (refl, refl, q)))
    ]
  ]

  pub exhaust_recovery-cases :
      ((exhaust_recovery id r).2 ≡ transition pre_supervision)
        × ((s : Rot) × Contains id r (exhaust_recovery id r).1 s
            × ((exhaust_recovery id r).0 ≡ clear_retry id s))
      ⊎ (exhaust_recovery id r
          ≡ (r, report_recovery_failed id ∷ emit recovery_failed ∷ [], handled))
        × IsRequired (find_attrs r.chain id)
  unfolding exhaust_recovery
  exhaust_recovery-cases = elim gate_by_policy-Cases [
    | inl (e, c) ↦
        rw e
          (inl (refl, ((gate_by_policy id r).0, rw (append-nil (gate_by_policy id r).1) c, refl)))
    | inr (e, q) ↦ rw e (inr (refl, q))
  ]
