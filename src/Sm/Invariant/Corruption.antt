-- ===== src/Sm/Invariant/Corruption.antt =====
-- Corruption and exhausted recovery keep the invariant (services/orchestrator/sm/src/lib.rs).
use openprot.Prelude.{
  subst, ℕ, suc, ◌≤◌, ◌≡◌, refl, sym, ◌∙◌, ap, inl, inr, Bool, true, false, some, List, [], ◌∷◌,
  ◌++◌, arith, length, append-nil, Bool-cases, if◌then◌else◌,
}
use openprot.Sm.Model.{
  ComponentId, Effect, State, pre_supervision, awaiting_ready, ready, locked, position,
  report_recovery_failed, emit, recovery_failed,
}
use openprot.Sm.Rot.{
  Rot, Outcome, handled, transition, cursor_id, clear_retry, clear_retry_status,
  advance_to_next_ungated,
}
use openprot.Sm.Rot.Soundness.{IsSound, IsMember}
use openprot.Sm.Gating.{
  handle_corruption, handle_corruption_advancing, exhaust_recovery, id_gated, step_over,
}
use openprot.Sm.Gating.Gates.{Gates}
use openprot.Sm.Gating.Policy.{handle_corruption-cases, exhaust_recovery-cases}
use openprot.Sm.Lifecycle.{obey, phase}
use openprot.Sm.Walk.{
  Evolves, Evolves-refl, Evolves-trans, Gates-Evolves, IsWalking, IsDown, IsDownFrom,
}
use openprot.Sm.Walk.Advance.{Advances, advance-Advances}
use openprot.Sm.Walk.Changes.{IsSilent, update-Evolves}
use openprot.Sm.Invariant.{
  IsBased, IsBased-framed, IsWindowShut, StateOk, OutcomeOk, Handles, stays, Handles-after,
  neutral-Evolves,
}

pub clear_retry-IsSilent : IsSilent clear_retry_status
clear_retry-IsSilent = record { same_phase = λ s. refl; coherent = λ s h. ground arith }

-- Taking components out of service starts none.
pub Gates-down :
    {r r' : Rot} {es : List Effect} → Gates r es r' → (i : ℕ) → IsDownFrom i r → IsDownFrom i r'
Gates-down {r} {r'} g i d id k p le = elim (g.lowers id) [
  | inl same ↦
      subst (λ o. IsDown (phase o)) (sym same)
        (d id k (subst (λ c. position c id ≡ some k) g.framed.chain_kept p) le)
  | inr out ↦ inr out
]

abbrev pub IsWalkState : State → Type 0
IsWalkState pre_supervision = Unit
IsWalkState (awaiting_ready _) = Unit
IsWalkState _ = ⊥

pub walk_ok :
    (state : State) {r : Rot} → IsWalkState state → StateOk state r → IsWalking r × IsWindowShut r
walk_ok pre_supervision w h = h
walk_ok (awaiting_ready a) w h = h
walk_ok _ w h = absurd w

pub ok_walk :
    (state : State) {r : Rot} → IsWalkState state → IsWalking r → IsWindowShut r → StateOk state r
ok_walk pre_supervision w h k = (h, k)
ok_walk (awaiting_ready a) w h k = (h, k)
ok_walk _ w h k = absurd w

-- A state that is no walk asks only for the commit window.
pub window_ok :
    (state : State) (r r' : Rot)
    → ¬ IsWalkState state
    → r'.pending_commit ≡ r.pending_commit
    → StateOk state r
    → StateOk state r'
window_ok pre_supervision r r' n e h = absurd (n tt)
window_ok (awaiting_ready a) r r' n e h = absurd (n tt)
window_ok ready r r' n e h = tt
window_ok locked r r' n e h = tt
window_ok _ r r' n e h = e ∙ h

module _ (state : State) (id : ComponentId) (r : Rot) (b : IsBased r) (v : IsSound r)
    (m : IsMember r.chain id) where
  -- Where the cursor is not a walk's, the component is contained or recovered.
  pub handle_corruption-Handles :
      ¬ IsWalkState state → StateOk state r → Handles state r (handle_corruption id r)
  handle_corruption-Handles n s = elim (handle_corruption-cases id r v m b.roomy) [
    | inl (e, g, h) ↦ record {
      evolves = Gates-Evolves g;
      outcome =
          subst (OutcomeOk state (handle_corruption id r).0) (sym e)
            (window_ok state r (handle_corruption id r).0 n g.pending_kept s);
    }
    | inr (e, u, q) ↦ rw e (record { evolves = Evolves-refl r v; outcome = u })
  ]

-- A search that comes last: with the next component the walk goes on, at the end it is over.
pub Advances-Handles :
    (state : State) (start : ℕ) (r : Rot) (res : Rot × List Effect × Bool) (next : Outcome)
    → Advances start r res
    → IsWindowShut r
    → ((s : Rot) → IsWalking s → IsWindowShut s → OutcomeOk state s next)
    → Handles state r (res.0, res.1 ++ [], if res.2 then next else transition ready)
Advances-Handles state start r (s, es, true) next a w ok = record {
  evolves = rw (append-nil es) a.evolves;
  outcome = ok s a.walking (ap (λ (t : Rot). t.pending_commit) a.only_cursor ∙ w);
}
Advances-Handles state start r (s, es, false) next a w ok = record {
  evolves = rw (append-nil es) a.evolves;
  outcome = tt;
}

-- The walk goes on behind a component that has just been gated.
step_over-Handles :
    (state : State) (r : Rot)
    → IsWalkState state
    → IsBased r
    → IsSound r
    → IsDownFrom r.cursor r
    → r.cursor ≤ length r.chain
    → IsWindowShut r
    → Handles state r (step_over handled r)
unfolding step_over
step_over-Handles state r w b v d le s = elim (Bool-cases (id_gated r (cursor_id r))) [
  | inr n ↦
      rw (n, step_over)
        (stays state r handled v
          (ok_walk state w (record { ahead = d; here = λ j c. rw c at n; within = le }) s))
  | inl g ↦
      rw (g, step_over)
        (Advances-Handles state (suc r.cursor) r (advance_to_next_ungated (suc r.cursor) r) handled
          (advance-Advances (suc r.cursor) r v b.valid.unique b.valid.indexable
            (λ j k p h. d j k p (omega arith)))
          s (λ t. ok_walk state w))
]

module _ (state : State) (id : ComponentId) (r : Rot) (b : IsBased r) (v : IsSound r)
    (m : IsMember r.chain id) where
  -- During the walk the cursor leaves a component that is contained.
  pub handle_corruption_advancing-Handles :
      IsWalkState state → StateOk state r → Handles state r (handle_corruption_advancing id r)
  unfolding handle_corruption_advancing step_over
  handle_corruption_advancing-Handles w s = elim (handle_corruption-cases id r v m b.roomy) [
    | inl (e, g, h) ↦ rw e (
        Handles-after state r (handle_corruption id r).0 (handle_corruption id r).1 _
          (Gates-Evolves g)
          (step_over-Handles state (handle_corruption id r).0 w (IsBased-framed b g.framed) g.sound
            (rw g.cursor_kept (Gates-down g r.cursor (walk_ok state w s).0.ahead))
            (rw (g.cursor_kept, g.framed.chain_kept) (walk_ok state w s).0.within)
            (g.pending_kept ∙ (walk_ok state w s).1)))
    | inr (e, u, q) ↦ rw e (record { evolves = Evolves-refl r v; outcome = u })
  ]

  -- A recovery that is over without success.
  pub exhaust_recovery-Handles :
      ¬ IsWalkState state
      → StateOk state r
      → IsWindowShut r
      → Handles state r (exhaust_recovery id r)
  exhaust_recovery-Handles n s w = elim (exhaust_recovery-cases id r v m b.roomy) [
    | inl (e, (t, c, x)) ↦ record {
      evolves = subst (Evolves r (exhaust_recovery id r).1) (sym x) (
          subst (λ es. Evolves r es (clear_retry id t)) (append-nil (exhaust_recovery id r).1)
            (Evolves-trans (exhaust_recovery id r).1 [] (Gates-Evolves c.gates)
              (update-Evolves clear_retry_status id t clear_retry-IsSilent c.gates.sound)));
      outcome =
          subst (OutcomeOk state (exhaust_recovery id r).0) (sym e)
            (ap (λ (q : Rot). q.pending_commit) x ∙ c.gates.pending_kept ∙ w);
    }
    | inr (e, q) ↦ rw e (record { evolves = reports; outcome = s })
  ]
    where
      reports : Evolves r (report_recovery_failed id ∷ emit recovery_failed ∷ []) r
      reports =
          Evolves-trans (report_recovery_failed id ∷ []) (emit recovery_failed ∷ [])
            (neutral-Evolves (report_recovery_failed id) r (λ j p. unfold obey in refl) v)
            (neutral-Evolves (emit recovery_failed) r (λ j p. unfold obey in refl) v)
