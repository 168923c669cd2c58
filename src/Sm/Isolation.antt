-- ===== src/Sm/Isolation.antt =====
-- Isolation is final (services/orchestrator/sm/src/lib.rs, the lifecycle `Isolated`).
use openprot.Prelude.{
  ◌≡◌, refl, sym, ◌∙◌, ap, subst, ◌↔◌, inl, inr, Bool, true, false, Option, none, some,
  some-injective, List, [], ◌∷◌, ◌==◌, All, arith, Bool-cases, Option-cases,
}
use openprot.Sm.Model.{
  Event, ComponentId, Effect, read_firmware, verify_firmware, release_reset, assert_reset,
  recover_component, report_isolated,
}
use openprot.Sm.Rot.{ComponentStatus, status_gated, is_isolated, status_of, is_gated}
use openprot.Sm.Engine.{Orchestrator, run_events, trace}
use openprot.Sm.Trace.{trace-Evolves}
use openprot.Sm.Invariant.{Inv}
use openprot.Sm.Lifecycle.{Phase, out_of_service, phase, replay, and_then, obey}

-- Whether an effect acts on the component `id`, or reports it isolated.
unfoldable pub acts_on : ComponentId → Effect → Bool
acts_on id (read_firmware j) = j == id
acts_on id (verify_firmware j) = j == id
acts_on id (release_reset j) = j == id
acts_on id (assert_reset j) = j == id
acts_on id (recover_component j _) = j == id
acts_on id (report_isolated j) = j == id
acts_on id _ = false

obey-out_of_service :
    (id : ComponentId) (e : Effect) (p : Phase)
    → obey id e out_of_service ≡ some p
    → (acts_on id e ≡ false) × (p ≡ out_of_service)
unfolding obey acts_on
obey-out_of_service id (read_firmware j) p h = ground arith
obey-out_of_service id (verify_firmware j) p h = ground arith
obey-out_of_service id (release_reset j) p h = ground arith
obey-out_of_service id (assert_reset j) p h = ground arith
obey-out_of_service id (recover_component j _) p h = ground arith
obey-out_of_service id (report_isolated j) p h = ground arith
obey-out_of_service id _ p h = (refl, sym (some-injective _ _ h))

replay-out_of_service :
    (id : ComponentId) (es : List Effect) (p : Phase)
    → replay id es out_of_service ≡ some p
    → All (λ e. acts_on id e ≡ false) es × (p ≡ out_of_service)
unfolding replay
replay-out_of_service id [] p h = (tt, sym (some-injective _ _ h))
replay-out_of_service id (e ∷ es) p h = elim (Option-cases (obey id e out_of_service)) [
  | inl n ↦ absurd (none_is_not_some (sym (ap (λ q. and_then q (replay id es)) n) ∙ h))
  | inr (q, k) ↦
      let o = obey-out_of_service id e q k in
      let rest = replay-out_of_service id es p (
        subst (λ q. replay id es q ≡ some p) o.1
          (sym (ap (λ q. and_then q (replay id es)) k) ∙ h)) in
      ((o.0, rest.0), rest.1)
]
  where
    none_is_not_some : none ≡ some p → ⊥
    none_is_not_some e = cc

phase-gated : (s : Option ComponentStatus) → (phase s ≡ out_of_service) ↔ (status_gated s ≡ true)
phase-gated none = (λ e. cc, λ e. cc)
phase-gated (some s) = elim (Bool-cases (is_isolated s.lifecycle)) [
  | inl y ↦ rw y ((λ e. refl), λ e. refl)
  | inr n ↦ (λ e. absurd (ground arith), λ e. absurd (ground arith))
]

-- From any machine that satisfies the invariant: a component that is isolated stays isolated
-- through every later history of events, and no later effect reads, verifies, releases, resets or
-- restores it, or reports it isolated again.
pub isolation_is_final :
    (o : Orchestrator) (events : List Event) (id : ComponentId)
    → Inv o
    → is_gated o.rot id ≡ true
    → (is_gated (run_events o events).rot id ≡ true)
      × All (λ e. acts_on id e ≡ false) (trace o events)
isolation_is_final o events id i g =
    let t = (trace-Evolves o events i).refines id in
    let s = phase-gated (status_of o.rot id) in
    let l =
      replay-out_of_service id (trace o events) (phase (status_of (run_events o events).rot id)) (
        subst
          (λ p.
            replay id (trace o events) p ≡ some (phase (status_of (run_events o events).rot id)))
          (s.1 g) t) in
    ((phase-gated (status_of (run_events o events).rot id)).0 l.1, l.0)
