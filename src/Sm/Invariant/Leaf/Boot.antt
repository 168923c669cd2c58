-- ===== src/Sm/Invariant/Leaf/Boot.antt =====
-- The handlers of the boot states keep the invariant (services/orchestrator/sm/src/lib.rs).
use openprot.Prelude.{
  leb, ◌≡◌, refl, sym, ◌∙◌, inl, inr, String, Bool, true, false, not, Option, none, some, List, [],
  ◌∷◌, arith, length, Bool-cases, if◌then◌else◌, Option-cases, get_elem?, is_some_of,
}
use openprot.Sm.Model.{
  ComponentId, ComponentKind, active, passive, BootFailureKind, device_fatal, provisioned,
  unprovisioned, self_verification_failed, Event, power_good, verification_passed,
  verification_failed, component_ready, booted, corruption_detected, boot_failed, timeout,
  effect_failed, Effect, report_boot_failed, State, power_on_reset, pre_supervision, awaiting_ready,
  ready, recovering, locked, component_id,
}
use openprot.Sm.Rot.{
  pure, Act, update_status, Rot, ComponentStatus, Outcome, handled, transition, super, is_gated,
  status_gated, status_of, cursor_id, is_awaiting_boot, clear_awaiting_boot, booted_status,
}
use openprot.Sm.Handlers.{
  handle_power_on_reset, handle_pre_supervision, handle_awaiting_ready, after_release, entry_kind,
  is_fatal,
}
use openprot.Sm.Rot.Soundness.{IsSound, IsCoherent, IsMember, All-lookup}
use openprot.Sm.Lifecycle.{phase, obey}
use openprot.Sm.Gating.{handle_corruption_advancing}
use openprot.Sm.Walk.{Evolves, IsWalking}
use openprot.Sm.Walk.Changes.{IsSilent, update-Evolves, update-phase}
use openprot.Sm.Invariant.{
  IsBased, IsWindowShut, StateOk, OutcomeOk, Handles, stays, Handles-after, neutral-Evolves,
}
use openprot.Sm.Invariant.Corruption.{handle_corruption_advancing-Handles}
use openprot.Sm.Invariant.Release.{release-Handles}

-- The event names no component, or one of the chain.
abbrev pub IsModelled : Rot → Event → Type 0
IsModelled r event = (id : ComponentId) → component_id event ≡ some id → IsMember r.chain id

pub booted-IsSilent : IsSilent booted_status
booted-IsSilent = record { same_phase = λ s. refl; coherent = λ s h. ground arith }

-- A component that owes a boot signal is in service.
pub awaiting-ungated :
    (r : Rot) (id : ComponentId) → IsSound r → is_awaiting_boot r id ≡ true → is_gated r id ≡ false
awaiting-ungated r id v h = elim (Option-cases (status_of r id)) [
  | inl e ↦ ground arith
  | inr (s, e) ↦
      let c = All-lookup IsCoherent r.chain r.statuses id s v.coherent e in
      ground (arith, c.gated_held, c.awaiting_live)
]

same_phase-gated :
    (o p : Option ComponentStatus) → phase o ≡ phase p → status_gated p ≡ status_gated o
same_phase-gated o p h = ground arith

-- A write that no phase shows leaves a walk a walk.
pub update-IsWalking :
    (f : ComponentStatus → ComponentStatus) (id : ComponentId) (r : Rot)
    → IsSilent f
    → IsWalking r
    → IsWalking (update_status id f r)
update-IsWalking f id r h w = record {
  ahead = λ j k p le. rw (update-phase f id j r h) (w.ahead j k p le);
  here = λ j c. same_phase-gated (status_of r j) _ (sym (update-phase f id j r h)) ∙ w.here j c;
  within = w.within;
}

module _ (state : State) (id : ComponentId) (r : Rot) (v : IsSound r) (s : StateOk state r) where
  -- A boot signal retires the watchdog.
  pub booted-Handles :
      (outcome : Outcome)
      → OutcomeOk state (clear_awaiting_boot id r) outcome
      → Handles state r (clear_awaiting_boot id r, [], outcome)
  booted-Handles outcome ok = record {
    evolves = update-Evolves booted_status id r booted-IsSilent v;
    outcome = ok;
  }

  -- A time-out of a component that owes a signal leads to its recovery; any other is dropped.
  pub timeout-Handles :
      Handles state r (r, [], if is_awaiting_boot r id then transition (recovering id) else handled)
  timeout-Handles = elim (Bool-cases (is_awaiting_boot r id)) [
    | inl e ↦ rw e (stays state r (transition (recovering id)) v (awaiting-ungated r id v e))
    | inr e ↦ rw e (stays state r handled v s)
  ]

  -- A component that failed its check enters recovery, unless it is isolated.
  pub failed-Handles :
      Handles state r (r, [], if is_gated r id then handled else transition (recovering id))
  failed-Handles = elim (Bool-cases (is_gated r id)) [
    | inl e ↦ rw e (stays state r handled v s)
    | inr e ↦ rw e (stays state r (transition (recovering id)) v e)
  ]

  -- A reported boot failure: `contain` is what a fatal one leads to.
  pub boot_failed-Handles :
      (checkpoint : String) (kind : BootFailureKind) (contain : Act Outcome)
      → is_awaiting_boot r id ≡ true
      → (is_fatal kind ≡ true → Handles state r (contain r))
      → let res : Rot × List Effect × Outcome =
          (if is_fatal kind then contain else pure (transition (recovering id))) r in
        Handles state r (res.0, report_boot_failed id checkpoint kind ∷ res.1, res.2)
  boot_failed-Handles checkpoint kind contain a h = elim (Bool-cases (is_fatal kind)) [
    | inl e ↦ rw e (
        Handles-after state r r (report_boot_failed id checkpoint kind ∷ []) (contain r) report
          (h e))
    | inr e ↦ rw e (record { evolves = report; outcome = awaiting-ungated r id v a })
  ]
    where
      report : Evolves r (report_boot_failed id checkpoint kind ∷ []) r
      report =
          neutral-Evolves (report_boot_failed id checkpoint kind) r (λ j p. unfold obey in refl) v

is_some_of-eq : (id : ComponentId) (o : Option ComponentId) → is_some_of id o ≡ true → o ≡ some id
is_some_of-eq id o h = ground arith

after_release-OutcomeOk :
    (id : ComponentId) (kind : Option ComponentKind) (s : Rot)
    → IsWalking s
    → IsWindowShut s
    → OutcomeOk pre_supervision s (after_release id kind)
after_release-OutcomeOk id none s w h = (w, h)
after_release-OutcomeOk id (some active) s w h = (w, h)
after_release-OutcomeOk id (some passive) s w h = (w, h)

pub power_on_reset-Handles :
    (event : Event) (r : Rot)
    → IsSound r
    → StateOk power_on_reset r
    → Handles power_on_reset r (handle_power_on_reset event r)
unfolding handle_power_on_reset
power_on_reset-Handles (power_good provisioned) r v s =
    stays power_on_reset r (transition pre_supervision) v s
power_on_reset-Handles (power_good unprovisioned) r v s =
    stays power_on_reset r (transition locked) v tt
power_on_reset-Handles (power_good self_verification_failed) r v s =
    stays power_on_reset r (transition locked) v tt
power_on_reset-Handles effect_failed r v s = stays power_on_reset r (transition locked) v tt
power_on_reset-Handles _ r v s = stays power_on_reset r super v s

pub pre_supervision-Handles :
    (event : Event) (r : Rot)
    → IsBased r
    → IsSound r
    → StateOk pre_supervision r
    → IsModelled r event
    → Handles pre_supervision r (handle_pre_supervision event r)
unfolding handle_pre_supervision component_id
pre_supervision-Handles (verification_passed id) r b v s m =
    elim (Bool-cases (is_some_of id (cursor_id r))) [
      | inr e ↦ rw (e, handle_pre_supervision) (stays pre_supervision r handled v s)
      | inl e ↦
          rw (e, handle_pre_supervision)
            (release-Handles r id b v s.0 (is_some_of-eq id (cursor_id r) e) pre_supervision
              (after_release id (entry_kind (get_elem? r.chain r.cursor))) s.1
              (after_release-OutcomeOk id (entry_kind (get_elem? r.chain r.cursor))))
    ]
pre_supervision-Handles (verification_failed id) r b v s m = failed-Handles pre_supervision id r v s
pre_supervision-Handles (corruption_detected id) r b v s m =
    handle_corruption_advancing-Handles pre_supervision id r b v (m id refl) tt s
pre_supervision-Handles (booted id) r b v s m =
    booted-Handles pre_supervision id r v s handled
      (update-IsWalking booted_status id r booted-IsSilent s.0, s.1)
pre_supervision-Handles (timeout id) r b v s m = timeout-Handles pre_supervision id r v s
pre_supervision-Handles (boot_failed id checkpoint kind) r b v s m =
    elim (Bool-cases (is_awaiting_boot r id)) [
      | inr e ↦ rw (e, handle_pre_supervision) (stays pre_supervision r handled v s)
      | inl e ↦
          rw (e, handle_pre_supervision)
            (boot_failed-Handles pre_supervision id r v s checkpoint kind
              (handle_corruption_advancing id) e
              (λ _. handle_corruption_advancing-Handles pre_supervision id r b v (m id refl) tt s))
    ]
pre_supervision-Handles effect_failed r b v s m = stays pre_supervision r (transition locked) v tt
pre_supervision-Handles _ r b v s m = stays pre_supervision r super v s

pub awaiting_ready-Handles :
    (awaiting : Option ComponentId) (event : Event) (r : Rot)
    → IsBased r
    → IsSound r
    → StateOk (awaiting_ready awaiting) r
    → IsModelled r event
    → Handles (awaiting_ready awaiting) r (handle_awaiting_ready awaiting event r)
unfolding handle_awaiting_ready component_id
awaiting_ready-Handles awaiting (component_ready id) r b v s m =
    booted-Handles (awaiting_ready awaiting) id r v s _
      (choice (is_some_of id awaiting) (leb (length r.chain) r.cursor))
  where
    walks : IsWalking (clear_awaiting_boot id r) × IsWindowShut (clear_awaiting_boot id r)
    walks = (update-IsWalking booted_status id r booted-IsSilent s.0, s.1)

    choice :
        (tracked done : Bool)
        → OutcomeOk (awaiting_ready awaiting) (clear_awaiting_boot id r) (
            if not tracked
            then handled
            else if done
            then transition ready
            else transition (awaiting_ready none))
    choice false done = walks
    choice true true = tt
    choice true false = walks
awaiting_ready-Handles awaiting (verification_passed id) r b v s m =
    elim (Bool-cases (is_some_of id (cursor_id r))) [
      | inr e ↦ rw (e, handle_awaiting_ready) (stays (awaiting_ready awaiting) r handled v s)
      | inl e ↦
          rw (e, handle_awaiting_ready)
            (release-Handles r id b v s.0 (is_some_of-eq id (cursor_id r) e)
              (awaiting_ready awaiting) handled s.1 (λ t w h. (w, h)))
    ]
awaiting_ready-Handles awaiting (verification_failed id) r b v s m =
    failed-Handles (awaiting_ready awaiting) id r v s
awaiting_ready-Handles awaiting (corruption_detected id) r b v s m =
    handle_corruption_advancing-Handles (awaiting_ready awaiting) id r b v (m id refl) tt s
awaiting_ready-Handles awaiting (boot_failed id checkpoint device_fatal) r b v s m =
    elim (Bool-cases (is_awaiting_boot r id)) [
      | inr e ↦ rw (e, handle_awaiting_ready) (stays (awaiting_ready awaiting) r super v s)
      | inl e ↦
          rw (e, handle_awaiting_ready)
            (boot_failed-Handles (awaiting_ready awaiting) id r v s checkpoint device_fatal
              (handle_corruption_advancing id) e
              (λ _.
                handle_corruption_advancing-Handles (awaiting_ready awaiting) id r b v (m id refl)
                  tt s))
    ]
awaiting_ready-Handles awaiting _ r b v s m = stays (awaiting_ready awaiting) r super v s
