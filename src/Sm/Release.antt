-- ===== src/Sm/Release.antt =====
-- What lets a component out of reset (services/orchestrator/sm/src/lib.rs).
pub mod Quiet
use openprot.Sm.Engine.{
  is_modelled, Orchestrator, is_supervised, react, supervise, emitted, apply_outcome,
}
use openprot.Sm.Handlers.{
  is_fatal, handle_supervising, handle_ready, handle_updating, handle_awaiting_ready,
  handle_recovering, handle_power_on_reset, release, preempt, handle, handle_pre_supervision,
}
use openprot.Sm.Gating.{exhaust_recovery, handle_corruption, handle_corruption_advancing}
use openprot.Prelude.{
  String, ◌==◌, ◌≡◌, refl, ap, ◌⊎◌, inl, inr, Bool, true, false, Option, none, some, List, [], ◌∷◌,
  ◌++◌, Bool-cases, if◌then◌else◌, is_some_of, ==_iff, append-nil,
}
use openprot.Sm.Model.{
  recovering, awaiting_ready, ComponentId, Effect, Event, State, BootFailureKind, timed_out,
  device_retriable, device_fatal, provisioned, unprovisioned, self_verification_failed, power_good,
  verification_passed, verification_failed, component_ready, booted, attestation_challenge,
  update_request, update_verified, update_rejected, boot_confirmed, corruption_detected, restored,
  recovery_unavailable, recovery_failed, boot_failed, timeout, commit_timeout, effect_failed,
  report_boot_failed, power_on_reset, pre_supervision, ready, updating, locked,
}
use openprot.Sm.Rot.{
  bump_retry, is_awaiting_boot, Outcome, handled, transition, super, transition, Outcome, Act, ◌>>◌,
  pure, ctx_emit, Rot, cursor_id,
}
use openprot.Sm.Release.Quiet.{
  releases, releases-append, exhaust_recovery-releases, handle_corruption-releases,
  advance-releases, advancing-releases, entry_action-releases,
}

boot_failed-releases :
    (id : ComponentId) (checkpoint : String) (kind : BootFailureKind) (m : Act Outcome) (r : Rot)
    → ((r : Rot) → releases (m r).1 ≡ [])
    → releases
        ((do
          ctx_emit (report_boot_failed id checkpoint kind)
          if is_fatal kind then m else pure (transition (recovering id)))
          r).1
      ≡ []
unfolding releases
boot_failed-releases id checkpoint timed_out m r q = refl
boot_failed-releases id checkpoint device_retriable m r q = refl
boot_failed-releases id checkpoint device_fatal m r q = q r

handle_supervising-releases :
    (event : Event) (r : Rot) → releases (handle_supervising event r).1 ≡ []
unfolding handle_supervising releases
handle_supervising-releases (corruption_detected id) r = handle_corruption-releases id r
handle_supervising-releases (boot_failed id checkpoint kind) r =
    elim (Bool-cases (is_awaiting_boot r id)) [
      | inl y ↦
          rw (y, handle_supervising)
            (boot_failed-releases id checkpoint kind (handle_corruption id) r
              (handle_corruption-releases id))
      | inr n ↦ rw (n, handle_supervising) refl
    ]
handle_supervising-releases attestation_challenge r = refl
handle_supervising-releases (component_ready id) r = refl
handle_supervising-releases (booted id) r = refl
handle_supervising-releases (timeout id) r = refl
handle_supervising-releases update_request r = refl
handle_supervising-releases effect_failed r = refl
handle_supervising-releases _ r = refl

-- Nothing is let out of reset, or one component is: the one under verification, by the event that
-- says that its image passed.
abbrev pub Lets : Event → Rot → List Effect → Type 0
Lets event r es =
    (releases es ≡ [])
    ⊎ ((id : ComponentId) × (event ≡ verification_passed id)
        × (cursor_id r ≡ some id)
        × (releases es ≡ id ∷ []))

release-releases : (id : ComponentId) (r : Rot) → releases (release id r).1 ≡ id ∷ []
unfolding release releases
release-releases id r = simp (releases-append, advance-releases)

is_cursor : (id : ComponentId) (o : Option ComponentId) → is_some_of id o ≡ true → o ≡ some id
is_cursor id none h = cc
is_cursor id (some j) h = ap some ((==_iff j id).0 h)

handle_power_on_reset-releases :
    (event : Event) (r : Rot) → releases (handle_power_on_reset event r).1 ≡ []
unfolding handle_power_on_reset releases
handle_power_on_reset-releases (power_good provisioned) r = refl
handle_power_on_reset-releases (power_good unprovisioned) r = refl
handle_power_on_reset-releases (power_good self_verification_failed) r = refl
handle_power_on_reset-releases effect_failed r = refl
handle_power_on_reset-releases _ r = refl

handle_pre_supervision-Lets :
    (event : Event) (r : Rot) → Lets event r (handle_pre_supervision event r).1
unfolding handle_pre_supervision releases
handle_pre_supervision-Lets (verification_passed id) r =
    elim (Bool-cases (is_some_of id (cursor_id r))) [
      | inl y ↦ inr (
        id,
        refl,
        is_cursor id (cursor_id r) y,
        rw (y, handle_pre_supervision) (simp (releases-append, release-releases)),
      )
      | inr n ↦ inl (rw (n, handle_pre_supervision) refl)
    ]
handle_pre_supervision-Lets (corruption_detected id) r = inl (advancing-releases id r)
handle_pre_supervision-Lets (boot_failed id checkpoint kind) r =
    elim (Bool-cases (is_awaiting_boot r id)) [
      | inl y ↦ inl (
          rw (y, handle_pre_supervision)
            (boot_failed-releases id checkpoint kind (handle_corruption_advancing id) r
              (advancing-releases id)))
      | inr n ↦ inl (rw (n, handle_pre_supervision) refl)
    ]
handle_pre_supervision-Lets (verification_failed id) r = inl refl
handle_pre_supervision-Lets (booted id) r = inl refl
handle_pre_supervision-Lets (timeout id) r = inl refl
handle_pre_supervision-Lets effect_failed r = inl refl
handle_pre_supervision-Lets _ r = inl refl

handle_awaiting_ready-Lets :
    (awaiting : Option ComponentId) (event : Event) (r : Rot)
    → Lets event r (handle_awaiting_ready awaiting event r).1
unfolding handle_awaiting_ready releases
handle_awaiting_ready-Lets awaiting (verification_passed id) r =
    elim (Bool-cases (is_some_of id (cursor_id r))) [
      | inl y ↦ inr (
        id,
        refl,
        is_cursor id (cursor_id r) y,
        rw (y, handle_awaiting_ready) (simp (releases-append, release-releases)),
      )
      | inr n ↦ inl (rw (n, handle_awaiting_ready) refl)
    ]
handle_awaiting_ready-Lets awaiting (corruption_detected id) r = inl (advancing-releases id r)
handle_awaiting_ready-Lets awaiting (boot_failed id checkpoint device_fatal) r =
    elim (Bool-cases (is_awaiting_boot r id)) [
      | inl y ↦ inl (rw (y, handle_awaiting_ready) (advancing-releases id r))
      | inr n ↦ inl (rw (n, handle_awaiting_ready) refl)
    ]
handle_awaiting_ready-Lets awaiting (component_ready id) r = inl refl
handle_awaiting_ready-Lets awaiting (verification_failed id) r = inl refl
handle_awaiting_ready-Lets awaiting _ r = inl refl

handle_ready-releases : (event : Event) (r : Rot) → releases (handle_ready event r).1 ≡ []
unfolding handle_ready releases
handle_ready-releases update_request r = refl
handle_ready-releases (boot_confirmed id) r = refl
handle_ready-releases commit_timeout r = refl
handle_ready-releases _ r = refl

preempt-releases : (outcome : Outcome) (r : Rot) → releases (preempt outcome r).1 ≡ []
unfolding preempt releases
preempt-releases (transition (recovering id)) r = refl
preempt-releases _ r = refl

handle_updating-releases : (event : Event) (r : Rot) → releases (handle_updating event r).1 ≡ []
unfolding handle_updating releases
handle_updating-releases update_verified r = refl
handle_updating-releases update_rejected r = refl
handle_updating-releases (corruption_detected id) r =
    simp (releases-append, handle_corruption-releases, preempt-releases)
handle_updating-releases _ r = refl

bump_retry-releases : (id : ComponentId) (r : Rot) → releases (bump_retry id r).1 ≡ []
unfolding bump_retry releases
bump_retry-releases id r = refl

after_attempt :
    (failed : ComponentId) (b : Bool) (r : Rot)
    → releases ((if b then pure (transition pre_supervision) else exhaust_recovery failed) r).1 ≡ []
unfolding releases
after_attempt failed true r = refl
after_attempt failed false r = exhaust_recovery-releases failed r

handle_recovering-releases :
    (failed : ComponentId) (event : Event) (r : Rot)
    → releases (handle_recovering failed event r).1 ≡ []
unfolding handle_recovering releases
handle_recovering-releases failed (restored id) r = elim (Bool-cases (id == failed)) [
  | inl y ↦
      rw (y, handle_recovering) (simp (releases-append, bump_retry-releases, after_attempt failed))
  | inr n ↦ rw (n, handle_recovering) refl
]
handle_recovering-releases failed (recovery_unavailable id) r = elim (Bool-cases (id == failed)) [
  | inl y ↦ rw (y, handle_recovering) (exhaust_recovery-releases failed r)
  | inr n ↦ rw (n, handle_recovering) refl
]
handle_recovering-releases failed recovery_failed r = refl
handle_recovering-releases failed _ r = refl

handle-Lets : (state : State) (event : Event) (r : Rot) → Lets event r (handle state event r).1
unfolding handle releases
handle-Lets power_on_reset event r = inl (handle_power_on_reset-releases event r)
handle-Lets pre_supervision event r = handle_pre_supervision-Lets event r
handle-Lets (awaiting_ready awaiting) event r = handle_awaiting_ready-Lets awaiting event r
handle-Lets ready event r = inl (handle_ready-releases event r)
handle-Lets updating event r = inl (handle_updating-releases event r)
handle-Lets (recovering failed) event r = inl (handle_recovering-releases failed event r)
handle-Lets locked event r = inl refl

supervise-releases :
    (state : State) (event : Event) (outcome : Outcome) (r : Rot)
    → releases (supervise state event outcome r).1 ≡ []
unfolding supervise releases
supervise-releases state event super r = elim (Bool-cases (is_supervised state)) [
  | inl y ↦ rw y (handle_supervising-releases event r)
  | inr n ↦ rw n refl
]
supervise-releases state event handled r = refl
supervise-releases state event (transition t) r = refl

apply_outcome-releases :
    (state : State) (outcome : Outcome) (r : Rot) → releases (apply_outcome state outcome r).1 ≡ []
unfolding apply_outcome releases
apply_outcome-releases state (transition t) r = simp (releases-append, entry_action-releases)
apply_outcome-releases state handled r = refl
apply_outcome-releases state super r = refl

with_quiet :
    (event : Event) (r : Rot) (es fs : List Effect)
    → releases fs ≡ []
    → Lets event r es
    → Lets event r (es ++ fs)
with_quiet event r es fs q (inl h) = inl (simp (releases-append, q, h))
with_quiet event r es fs q (inr (id, e, c, h)) =
    inr (id, e, c, simp (releases-append, q, h, append-nil))

-- In every state, for every event: a step lets out of reset nothing, or the one component that is
-- under verification, on the event that its image passed.
pub emitted-Lets : (o : Orchestrator) (event : Event) → Lets event o.rot (emitted o event)
unfolding emitted react releases
emitted-Lets o event = elim (Bool-cases (is_modelled o.rot event)) [
  | inr n ↦ rw n (inl refl)
  | inl y ↦ rw y (
      with_quiet event o.rot (handle o.state event o.rot).1 _
        (simp (releases-append, supervise-releases, apply_outcome-releases))
        (handle-Lets o.state event o.rot))
]
