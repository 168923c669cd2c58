-- ===== src/Sm/Budget/Handlers.antt =====
-- Every handler leaves room in the sink for the entry action (services/orchestrator/sm/src/lib.rs).
pub mod Parts
use openprot.Prelude.{
  refl, inl, inr, Bool, true, false, Option, [], arith, append-nil, Bool-cases, if◌then◌else◌,
  subst, is_some_of, ◌==◌, ==_iff, ltb, get_elem?,
}
use openprot.Sm.Model.{
  ComponentId, device_fatal, provisioned, unprovisioned, self_verification_failed, Event,
  power_good, verification_passed, verification_failed, component_ready, booted,
  attestation_challenge, update_request, update_verified, update_rejected, boot_confirmed,
  corruption_detected, restored, recovery_unavailable, recovery_failed, boot_failed, timeout,
  commit_timeout, effect_failed, report_boot_failed, State, power_on_reset, pre_supervision,
  awaiting_ready, ready, updating, recovering, locked, component_id,
}
use openprot.Sm.Rot.{
  Rot, pure, handled, transition, cursor_id, is_awaiting_boot, bump_retry, bump_status,
}
use openprot.Sm.Rot.Soundness.{IsSound, IsMember}
use openprot.Sm.Gating.{handle_corruption, handle_corruption_advancing, exhaust_recovery}
use openprot.Sm.Gating.Policy.{handle_corruption-cases}
use openprot.Sm.Handlers.{
  release, handle_power_on_reset, handle_pre_supervision, handle_awaiting_ready, handle_ready,
  handle_updating, handle_recovering, handle, handle_supervising, after_release, entry_kind,
}
use openprot.Sm.Walk.{Evolves, IsWalking}
use openprot.Sm.Walk.Changes.{update-Evolves}
use openprot.Sm.Invariant.{IsBased, IsBased-framed, StateOk}
use openprot.Sm.Invariant.Leaf.{bump-IsSilent}
use openprot.Sm.Invariant.Leaf.Boot.{IsModelled}
use openprot.Sm.Budget.{
  in_service-le-capacity, handle_corruption-Contained, handle_corruption_advancing-Contained,
  exhaust_recovery-IsWithin,
}
use openprot.Sm.Budget.Handlers.Parts.{
  Fits, Contained-Fits, released-Fits, after_release-IsWithin, reported-Fits, length-release-le,
  is_some_of-eq,
}

power_on_reset-Fits :
    (event : Event) (r : Rot) → IsBased r → IsSound r → Fits r (handle_power_on_reset event r)
unfolding handle_power_on_reset
power_on_reset-Fits (power_good provisioned) r b v = omega (arith, in_service-le-capacity r b v)
power_on_reset-Fits (power_good unprovisioned) r b v = omega arith
power_on_reset-Fits (power_good self_verification_failed) r b v = omega arith
power_on_reset-Fits effect_failed r b v = omega arith
power_on_reset-Fits _ r b v = omega arith

pre_supervision-Fits :
    (event : Event) (r : Rot)
    → IsBased r
    → IsSound r
    → IsWalking r
    → IsModelled r event
    → Fits r (handle_pre_supervision event r)
unfolding handle_pre_supervision component_id
pre_supervision-Fits (verification_passed id) r b v w m =
    elim (Bool-cases (is_some_of id (cursor_id r))) [
      | inr e ↦ rw (e, handle_pre_supervision) (omega arith)
      | inl e ↦
          rw (e, handle_pre_supervision)
            (released-Fits r (release id r)
              (after_release id (entry_kind (get_elem? r.chain r.cursor))) b
              (length-release-le r id b v w (is_some_of-eq id (cursor_id r) e))
              (after_release-IsWithin id (entry_kind (get_elem? r.chain r.cursor))
                r.chain_capacity))
    ]
pre_supervision-Fits (verification_failed id) r b v w m = ground arith
pre_supervision-Fits (corruption_detected id) r b v w m =
    Contained-Fits id r _ (handle_corruption_advancing-Contained id r b v (m id refl) w)
pre_supervision-Fits (booted id) r b v w m = omega arith
pre_supervision-Fits (timeout id) r b v w m = ground arith
pre_supervision-Fits (boot_failed id checkpoint kind) r b v w m =
    elim (Bool-cases (is_awaiting_boot r id)) [
      | inr e ↦ rw (e, handle_pre_supervision) (omega arith)
      | inl e ↦
          rw (e, handle_pre_supervision)
            (reported-Fits id (report_boot_failed id checkpoint kind) kind r
              (handle_corruption_advancing id) b
              (λ f. handle_corruption_advancing-Contained id r b v (m id refl) w))
    ]
pre_supervision-Fits effect_failed r b v w m = omega arith
pre_supervision-Fits _ r b v w m = omega arith

awaiting_ready-Fits :
    (awaiting : Option ComponentId) (event : Event) (r : Rot)
    → IsBased r
    → IsSound r
    → IsWalking r
    → IsModelled r event
    → Fits r (handle_awaiting_ready awaiting event r)
unfolding handle_awaiting_ready component_id
awaiting_ready-Fits awaiting (component_ready id) r b v w m = ground arith
awaiting_ready-Fits awaiting (verification_passed id) r b v w m =
    elim (Bool-cases (is_some_of id (cursor_id r))) [
      | inr e ↦ rw (e, handle_awaiting_ready) (omega arith)
      | inl e ↦
          rw (e, handle_awaiting_ready)
            (released-Fits r (release id r) handled b
              (length-release-le r id b v w (is_some_of-eq id (cursor_id r) e)) (λ s es h. h))
    ]
awaiting_ready-Fits awaiting (verification_failed id) r b v w m = ground arith
awaiting_ready-Fits awaiting (corruption_detected id) r b v w m =
    Contained-Fits id r _ (handle_corruption_advancing-Contained id r b v (m id refl) w)
awaiting_ready-Fits awaiting (boot_failed id checkpoint device_fatal) r b v w m =
    elim (Bool-cases (is_awaiting_boot r id)) [
      | inr e ↦ rw (e, handle_awaiting_ready) (omega arith)
      | inl e ↦
          rw (e, handle_awaiting_ready)
            (reported-Fits id (report_boot_failed id checkpoint device_fatal) device_fatal r
              (handle_corruption_advancing id) b
              (λ f. handle_corruption_advancing-Contained id r b v (m id refl) w))
    ]
awaiting_ready-Fits awaiting _ r b v w m = omega arith

ready-Fits : (event : Event) (r : Rot) → Fits r (handle_ready event r)
unfolding handle_ready
ready-Fits update_request r = omega arith
ready-Fits (boot_confirmed id) r = omega arith
ready-Fits commit_timeout r = ground arith
ready-Fits _ r = omega arith

updating-Fits :
    (event : Event) (r : Rot)
    → IsBased r
    → IsSound r
    → IsModelled r event
    → Fits r (handle_updating event r)
unfolding handle_updating component_id
updating-Fits update_verified r b v m = omega arith
updating-Fits update_rejected r b v m = omega arith
updating-Fits (corruption_detected id) r b v m =
    elim (handle_corruption-cases id r v (m id refl) b.roomy) [
      | inl (e, g, h) ↦ rw e (
          rw (append-nil (handle_corruption id r).1)
            (omega (arith, g.spends, in_service-le-capacity r b v)))
      | inr (e, u, q) ↦ rw e (omega arith)
    ]
updating-Fits _ r b v m = omega arith

recovering-Fits :
    (failed : ComponentId) (event : Event) (r : Rot)
    → IsBased r
    → IsSound r
    → IsModelled r event
    → Fits r (handle_recovering failed event r)
unfolding handle_recovering component_id bump_retry
recovering-Fits failed (restored id) r b v m = elim (Bool-cases (id == failed)) [
  | inr e ↦ rw (e, handle_recovering) (omega arith)
  | inl e ↦
      rw (e, handle_recovering)
        (decide (ltb (bump_retry failed r).2 r.max_retry)
          (subst (IsMember r.chain) ((==_iff id failed).0 e) (m id refl)))
]
  where
    bumped : Rot
    bumped = (bump_retry failed r).0

    bumps : Evolves r [] bumped
    bumps = update-Evolves bump_status failed r bump-IsSilent v

    based : IsBased bumped
    based = IsBased-framed b bumps.framed

    decide :
        (again : Bool)
        → IsMember r.chain failed
        → Fits r
            ((if again then pure (transition pre_supervision) else exhaust_recovery failed) bumped)
    decide true k = omega (arith, in_service-le-capacity bumped based bumps.sound)
    decide false k = exhaust_recovery-IsWithin failed bumped based bumps.sound k
recovering-Fits failed (recovery_unavailable id) r b v m = elim (Bool-cases (id == failed)) [
  | inr e ↦ rw (e, handle_recovering) (omega arith)
  | inl e ↦
      rw (e, handle_recovering)
        (exhaust_recovery-IsWithin failed r b v
          (subst (IsMember r.chain) ((==_iff id failed).0 e) (m id refl)))
]
recovering-Fits failed recovery_failed r b v m = omega arith
recovering-Fits failed _ r b v m = omega arith

-- Every handler, in every state.
pub handle-Fits :
    (state : State) (event : Event) (r : Rot)
    → IsBased r
    → IsSound r
    → StateOk state r
    → IsModelled r event
    → Fits r (handle state event r)
unfolding handle
handle-Fits power_on_reset event r b v s m = power_on_reset-Fits event r b v
handle-Fits pre_supervision event r b v s m = pre_supervision-Fits event r b v s.0 m
handle-Fits (awaiting_ready awaiting) event r b v s m =
    awaiting_ready-Fits awaiting event r b v s.0 m
handle-Fits ready event r b v s m = ready-Fits event r
handle-Fits updating event r b v s m = updating-Fits event r b v m
handle-Fits (recovering failed) event r b v s m = recovering-Fits failed event r b v m
handle-Fits locked event r b v s m = omega arith

pub handle_supervising-Fits :
    (event : Event) (r : Rot)
    → IsBased r
    → IsSound r
    → IsModelled r event
    → Fits r (handle_supervising event r)
unfolding handle_supervising component_id
handle_supervising-Fits attestation_challenge r b v m = omega arith
handle_supervising-Fits (corruption_detected id) r b v m =
    Contained-Fits id r _ (handle_corruption-Contained id r b v (m id refl))
handle_supervising-Fits (component_ready id) r b v m = omega arith
handle_supervising-Fits (booted id) r b v m = omega arith
handle_supervising-Fits (timeout id) r b v m = ground arith
handle_supervising-Fits (boot_failed id checkpoint kind) r b v m =
    elim (Bool-cases (is_awaiting_boot r id)) [
      | inr e ↦ rw (e, handle_supervising) (omega arith)
      | inl e ↦
          rw (e, handle_supervising)
            (reported-Fits id (report_boot_failed id checkpoint kind) kind r (handle_corruption id)
              b (λ f. handle_corruption-Contained id r b v (m id refl)))
    ]
handle_supervising-Fits update_request r b v m = omega arith
handle_supervising-Fits effect_failed r b v m = omega arith
handle_supervising-Fits _ r b v m = omega arith
