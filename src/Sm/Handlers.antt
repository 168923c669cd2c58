-- ===== src/Sm/Handlers.antt =====
-- services/orchestrator/sm/src/lib.rs: the handlers of the states, `handle_supervising` and the
-- entry actions.
use openprot.Prelude.{
  suc, Bool, true, false, not, Option, none, some, ltb, leb, ◌==◌, map, if◌then◌else◌, is_some_of,
  length, get_elem?,
}
use openprot.Sm.Model.{
  ComponentId, ComponentKind, active, passive, Entry, BootFailureKind, timed_out, device_retriable,
  device_fatal, provisioned, unprovisioned, self_verification_failed, Event, power_good,
  verification_passed, verification_failed, component_ready, booted, attestation_challenge,
  update_request, update_verified, update_rejected, boot_confirmed, corruption_detected, restored,
  recovery_unavailable, recovery_failed, boot_failed, timeout, commit_timeout, effect_failed,
  release_reset, sign_attestation, authenticate_update, stage_update, activate_update,
  discard_staged, commit_svn_floor, recover_component, report_boot_failed, report_update_deferred,
  report_update_aborted, latch_lockdown, State, power_on_reset, pre_supervision, awaiting_ready,
  ready, updating, recovering, locked,
}
use openprot.Sm.Rot.{
  ◌>>=◌, ◌>>◌, Outcome, handled, transition, super, ComponentStatus, Act, pure, gets, ctx_emit,
  change, update_status, status_of, status_retry, is_gated, is_awaiting_boot, bump_retry,
  clear_retry, clear_retry_status, mark_released, clear_awaiting_boot, cursor_id,
  advance_to_next_ungated, quiesce_all,
}
use openprot.Sm.Gating.{exhaust_recovery, handle_corruption, handle_corruption_advancing}

-- `State::PowerOnReset`
unfoldable pub handle_power_on_reset : Event → Act Outcome
handle_power_on_reset (power_good provisioned) = pure (transition pre_supervision)
handle_power_on_reset (power_good unprovisioned) = pure (transition locked)
handle_power_on_reset (power_good self_verification_failed) = pure (transition locked)
handle_power_on_reset effect_failed = pure (transition locked)
handle_power_on_reset _ = pure super

-- What both walking states do with the component whose check passed.
unfoldable pub release : ComponentId → Act Bool
release id = do
  change (clear_retry id)
  ctx_emit (release_reset id)
  change (mark_released id)
  r ← gets (λ r. r)
  advance_to_next_ungated (suc r.cursor)

abbrev pub entry_kind : Option Entry → Option ComponentKind
entry_kind none = none
entry_kind (some (_, attrs)) = some attrs.kind

abbrev pub after_release : ComponentId → Option ComponentKind → Outcome
after_release id none = handled
after_release id (some active) = transition (awaiting_ready (some id))
after_release id (some passive) = handled

abbrev pub is_fatal : BootFailureKind → Bool
is_fatal timed_out = false
is_fatal device_retriable = false
is_fatal device_fatal = true

timed_out_boot : ComponentId → Act Outcome
timed_out_boot id = do
  r ← gets (λ r. r)
  pure (if is_awaiting_boot r id then transition (recovering id) else handled)

recover_unless_gated : ComponentId → Act Outcome
recover_unless_gated id = do
  r ← gets (λ r. r)
  pure (if is_gated r id then handled else transition (recovering id))

-- `State::PreSupervision`
unfoldable pub handle_pre_supervision : Event → Act Outcome
unfolding timed_out_boot recover_unless_gated
handle_pre_supervision (verification_passed id) = do
  r ← gets (λ r. r)
  if not (is_some_of id (cursor_id r)) then pure handled else do
    found ← release id
    pure (
        if found
        then after_release id (entry_kind (get_elem? r.chain r.cursor))
        else transition ready)
handle_pre_supervision (verification_failed id) = recover_unless_gated id
handle_pre_supervision (corruption_detected id) = handle_corruption_advancing id
handle_pre_supervision (booted id) = do change (clear_awaiting_boot id); pure handled
handle_pre_supervision (timeout id) = timed_out_boot id
handle_pre_supervision (boot_failed id checkpoint kind) = do
  r ← gets (λ r. r)
  if not (is_awaiting_boot r id) then pure handled else do
    ctx_emit (report_boot_failed id checkpoint kind)
    if is_fatal kind then handle_corruption_advancing id else pure (transition (recovering id))
handle_pre_supervision effect_failed = pure (transition locked)
handle_pre_supervision _ = pure super

-- `State::AwaitingReady(awaiting)`
unfoldable pub handle_awaiting_ready : Option ComponentId → Event → Act Outcome
unfolding recover_unless_gated
handle_awaiting_ready awaiting (component_ready id) = do
  change (clear_awaiting_boot id)
  r ← gets (λ r. r)
  pure (
      if not (is_some_of id awaiting)
      then handled
      else if leb (length r.chain) r.cursor
      then transition ready
      else transition (awaiting_ready none))
handle_awaiting_ready awaiting (verification_passed id) = do
  r ← gets (λ r. r)
  if not (is_some_of id (cursor_id r))
      then pure handled
      else do found ← release id; pure (if found then handled else transition ready)
handle_awaiting_ready awaiting (verification_failed id) = recover_unless_gated id
handle_awaiting_ready awaiting (corruption_detected id) = handle_corruption_advancing id
handle_awaiting_ready awaiting (boot_failed id checkpoint device_fatal) = do
  r ← gets (λ r. r)
  if is_awaiting_boot r id
      then (do
        ctx_emit (report_boot_failed id checkpoint device_fatal)
        handle_corruption_advancing id)
      else pure super
handle_awaiting_ready awaiting _ = pure super

-- `State::Ready`
unfoldable pub handle_ready : Event → Act Outcome
handle_ready update_request = pure (transition updating)
handle_ready (boot_confirmed id) = do
  ctx_emit (commit_svn_floor id)
  change (λ r. record r { pending_commit = false })
  pure handled
handle_ready commit_timeout = do
  r ← gets (λ r. r)
  pure (if r.pending_commit then transition locked else handled)
handle_ready _ = pure super

-- A recovery that preempts the update orphans the staged image.
unfoldable pub preempt : Outcome → Act Outcome
preempt (transition (recovering id)) = do
  ctx_emit discard_staged
  ctx_emit report_update_aborted
  pure (transition (recovering id))
preempt outcome = pure outcome

-- `State::Updating`
unfoldable pub handle_updating : Event → Act Outcome
unfolding preempt
handle_updating update_verified = do
  ctx_emit activate_update
  change (λ r. record r { pending_commit = true })
  pure (transition ready)
handle_updating update_rejected = do ctx_emit discard_staged; pure (transition ready)
handle_updating (corruption_detected id) = do outcome ← handle_corruption id; preempt outcome
handle_updating _ = pure super

-- `State::Recovering(failed)`
unfoldable pub handle_recovering : ComponentId → Event → Act Outcome
handle_recovering failed (restored id) = if not (id == failed) then pure handled else do
  attempts ← bump_retry failed
  r ← gets (λ r. r)
  if ltb attempts r.max_retry then pure (transition pre_supervision) else exhaust_recovery failed
handle_recovering failed (recovery_unavailable id) =
    if not (id == failed) then pure handled else exhaust_recovery failed
handle_recovering failed recovery_failed = pure (transition locked)
handle_recovering failed _ = pure super

-- `Rot::handle`
unfoldable pub handle : State → Event → Act Outcome
unfolding handle_power_on_reset handle_pre_supervision handle_awaiting_ready handle_ready
    handle_updating handle_recovering
handle power_on_reset event = handle_power_on_reset event
handle pre_supervision event = handle_pre_supervision event
handle (awaiting_ready awaiting) event = handle_awaiting_ready awaiting event
handle ready event = handle_ready event
handle updating event = handle_updating event
handle (recovering failed) event = handle_recovering failed event
handle locked event = pure super

-- `Rot::handle_supervising`
unfoldable pub handle_supervising : Event → Act Outcome
unfolding timed_out_boot
handle_supervising attestation_challenge = do ctx_emit sign_attestation; pure handled
handle_supervising (corruption_detected id) = handle_corruption id
handle_supervising (component_ready id) = do change (clear_awaiting_boot id); pure handled
handle_supervising (booted id) = do change (clear_awaiting_boot id); pure handled
handle_supervising (timeout id) = timed_out_boot id
handle_supervising (boot_failed id checkpoint kind) = do
  r ← gets (λ r. r)
  if not (is_awaiting_boot r id) then pure handled else do
    ctx_emit (report_boot_failed id checkpoint kind)
    if is_fatal kind then handle_corruption id else pure (transition (recovering id))
handle_supervising update_request = do ctx_emit report_update_deferred; pure handled
handle_supervising effect_failed = pure (transition locked)
handle_supervising _ = pure super

abbrev pub held_status : ComponentStatus → ComponentStatus
held_status s = record s { released = false }

-- `Rot::entry_action`
unfoldable pub entry_action : State → Act Unit
entry_action pre_supervision = do quiesce_all; advance_to_next_ungated 0; pure tt
entry_action updating = do
  change (λ r. record r { pending_commit = false })
  ctx_emit authenticate_update
  ctx_emit stage_update
entry_action (recovering failed) = do
  change (λ r. record r { pending_commit = false })
  change (clear_awaiting_boot failed)
  change (update_status failed held_status)
  r ← gets (λ r. r)
  ctx_emit (recover_component failed (status_retry (status_of r failed)))
entry_action locked = ctx_emit latch_lockdown
entry_action ready = change (λ r. record r { statuses = map clear_retry_status r.statuses })
entry_action _ = pure tt
