-- ===== src/Sm/Invariant/Supervisor.antt =====
-- `handle_supervising` keeps the invariant (services/orchestrator/sm/src/lib.rs). It holds
-- components back without moving the cursor, so it must not meet a corruption during the walk:
-- `AwaitingReady` takes those itself.
use openprot.Prelude.{
  subst, ◌≡◌, ◌≢◌, refl, sym, inl, inr, String, true, false, Option, [], ◌∷◌, ◌++◌, arith,
  Bool-cases,
}
use openprot.Sm.Model.{
  ComponentId, BootFailureKind, timed_out, device_retriable, device_fatal, Event, component_ready,
  booted, attestation_challenge, update_request, corruption_detected, boot_failed, timeout,
  effect_failed, Effect, sign_attestation, report_update_deferred, State, power_on_reset,
  pre_supervision, awaiting_ready, ready, updating, recovering, locked, component_id,
}
use openprot.Sm.Rot.{
  Rot, Outcome, handled, transition, super, is_awaiting_boot, clear_awaiting_boot, booted_status,
}
use openprot.Sm.Gating.{handle_corruption, handle_corruption_advancing, step_over}
use openprot.Sm.Gating.Policy.{handle_corruption-cases}
use openprot.Sm.Handlers.{handle, handle_awaiting_ready, handle_supervising, is_fatal}
use openprot.Sm.Engine.{is_supervised, supervise}
use openprot.Sm.Rot.Soundness.{IsSound, IsMember}
use openprot.Sm.Lifecycle.{obey}
use openprot.Sm.Invariant.{
  IsBased, IsBased-framed, StateOk, OutcomeOk, Handles, stays, Handles-after, neutral-Evolves,
  IsNeutral,
}
use openprot.Sm.Invariant.Corruption.{IsWalkState, handle_corruption-Handles}
use openprot.Sm.Invariant.Leaf.{handle-Handles}
use openprot.Sm.Invariant.Leaf.Boot.{
  IsModelled, booted-IsSilent, update-IsWalking, booted-Handles, timeout-Handles,
  boot_failed-Handles,
}

-- What a walking state may leave to the supervisor.
abbrev pub IsLenient : Rot → Event → Type 0
IsLenient r (corruption_detected id) = ⊥
IsLenient r (boot_failed id checkpoint device_fatal) = is_awaiting_boot r id ≡ false
IsLenient r _ = Unit

abbrev pub IsLenientIn : State → Rot → Event → Type 0
IsLenientIn state r event = IsWalkState state → IsLenient r event

booted-StateOk :
    (state : State) (id : ComponentId) (r : Rot)
    → StateOk state r
    → StateOk state (clear_awaiting_boot id r)
booted-StateOk pre_supervision id r s =
    (update-IsWalking booted_status id r booted-IsSilent s.0, s.1)
booted-StateOk (awaiting_ready a) id r s =
    (update-IsWalking booted_status id r booted-IsSilent s.0, s.1)
booted-StateOk power_on_reset id r s = s
booted-StateOk updating id r s = s
booted-StateOk (recovering j) id r s = s
booted-StateOk ready id r s = tt
booted-StateOk locked id r s = tt

not_walking :
    (state : State) (r : Rot) (id : ComponentId) (checkpoint : String) (kind : BootFailureKind)
    → IsLenientIn state r (boot_failed id checkpoint kind)
    → is_fatal kind ≡ true
    → is_awaiting_boot r id ≡ true
    → ¬ IsWalkState state
not_walking state r id checkpoint device_fatal l f a w = cc (l w)
not_walking state r id checkpoint _ l f a w = cc

emits-Handles :
    (state : State) (r : Rot) (e : Effect)
    → IsNeutral e
    → IsSound r
    → StateOk state r
    → Handles state r (r, e ∷ [], handled)
emits-Handles state r e n v s = record { evolves = neutral-Evolves e r n v; outcome = s }

pub supervising-Handles :
    (state : State) (event : Event) (r : Rot)
    → IsBased r
    → IsSound r
    → StateOk state r
    → IsModelled r event
    → IsLenientIn state r event
    → Handles state r (handle_supervising event r)
unfolding handle_supervising component_id
supervising-Handles state attestation_challenge r b v s m l =
    emits-Handles state r sign_attestation (λ j p. unfold obey in refl) v s
supervising-Handles state (corruption_detected id) r b v s m l =
    handle_corruption-Handles state id r b v (m id refl) l s
supervising-Handles state (component_ready id) r b v s m l =
    booted-Handles state id r v s handled (booted-StateOk state id r s)
supervising-Handles state (booted id) r b v s m l =
    booted-Handles state id r v s handled (booted-StateOk state id r s)
supervising-Handles state (timeout id) r b v s m l = timeout-Handles state id r v s
supervising-Handles state (boot_failed id checkpoint kind) r b v s m l =
    elim (Bool-cases (is_awaiting_boot r id)) [
      | inr e ↦ rw (e, handle_supervising) (stays state r handled v s)
      | inl e ↦
          rw (e, handle_supervising)
            (boot_failed-Handles state id r v s checkpoint kind (handle_corruption id) e (λ f.
              handle_corruption-Handles state id r b v (m id refl)
                (not_walking state r id checkpoint kind l f e) s))
    ]
supervising-Handles state update_request r b v s m l =
    emits-Handles state r report_update_deferred (λ j p. unfold obey in refl) v s
supervising-Handles state effect_failed r b v s m l = stays state r (transition locked) v tt
supervising-Handles state _ r b v s m l = stays state r super v s

-- A corruption during the walk is never left to the supervisor.
step_over-ne-super : (r : Rot) → (step_over handled r).2 ≢ super
unfolding step_over
step_over-ne-super r p = ground arith

advancing-ne-super :
    (id : ComponentId) (r : Rot)
    → IsBased r
    → IsSound r
    → IsMember r.chain id
    → (handle_corruption_advancing id r).2 ≢ super
unfolding handle_corruption_advancing step_over
advancing-ne-super id r b v m = elim (handle_corruption-cases id r v m b.roomy) [
  | inl (e, g, h) ↦ rw e (step_over-ne-super (handle_corruption id r).0)
  | inr (e, u, q) ↦ rw e (λ p. cc)
]

awaiting-IsLenient :
    (awaiting : Option ComponentId) (event : Event) (r : Rot)
    → IsBased r
    → IsSound r
    → IsModelled r event
    → (handle_awaiting_ready awaiting event r).2 ≡ super
    → IsLenient (handle_awaiting_ready awaiting event r).0 event
unfolding handle_awaiting_ready component_id
awaiting-IsLenient awaiting (corruption_detected id) r b v m e =
    advancing-ne-super id r b v (m id refl) e
awaiting-IsLenient awaiting (boot_failed id checkpoint device_fatal) r b v m e =
    elim (Bool-cases (is_awaiting_boot r id)) [
      | inr f ↦ rw f f
      | inl t ↦ absurd (advancing-ne-super id r b v (m id refl) (rw t at e))
    ]
awaiting-IsLenient awaiting (boot_failed id checkpoint timed_out) r b v m e = tt
awaiting-IsLenient awaiting (boot_failed id checkpoint device_retriable) r b v m e = tt
awaiting-IsLenient awaiting _ r b v m e = tt

-- What a handler leaves to the supervisor while the chain is walked.
handle-IsLenient :
    (state : State) (event : Event) (r : Rot)
    → IsBased r
    → IsSound r
    → IsModelled r event
    → is_supervised state ≡ true
    → (handle state event r).2 ≡ super
    → IsLenientIn state (handle state event r).0 event
unfolding handle
handle-IsLenient (awaiting_ready a) event r b v m u e w = awaiting-IsLenient a event r b v m e
handle-IsLenient ready event r b v m u e w = absurd w
handle-IsLenient updating event r b v m u e w = absurd w
handle-IsLenient (recovering id) event r b v m u e w = absurd w
handle-IsLenient power_on_reset event r b v m u e w = cc
handle-IsLenient pre_supervision event r b v m u e w = cc
handle-IsLenient locked event r b v m u e w = cc

-- The supervisor's part in a step: what the leaf handler left to it.
supervise-Handles :
    (state : State) (event : Event) (r : Rot) (outcome : Outcome)
    → IsBased r
    → IsSound r
    → OutcomeOk state r outcome
    → IsModelled r event
    → (is_supervised state ≡ true → outcome ≡ super → IsLenientIn state r event)
    → Handles state r (supervise state event outcome r)
unfolding supervise
supervise-Handles state event r handled b v s m l = stays state r handled v s
supervise-Handles state event r (transition target) b v s m l =
    stays state r (transition target) v s
supervise-Handles state event r super b v s m l = elim (Bool-cases (is_supervised state)) [
  | inl u ↦ rw u (supervising-Handles state event r b v s m (l u refl))
  | inr n ↦ rw n (stays state r super v s)
]

-- Both levels of dispatch together.
pub dispatched-Handles :
    (state : State) (event : Event) (r : Rot)
    → IsBased r
    → IsSound r
    → StateOk state r
    → IsModelled r event
    → let leaf = handle state event r in
      let res = supervise state event leaf.2 leaf.0 in
      Handles state r (res.0, leaf.1 ++ res.1, res.2)
dispatched-Handles state event r b v s m =
    let leaf = handle state event r in
    let h = handle-Handles state event r b v s m in
    Handles-after state r leaf.0 leaf.1 _ h.evolves (
      supervise-Handles state event leaf.0 leaf.2 (IsBased-framed b h.evolves.framed)
        h.evolves.sound h.outcome
        (λ id e. subst (λ c. IsMember c id) (sym h.evolves.framed.chain_kept) (m id e))
        (λ u e. handle-IsLenient state event r b v m u e))
