-- ===== src/Sm/Locked.antt =====
-- `State::Locked` and the way into it (services/orchestrator/sm/src/lib.rs).
use openprot.Prelude.{sym, ◌≡◌, refl, subst, ◌⊎◌, inl, inr, true, [], ◌∷◌, Bool-cases}
use openprot.Sm.Model.{
  Event, effect_failed, latch_lockdown, State, power_on_reset, pre_supervision, awaiting_ready,
  ready, updating, recovering, locked, component_id,
}
use openprot.Sm.Rot.{Rot}
use openprot.Sm.Handlers.{
  entry_action, handle_supervising, handle_recovering, handle_updating, handle_ready,
  handle_awaiting_ready, handle_pre_supervision, handle_power_on_reset, handle,
}
use openprot.Sm.Engine.{
  is_modelled, emit_all, apply_outcome, supervise, react, emitted, after, Orchestrator, step,
}

-- The machine, locked.
unfoldable pub lock : Orchestrator → Orchestrator
lock o = record { rot = o.rot; state = locked }

pub locked-step :
    (r : Rot) (event : Event)
    → step (record { rot = r; state = locked }) event ≡ (record { rot = r; state = locked }, [])
unfolding step after emitted react handle supervise apply_outcome emit_all
locked-step r event = elim (Bool-cases (is_modelled r event)) [
  | inl y ↦ rw y refl
  | inr n ↦ rw n refl
]

-- In `Locked` every event changes nothing and emits nothing.
pub locked_is_terminal :
    (o : Orchestrator) (event : Event) → o.state ≡ locked → step o event ≡ (o, [])
locked_is_terminal o event h =
    subst (λ o. step o event ≡ (o, [])) (λ i. record { rot = o.rot; state = (sym h) i })
      (locked-step o.rot event)

-- `EffectFailed` locks the machine from every state, changes nothing else, and latches the lockdown
-- unless the machine was locked already.
pub effect_failed_locks :
    (o : Orchestrator)
    → (after o effect_failed ≡ lock o)
      × ((emitted o effect_failed ≡ latch_lockdown ∷ [])
          ⊎ ((o.state ≡ locked) × (emitted o effect_failed ≡ [])))
unfolding lock after emitted react handle supervise apply_outcome handle_power_on_reset
    handle_pre_supervision handle_awaiting_ready handle_ready handle_updating handle_recovering
    handle_supervising entry_action
effect_failed_locks o =
    let m : is_modelled o.rot effect_failed ≡ true = (unfold is_modelled component_id in refl) in
    rw m (locks o.state o.rot)
  where
    machine : Rot → State → Orchestrator
    machine r s = record { rot = r; state = s }

    locks :
        (s : State) (r : Rot)
        → (machine (react s effect_failed r).0 (react s effect_failed r).2 ≡ machine r locked)
          × (((react s effect_failed r).1 ≡ latch_lockdown ∷ [])
              ⊎ ((s ≡ locked) × ((react s effect_failed r).1 ≡ [])))
    locks power_on_reset r = (refl, inl refl)
    locks pre_supervision r = (refl, inl refl)
    locks (awaiting_ready a) r = (refl, inl refl)
    locks ready r = (refl, inl refl)
    locks updating r = (refl, inl refl)
    locks (recovering i) r = (refl, inl refl)
    locks locked r = (refl, inr (refl, refl))
