-- ===== src/Watchdogs/Drain.antt =====
-- Draining the watchdogs (services/orchestrator/server/src/runtime.rs).
use openprot.Prelude.{
  ℕ, zero, suc, ◌<◌, ◌≡◌, sym, subst, inl, inr, Option, none, some, List, [], ◌∷◌, arith,
}
use openprot.Sm.Model.{Event}
use openprot.Timer.{Expired, next_deadline, poll}
use openprot.Timer.Armed.{IsWellFormed, armed_count}
use openprot.Timer.Nearest.{poll-Pops}
use openprot.Timer.Nearest.Search.{IsLater}
use openprot.Watchdogs.{
  BootWatchdogs, or_max, wait_deadline, expired_events, poll_expired, drain_expired,
}

later-wait :
    (instant_max now : ℕ) (next : Option ℕ)
    → now < instant_max
    → IsLater now next
    → now < or_max instant_max next
later-wait instant_max now none h l = h
later-wait instant_max now (some t) h l = l

-- For a well-formed timer and a clock that has not reached `Instant::MAX`: as many rounds as there
-- are armed watchdogs, and one more, drain all that are due. The timer is then well-formed, and the
-- deadline to wait for is in the future, so that the run loop does not spin.
pub drained_wait :
    (instant_max now fuel : ℕ) (timers : BootWatchdogs)
    → now < instant_max
    → IsWellFormed timers
    → armed_count timers < fuel
    → IsWellFormed (drain_expired now fuel timers).0
      × (now < wait_deadline instant_max (drain_expired now fuel timers).0)
unfolding drain_expired poll_expired wait_deadline
drained_wait instant_max now zero timers h wf enough = absurd (omega arith)
drained_wait instant_max now (suc fuel) timers h wf enough = elim (poll-Pops now timers wf) [
  | inl (e, l) ↦ subst Drains (sym e) (wf, later-wait instant_max now (next_deadline timers) h l)
  | inr (t, fired, e, n, le, d, wf', fewer, others) ↦
      more (poll now timers).1 fired e
        (drained_wait instant_max now fuel (poll now timers).0 h wf' (omega (arith, fewer)))
]
  where
    drained : BootWatchdogs × Option Event → BootWatchdogs × List Event
    drained res = elim res.1 [
      | none ↦ (res.0, [])
      | some event ↦ ((drain_expired now fuel res.0).0, event ∷ (drain_expired now fuel res.0).1)
    ]

    Waits : BootWatchdogs → Type 0
    Waits timers = IsWellFormed timers × (now < wait_deadline instant_max timers)

    Drains : BootWatchdogs × Option Expired → Type 0
    Drains res = Waits (drained (expired_events res)).0

    more :
        (o : Option Expired) (fired : Expired)
        → o ≡ some fired
        → Waits (drain_expired now fuel (poll now timers).0).0
        → Drains ((poll now timers).0, o)
    more o fired e w = subst (λ o. Drains ((poll now timers).0, o)) (sym e) w
