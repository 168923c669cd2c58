-- ===== src/Sm/Trace.antt =====
-- Histories of events (services/orchestrator/sm/src/lib.rs): what holds after every one, and what
-- the effects of the whole history are.
use openprot.Prelude.{
  zero, suc, ◌⊎◌, inl, inr, suc, ◌⊎◌, inr, inl, get_elem?, ℕ, ◌+◌, ◌*◌, ◌≤◌, ◌≡◌, refl, sym, ◌∙◌,
  ap, subst, true, false, Option, none, some, List, [], ◌∷◌, arith, length, ok, map, All,
}
use openprot.Sm.Model.{
  power_on_reset, pre_supervision, awaiting_ready, ready, updating, recovering, recovering,
  awaiting_ready, ready, position, ComponentId, Event, Entry, Chain, try_from, State, locked,
}
use openprot.Sm.Model.TryFrom.{try_from-IsValidChain, try_from-entries}
use openprot.Sm.Rot.{ComponentStatus, fresh_status, status_of, lookup_status, Rot}
use openprot.Sm.Rot.Soundness.{IsCoherent}
use openprot.Sm.Engine.{Orchestrator, new, step, run_events, trace}
use openprot.Sm.Lifecycle.{held, phase, replay}
use openprot.Sm.Walk.{Evolves, Evolves-refl, Evolves-trans}
use openprot.Sm.Invariant.{StateOk, Inv}
use openprot.Sm.Invariant.Step.{after-Inv, emitted-Evolves}
use openprot.Sm.Budget.Step.{step-emitted}

fresh-All : (chain : List Entry) → All IsCoherent (map (λ _. fresh_status) chain)
fresh-All [] = tt
fresh-All (e ∷ chain) = (ground arith, fresh-All chain)

length-fresh : (chain : List Entry) → length (map (λ _. fresh_status) chain) ≡ length chain
length-fresh [] = refl
length-fresh (e ∷ chain) = omega (arith, length-fresh chain)

-- A machine built from a chain that `Chain::try_from` accepts, with an effect buffer of the size
-- that `Rot::new` asks for, satisfies the invariant.
pub new-Inv :
    (n e : ℕ) (entries : List Entry) (chain : Chain) (max_retry : ℕ)
    → try_from entries ≡ ok chain
    → length entries ≤ n
    → 2 * n + 2 ≤ e
    → Inv (new n e chain max_retry)
unfolding new
new-Inv n e entries chain max_retry h fits room =
    let same = try_from-entries entries chain h in
    record {
      based = record {
        valid = rw same ((try_from-IsValidChain entries).0 (h ∙ ap ok (chain_of same)));
        roomy = rw same fits;
        buffered = room;
      };
      sound = record { parallel = length-fresh chain.entries; coherent = fresh-All chain.entries };
      state_ok = refl;
    }
  where
    chain_of : chain.entries ≡ entries → chain ≡ record { entries = entries }
    chain_of s = λ i. record { entries = s i }

-- A step of the source, sink and all, keeps the invariant.
pub step-Inv : (o : Orchestrator) (event : Event) → Inv o → Inv (step o event).0
unfolding step
step-Inv o event i = after-Inv o event i

pub step-Evolves :
    (o : Orchestrator) (event : Event) → Inv o → Evolves o.rot (step o event).1 (step o event).0.rot
step-Evolves o event i = rw (step-emitted o event i) (unfold step in emitted-Evolves o event i)

-- A machine that satisfies the invariant satisfies it after every history of events.
pub run_events-Inv : (o : Orchestrator) (events : List Event) → Inv o → Inv (run_events o events)
unfolding run_events
run_events-Inv o [] i = i
run_events-Inv o (event ∷ events) i = run_events-Inv (step o event).0 events (step-Inv o event i)

-- Whatever the events, the effects of the whole history take every component along its life cycle
-- to the phase that the machine records.
pub trace-Evolves :
    (o : Orchestrator) (events : List Event)
    → Inv o
    → Evolves o.rot (trace o events) (run_events o events).rot
unfolding trace run_events
trace-Evolves o [] i = Evolves-refl o.rot i.sound
trace-Evolves o (event ∷ events) i =
    Evolves-trans (step o event).1 _ (step-Evolves o event i)
      (trace-Evolves (step o event).0 events (step-Inv o event i))

get_elem?-fresh :
    (chain : List Entry) (i : ℕ)
    → (get_elem? (map (λ _. fresh_status) chain) i ≡ none)
      ⊎ (get_elem? (map (λ _. fresh_status) chain) i ≡ some fresh_status)
get_elem?-fresh [] i = inl refl
get_elem?-fresh (e ∷ chain) zero = inr refl
get_elem?-fresh (e ∷ chain) (suc i) = get_elem?-fresh chain i

lookup-fresh :
    (chain : List Entry) (id : ComponentId)
    → phase (lookup_status chain (map (λ _. fresh_status) chain) id) ≡ held
unfolding lookup_status
lookup-fresh chain id =
    elim (position chain id)
      as (λ p.
        phase (elim p as (λ _. Option ComponentStatus) [
          | none ↦ none
          | some i ↦ get_elem? (map (λ _. fresh_status) chain) i
        ])
        ≡ held) [
          | none ↦ refl
          | some i ↦ elim (get_elem?-fresh chain i) [ inl h ↦ ap phase h | inr h ↦ ap phase h ]
        ]

-- For a machine built by `new` from a chain that `try_from` accepts, with room for the chain and
-- an effect buffer of 2 N + 2, for every history of events and every component: the effects that
-- the machine emits are a run of the component's life cycle from reset, and that run ends in the
-- phase that the machine has on record.
pub trace-replay :
    (n e : ℕ) (entries : List Entry) (chain : Chain) (max_retry : ℕ) (events : List Event)
    (id : ComponentId)
    → try_from entries ≡ ok chain
    → length entries ≤ n
    → 2 * n + 2 ≤ e
    → replay id (trace (new n e chain max_retry) events) held
      ≡ some (phase (status_of (run_events (new n e chain max_retry) events).rot id))
trace-replay n e entries chain max_retry events id h fits room =
    let o = new n e chain max_retry in
    let start : phase (status_of o.rot id) ≡ held = (unfold new in lookup-fresh chain.entries id) in
    let t = trace-Evolves o events (new-Inv n e entries chain max_retry h fits room) in
    subst
      (λ p. replay id (trace o events) p ≡ some (phase (status_of (run_events o events).rot id)))
      start (t.refines id)

-- For a machine built by `new` from a chain that `try_from` accepts, with room for the chain and
-- an effect buffer of 2 N + 2: after every history of events, the commit window is open in `Ready`
-- and `Locked` only.
pub window_only_when_ready :
    (n e : ℕ) (entries : List Entry) (chain : Chain) (max_retry : ℕ) (events : List Event)
    → try_from entries ≡ ok chain
    → length entries ≤ n
    → 2 * n + 2 ≤ e
    → (run_events (new n e chain max_retry) events).rot.pending_commit ≡ true
    → ((run_events (new n e chain max_retry) events).state ≡ ready)
      ⊎ ((run_events (new n e chain max_retry) events).state ≡ locked)
window_only_when_ready n e entries chain max_retry events h fits room pending =
    let o = run_events (new n e chain max_retry) events in
    closed_elsewhere o.state o.rot
      (run_events-Inv (new n e chain max_retry) events
        (new-Inv n e entries chain max_retry h fits room)).state_ok
      pending
  where
    true_is_not_false : true ≡ false → ⊥
    true_is_not_false e = cc

    closed_elsewhere :
        (s : State) (r : Rot) → StateOk s r → r.pending_commit ≡ true → (s ≡ ready) ⊎ (s ≡ locked)
    closed_elsewhere ready r k w = inl refl
    closed_elsewhere locked r k w = inr refl
    closed_elsewhere power_on_reset r k w = absurd (true_is_not_false (sym w ∙ k))
    closed_elsewhere pre_supervision r k w = absurd (true_is_not_false (sym w ∙ k.1))
    closed_elsewhere (awaiting_ready a) r k w = absurd (true_is_not_false (sym w ∙ k.1))
    closed_elsewhere updating r k w = absurd (true_is_not_false (sym w ∙ k))
    closed_elsewhere (recovering i) r k w = absurd (true_is_not_false (sym w ∙ k))
