-- ===== src/Sm/Boot.antt =====
-- The boot of a chain whose images pass (services/orchestrator/sm/src/lib.rs).
pub mod Passes
use openprot.Sm.Model.TryFrom.{try_from-IsValidChain, try_from-entries}
use openprot.Sm.Rot.Soundness.{All-change_status}
use openprot.Sm.Handlers.{handle_power_on_reset, entry_action, handle}
use openprot.Sm.Model.Valid.{IsValidChain, position-get_elem?, IsUnique}
use openprot.Prelude.{
  ℕ, suc, ◌≤◌, ◌<◌, ◌≡◌, refl, sym, ap, ◌∙◌, subst, ◌⊎◌, inl, inr, true, none, some, List, [], ◌∷◌,
  length, get_elem?, drop, map, All, ok, Bool-cases,
}
use openprot.Sm.Model.{
  power_on_reset, component_id, ComponentId, ComponentKind, active, passive, ComponentAttrs, Entry,
  Chain, try_from, Event, power_good, provisioned, verification_passed, component_ready, State,
  pre_supervision, awaiting_ready, ready,
}
use openprot.Sm.Rot.{
  new_rot, quiesce_all, fresh_status, quiesce_status, in_chain, booted_status, clear_awaiting_boot,
  Rot,
}
use openprot.Sm.Engine.{
  is_modelled, apply_outcome, supervise, react, Orchestrator, new, step, after, run_events,
}
use openprot.Sm.Boot.Passes.{
  all_boot, IsNominal, Stands, drop-cons, advance_front, passed, passed_statuses, Ends, last_pre,
  last_awaiting, next_pre, next_awaiting, ready_awaited, ready_unawaited, ready_late,
}

abbrev machine : Rot → State → Orchestrator
machine r state = record { rot = r; state = state }

step-Ends :
    (r : Rot) (state : State) (event : Event) (r' : Rot) (state' : State)
    → is_modelled r event ≡ true
    → Ends (react state event r) r' state'
    → (step (machine r state) event).0 ≡ machine r' state'
unfolding step after
step-Ends r state event r' state' m e = rw m (λ i. machine (e.0 i) (e.1 i))

step-state :
    (r : Rot) (state : State) (event : Event) (state' : State)
    → is_modelled r event ≡ true
    → (react state event r).2 ≡ state'
    → (step (machine r state) event).0.state ≡ state'
unfolding step after
step-state r state event state' m e = rw m e

ready_stays :
    (o : Orchestrator) (id : ComponentId)
    → o.state ≡ ready
    → (step o (component_ready id)).0.state ≡ ready
unfolding step after
ready_stays o id h = elim (Bool-cases (is_modelled o.rot (component_ready id))) [
  | inl y ↦
      rw y
        (subst (λ s. (react s (component_ready id) o.rot).2 ≡ ready) (sym h) (ready_late o.rot id))
  | inr n ↦ rw n h
]

module _ (r : Rot) (k : ℕ) (id : ComponentId) (attrs : ComponentAttrs) (u : IsUnique r.chain)
    (g : get_elem? r.chain k ≡ some (id, attrs)) where
  pass-is_modelled : is_modelled r (verification_passed id) ≡ true
  unfolding is_modelled component_id in_chain
  pass-is_modelled = rw (position-get_elem? r.chain k id attrs u g, in_chain) refl

  up-is_modelled : is_modelled r (component_ready id) ≡ true
  unfolding is_modelled component_id in_chain
  up-is_modelled = rw (position-get_elem? r.chain k id attrs u g, in_chain) refl

passed-Stands :
    (r : Rot) (state state' : State) (id : ComponentId) (attrs : ComponentAttrs) (rest : List Entry)
    → Stands ((id, attrs) ∷ rest) r state
    → (state' ≡ pre_supervision) ⊎ (state' ≡ awaiting_ready none)
    → Stands rest (passed r id) state'
passed-Stands r state state' id attrs rest h w = record {
  nominal_all = passed_statuses r id h.nominal_all;
  unique = h.unique;
  short = h.short;
  in_front = (drop-cons r.chain r.cursor (id, attrs) rest h.in_front).1;
  walking = w;
}

up-Stands :
    (r : Rot) (state : State) (id : ComponentId) (rest : List Entry)
    → Stands rest r state
    → Stands rest (clear_awaiting_boot id r) (awaiting_ready none)
up-Stands r state id rest h = record {
  nominal_all =
      All-change_status IsNominal r.chain r.statuses id booted_status (λ s k. k) h.nominal_all;
  unique = h.unique;
  short = h.short;
  in_front = h.in_front;
  walking = inr refl;
}

BootsFrom : List Entry → Type 0
BootsFrom rest =
    (r : Rot) (state : State)
    → Stands rest r state
    → (run_events (machine r state) (all_boot rest)).state ≡ ready

last-boots :
    (id : ComponentId) (attrs : ComponentAttrs) (r : Rot) (state : State)
    → Stands ((id, attrs) ∷ []) r state
    → (run_events (machine r state) (all_boot ((id, attrs) ∷ []))).state ≡ ready
unfolding run_events
last-boots id attrs r state h = by_kind attrs.kind refl
  where
    d :
        (get_elem? r.chain r.cursor ≡ some (id, attrs))
        × (drop (suc r.cursor) r.chain ≡ [])
        × (r.cursor < length r.chain)
    d = drop-cons r.chain r.cursor (id, attrs) [] h.in_front

    ends :
        (s : State)
        → (s ≡ pre_supervision) ⊎ (s ≡ awaiting_ready none)
        → (react s (verification_passed id) r).2 ≡ ready
    ends s (inl e) =
        subst (λ s. (react s (verification_passed id) r).2 ≡ ready) (sym e)
          (last_pre r id attrs d.0 d.1)
    ends s (inr e) =
        subst (λ s. (react s (verification_passed id) r).2 ≡ ready) (sym e)
          (last_awaiting r id attrs d.0 d.1)

    there : (step (machine r state) (verification_passed id)).0.state ≡ ready
    there =
        step-state r state (verification_passed id) ready
          (pass-is_modelled r r.cursor id attrs h.unique d.0) (ends state h.walking)

    by_kind :
        (kind : ComponentKind)
        → attrs.kind ≡ kind
        → (run_events (machine r state) (all_boot ((id, attrs) ∷ []))).state ≡ ready
    by_kind passive e = rw e there
    by_kind active e =
        rw e (ready_stays (step (machine r state) (verification_passed id)).0 id there)

next-boots :
    (id : ComponentId) (attrs : ComponentAttrs) (e : Entry) (rest : List Entry)
    → BootsFrom (e ∷ rest)
    → BootsFrom ((id, attrs) ∷ e ∷ rest)
unfolding BootsFrom run_events
next-boots id attrs (id', attrs') rest later r state h = by_state h.walking attrs.kind refl
  where
    d :
        (get_elem? r.chain r.cursor ≡ some (id, attrs))
        × (drop (suc r.cursor) r.chain ≡ (id', attrs') ∷ rest)
        × (r.cursor < length r.chain)
    d = drop-cons r.chain r.cursor (id, attrs) ((id', attrs') ∷ rest) h.in_front

    m : is_modelled r (verification_passed id) ≡ true
    m = pass-is_modelled r r.cursor id attrs h.unique d.0

    m' : is_modelled (passed r id) (component_ready id) ≡ true
    m' = up-is_modelled (passed r id) r.cursor id attrs h.unique d.0

    stands : Stands ((id', attrs') ∷ rest) (passed r id) (awaiting_ready none)
    stands =
        passed-Stands r state (awaiting_ready none) id attrs ((id', attrs') ∷ rest) h (inr refl)

    ReadyAfter : Orchestrator → List Event → Type 0
    ReadyAfter o events = (run_events o events).state ≡ ready

    at_state :
        {t : State} {o : Orchestrator}
        → state ≡ t
        → (step (machine r t) (verification_passed id)).0 ≡ o
        → (step (machine r state) (verification_passed id)).0 ≡ o
    at_state {o = o} s q =
        subst (λ t. (step (machine r t) (verification_passed id)).0 ≡ o) (sym s) q

    on :
        state ≡ awaiting_ready none
        → (step (machine r state) (verification_passed id)).0
          ≡ machine (passed r id) (awaiting_ready none)
    on s = at_state s (
        step-Ends r (awaiting_ready none) (verification_passed id) (passed r id)
          (awaiting_ready none) m
          (next_awaiting r id attrs id' attrs' rest h.nominal_all h.short d.0 d.1))

    comes_up :
        (t : State)
        → (step (machine r state) (verification_passed id)).0 ≡ machine (passed r id) t
        → Ends
            (react t (component_ready id) (passed r id))
            (clear_awaiting_boot id (passed r id))
            (awaiting_ready none)
        → ReadyAfter
            (step (step (machine r state) (verification_passed id)).0 (component_ready id)).0
            (all_boot ((id', attrs') ∷ rest))
    comes_up t first up =
        subst (λ o. ReadyAfter o (all_boot ((id', attrs') ∷ rest)))
          (sym (
            ap (λ o. (step o (component_ready id)).0) first
            ∙ step-Ends (passed r id) t (component_ready id) (clear_awaiting_boot id (passed r id))
                (awaiting_ready none) m' up))
          (later (clear_awaiting_boot id (passed r id)) (awaiting_ready none)
            (up-Stands (passed r id) (awaiting_ready none) id ((id', attrs') ∷ rest) stands))

    by_state :
        (state ≡ pre_supervision) ⊎ (state ≡ awaiting_ready none)
        → (kind : ComponentKind) → attrs.kind ≡ kind
        → (run_events (machine r state) (all_boot ((id, attrs) ∷ (id', attrs') ∷ rest))).state
          ≡ ready
    by_state (inl s) passive e =
        let first = at_state s (
          step-Ends r pre_supervision (verification_passed id) (passed r id) pre_supervision m
            (next_pre r id attrs id' attrs' rest h.nominal_all h.short d.0 d.1 passive e)) in
        rw e (
          subst (λ o. ReadyAfter o (all_boot ((id', attrs') ∷ rest))) (sym first)
            (later (passed r id) pre_supervision
              (passed-Stands r state pre_supervision id attrs ((id', attrs') ∷ rest) h (inl refl))))
    by_state (inl s) active e =
        let first = at_state s (
          step-Ends r pre_supervision (verification_passed id) (passed r id)
            (awaiting_ready (some id)) m
            (next_pre r id attrs id' attrs' rest h.nominal_all h.short d.0 d.1 active e)) in
        let behind = (drop-cons r.chain (suc r.cursor) (id', attrs') rest d.1).2 in
        rw e (comes_up (awaiting_ready (some id)) first (ready_awaited (passed r id) id behind))
    by_state (inr s) passive e = rw e (
        subst (λ o. ReadyAfter o (all_boot ((id', attrs') ∷ rest))) (sym (on s))
          (later (passed r id) (awaiting_ready none) stands))
    by_state (inr s) active e =
        rw e (comes_up (awaiting_ready none) (on s) (ready_unawaited (passed r id) id))

boots_all : (e : Entry) (rest : List Entry) → BootsFrom (e ∷ rest)
unfolding BootsFrom
boots_all (id, attrs) [] r state h = last-boots id attrs r state h
boots_all (id, attrs) (e ∷ rest) r state h = next-boots id attrs e rest (boots_all e rest) r state h

fresh-IsNominal :
    (chain : List Entry) → All IsNominal (map quiesce_status (map (λ _. fresh_status) chain))
fresh-IsNominal [] = tt
fresh-IsNominal (e ∷ chain) = (refl, fresh-IsNominal chain)

start-Ends :
    (r : Rot) (id : ComponentId) (attrs : ComponentAttrs) (rest : List Entry)
    → All IsNominal (map quiesce_status r.statuses)
    → length r.chain ≤ 255
    → r.chain ≡ (id, attrs) ∷ rest
    → Ends
        (react power_on_reset (power_good provisioned) r)
        (record (quiesce_all r).0 { cursor = 0 })
        pre_supervision
unfolding react handle handle_power_on_reset supervise apply_outcome entry_action quiesce_all
start-Ends r id attrs rest n short d =
    rw (advance_front 0 (quiesce_all r).0 id attrs rest n short d) (refl, refl)

-- For every chain that `try_from` accepts: when the platform is provisioned, and the image of each
-- component passes in chain order, each active one telling that it is ready before the next, the
-- machine reaches `Ready`.
pub boot_reaches_ready :
    (n e : ℕ) (entries : List Entry) (chain : Chain) (max_retry : ℕ)
    → try_from entries ≡ ok chain
    → (run_events (new n e chain max_retry) (power_good provisioned ∷ all_boot entries)).state
      ≡ ready
unfolding run_events BootsFrom new new_rot quiesce_all
boot_reaches_ready n e [] chain max_retry h = absurd (empty_refused h)
  where
    empty_refused : try_from [] ≡ ok chain → ⊥
    empty_refused q = unfold try_from in cc
boot_reaches_ready n e ((id, attrs) ∷ rest) chain max_retry h =
    let r = new_rot n e chain max_retry in
    let r' = record (quiesce_all r).0 { cursor = 0 } in
    let started =
      step-Ends r power_on_reset (power_good provisioned) r' pre_supervision provisioned_is_modelled
        (start-Ends r id attrs rest (fresh-IsNominal chain.entries)
          (subst (λ c. length c ≤ 255) (sym same) valid.indexable) same) in
    let stands : Stands ((id, attrs) ∷ rest) r' pre_supervision = record {
      nominal_all = fresh-IsNominal chain.entries;
      unique = subst IsUnique (sym same) valid.unique;
      short = subst (λ c. length c ≤ 255) (sym same) valid.indexable;
      in_front = same;
      walking = inl refl;
    } in
    subst (λ o. (run_events o (all_boot ((id, attrs) ∷ rest))).state ≡ ready) (sym started)
      (boots_all (id, attrs) rest r' pre_supervision stands)
  where
    same : chain.entries ≡ (id, attrs) ∷ rest
    same = try_from-entries ((id, attrs) ∷ rest) chain h

    chain_of : chain.entries ≡ (id, attrs) ∷ rest → chain ≡ record { entries = (id, attrs) ∷ rest }
    chain_of s = λ i. record { entries = s i }

    valid : IsValidChain ((id, attrs) ∷ rest)
    valid = (try_from-IsValidChain ((id, attrs) ∷ rest)).0 (h ∙ ap ok (chain_of same))

    provisioned_is_modelled :
        is_modelled (new_rot n e chain max_retry) (power_good provisioned) ≡ true
    provisioned_is_modelled = unfold is_modelled component_id in refl
