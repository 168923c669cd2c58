-- ===== src/Sm/Boot/Passes.antt =====
-- One event of the boot (services/orchestrator/sm/src/lib.rs): the images pass, and the components come up.

use openprot.Sm.Rot.Soundness.{All-change_status}
use openprot.Sm.Handlers.{
  handle_supervising, handle_ready, handle_awaiting_ready, entry_action, release,
  handle_pre_supervision, handle,
}
use openprot.Sm.Model.Valid.{IsUnique}
use native.Mathlib.Nat.{mod-eq_of_lt}
use openprot.Prelude.{
  All-get_elem?, Option-cases, ℕ, zero, suc, ◌≤◌, ◌<◌, ◌%◌, ◌≡◌, refl, ap, ◌⊎◌, inl, inr, true,
  false, Option, none, some, List, [], ◌∷◌, ◌++◌, arith, length, get_elem?, drop, All, ==_refl, leb,
}
use openprot.Sm.Model.{
  position, verify_firmware, read_firmware, ComponentId, ComponentKind, active, passive,
  ComponentAttrs, Entry, Event, verification_passed, component_ready, Effect, State,
  pre_supervision, awaiting_ready, ready,
}
use openprot.Sm.Rot.{
  clear_awaiting_boot, clear_retry_status, release_status, is_isolated, clear_retry, advance_from,
  lookup_status, mark_released, ComponentStatus, nominal, Rot, is_gated, advance_to_next_ungated,
}
use openprot.Sm.Engine.{apply_outcome, supervise, react}

-- What is told of a component when its image passes and it comes up.
abbrev pub boots_as : ComponentId → ComponentKind → List Event
boots_as id active = verification_passed id ∷ component_ready id ∷ []
boots_as id passive = verification_passed id ∷ []

abbrev pub boots : Entry → List Event
boots (id, attrs) = boots_as id attrs.kind

abbrev pub all_boot : List Entry → List Event
all_boot [] = []
all_boot (entry ∷ chain) = boots entry ++ all_boot chain

abbrev pub IsNominal : ComponentStatus → Type 0
IsNominal s = s.lifecycle ≡ nominal

-- The walk stands in front of `rest`, with every component in service.
pub record Stands (rest : List Entry) (r : Rot) (state : State) : Type 0 where
  pub nominal_all : All IsNominal r.statuses
  pub unique : IsUnique r.chain
  pub short : length r.chain ≤ 255
  pub in_front : drop r.cursor r.chain ≡ rest
  pub walking : (state ≡ pre_supervision) ⊎ (state ≡ awaiting_ready none)

IsNominal-gated : (r : Rot) (id : ComponentId) → All IsNominal r.statuses → is_gated r id ≡ false
unfolding lookup_status
IsNominal-gated r id h = elim (Option-cases (position r.chain id)) [
  | inl n ↦ rw (n, lookup_status) refl
  | inr (i, e) ↦
      rw (e, lookup_status)
        (elim (Option-cases (get_elem? r.statuses i)) [
          | inl n ↦ rw n refl
          | inr (s, g) ↦ rw g (ap is_isolated (All-get_elem? IsNominal r.statuses i s h g))
        ])
]

pub drop-cons :
    (chain : List Entry) (k : ℕ) (e : Entry) (rest : List Entry)
    → drop k chain ≡ e ∷ rest
    → (get_elem? chain k ≡ some e) × (drop (suc k) chain ≡ rest) × (k < length chain)
drop-cons [] zero e rest h = cc
drop-cons [] (suc k) e rest h = cc
drop-cons (x ∷ chain) zero e rest h = (ap head h, ap tail h, omega arith)
  where
    head : List Entry → Option Entry
    head [] = none
    head (y ∷ ys) = some y

    tail : List Entry → List Entry
    tail [] = []
    tail (y ∷ ys) = ys
drop-cons (x ∷ chain) (suc k) e rest h =
    let d = drop-cons chain k e rest h in (d.0, d.1, omega (arith, d.2))

pub advance_front :
    (start : ℕ) (r : Rot) (id : ComponentId) (attrs : ComponentAttrs) (rest : List Entry)
    → All IsNominal r.statuses
    → length r.chain ≤ 255
    → drop start r.chain ≡ (id, attrs) ∷ rest
    → advance_to_next_ungated start r
      ≡ (record r { cursor = start }, read_firmware id ∷ verify_firmware id ∷ [], true)
unfolding advance_to_next_ungated advance_from
advance_front start r id attrs rest n short d =
    let lt = (drop-cons r.chain start (id, attrs) rest d).2 in
    rw (d, IsNominal-gated r id n, mod-eq_of_lt {n = start} {m = 256} (omega arith)) refl

advance_end :
    (start : ℕ) (r : Rot)
    → drop start r.chain ≡ []
    → advance_to_next_ungated start r ≡ (record r { cursor = length r.chain % 256 }, [], false)
unfolding advance_to_next_ungated advance_from
advance_end start r d = rw d refl

-- The storage after a pass, with the next component under verification.
abbrev pub passed : Rot → ComponentId → Rot
passed r id = record (mark_released id (clear_retry id r)) { cursor = suc r.cursor }

pub passed_statuses :
    (r : Rot) (id : ComponentId)
    → All IsNominal r.statuses
    → All IsNominal (mark_released id (clear_retry id r)).statuses
passed_statuses r id h =
    All-change_status IsNominal r.chain _ id release_status (λ s k. k)
      (All-change_status IsNominal r.chain r.statuses id clear_retry_status (λ s k. k) h)

-- The state after a pass.
abbrev passed_state : State → ComponentId → ComponentKind → State
passed_state pre_supervision id active = awaiting_ready (some id)
passed_state state id kind = state

abbrev pub Ends : Rot × List Effect × State → Rot → State → Type 0
Ends res r state = (res.0 ≡ r) × (res.2 ≡ state)

module _ (r : Rot) (id : ComponentId) (attrs : ComponentAttrs) where
  pub last_pre :
      get_elem? r.chain r.cursor ≡ some (id, attrs)
      → drop (suc r.cursor) r.chain ≡ []
      → (react pre_supervision (verification_passed id) r).2 ≡ ready
  unfolding react handle handle_pre_supervision release supervise apply_outcome entry_action
  last_pre g d =
      rw (g, ==_refl id, advance_end (suc r.cursor) (mark_released id (clear_retry id r)) d) refl

  pub last_awaiting :
      get_elem? r.chain r.cursor ≡ some (id, attrs)
      → drop (suc r.cursor) r.chain ≡ []
      → (react (awaiting_ready none) (verification_passed id) r).2 ≡ ready
  unfolding react handle handle_awaiting_ready release supervise apply_outcome entry_action
  last_awaiting g d =
      rw (g, ==_refl id, advance_end (suc r.cursor) (mark_released id (clear_retry id r)) d) refl

  module _ (id' : ComponentId) (attrs' : ComponentAttrs) (rest : List Entry)
      (n : All IsNominal r.statuses) (short : length r.chain ≤ 255)
      (g : get_elem? r.chain r.cursor ≡ some (id, attrs))
      (d : drop (suc r.cursor) r.chain ≡ (id', attrs') ∷ rest) where
    pub next_pre :
        (kind : ComponentKind)
        → attrs.kind ≡ kind
        → Ends
            (react pre_supervision (verification_passed id) r)
            (passed r id)
            (passed_state pre_supervision id kind)
    unfolding react handle handle_pre_supervision release supervise apply_outcome entry_action
    next_pre active k =
        rw
          (
            g,
            ==_refl id,
            advance_front (suc r.cursor) (mark_released id (clear_retry id r)) id' attrs' rest
                (passed_statuses r id n) short d,
            k,
          )
          (refl, refl)
    next_pre passive k =
        rw
          (
            g,
            ==_refl id,
            advance_front (suc r.cursor) (mark_released id (clear_retry id r)) id' attrs' rest
                (passed_statuses r id n) short d,
            k,
          )
          (refl, refl)

    pub next_awaiting :
        Ends
          (react (awaiting_ready none) (verification_passed id) r)
          (passed r id)
          (awaiting_ready none)
    unfolding react handle handle_awaiting_ready release supervise apply_outcome entry_action
    next_awaiting =
        rw
          (
            g,
            ==_refl id,
            advance_front (suc r.cursor) (mark_released id (clear_retry id r)) id' attrs' rest
                (passed_statuses r id n) short d,
          )
          (refl, refl)

pub ready_awaited :
    (r : Rot) (id : ComponentId)
    → r.cursor < length r.chain
    → Ends
        (react (awaiting_ready (some id)) (component_ready id) r)
        (clear_awaiting_boot id r)
        (awaiting_ready none)
unfolding react handle handle_awaiting_ready supervise apply_outcome entry_action
ready_awaited r id lt =
    let l : leb (length r.chain) r.cursor ≡ false = ground arith in rw (==_refl id, l) (refl, refl)

pub ready_unawaited :
    (r : Rot) (id : ComponentId)
    → Ends
        (react (awaiting_ready none) (component_ready id) r)
        (clear_awaiting_boot id r)
        (awaiting_ready none)
unfolding react handle handle_awaiting_ready supervise apply_outcome entry_action
ready_unawaited r id = (refl, refl)

pub ready_late : (r : Rot) (id : ComponentId) → (react ready (component_ready id) r).2 ≡ ready
unfolding react handle handle_ready supervise apply_outcome entry_action handle_supervising
ready_late r id = refl
