-- ===== src/Sm/Rot.antt =====
-- services/orchestrator/sm/src/lib.rs: the storage `Rot<N, E>` and the methods that the handlers
-- share. `chain_capacity` is the parameter N, `effect_capacity` the parameter E.
-- A method with `&mut self` and `ctx: &mut Sink<E>` reads and writes the storage and can only
-- append to the sink. It is an `Act`: a function from the storage to the new storage, the effects
-- that it appends, in order, and its result. `Sm.Engine` pushes the effects into the sink.
-- `statuses` is parallel to `chain`; an index past its end, a panic in the source, reads as no status.
pub mod Statuses
pub mod Soundness
use openprot.Prelude.{
  ℕ, suc, ◌%◌, Bool, true, false, not, Option, none, some, List, [], ◌∷◌, ◌++◌, ltb, ◌==◌,
  if◌then◌else◌, length, get_elem?, modify, drop, map,
}
use openprot.Sm.Model.{
  ComponentId, ComponentAttrs, Entry, Effect, State, read_firmware, verify_firmware, assert_reset,
  report_isolated, Chain, position,
}

pub data Outcome : Type 0 where
  handled : Outcome
  transition : State → Outcome
  super : Outcome

pub data Gating : Type 0 where
  gated not_gated : Gating

pub data ComponentLifecycle : Type 0 where
  nominal isolated : ComponentLifecycle

pub record ComponentStatus : Type 0 where
  pub lifecycle : ComponentLifecycle
  pub retry : ℕ
  pub awaiting_boot : Bool
  pub released : Bool

-- `ComponentStatus::default()`
abbrev pub fresh_status : ComponentStatus
fresh_status = record { lifecycle = nominal; retry = 0; awaiting_boot = false; released = false }

pub record Rot : Type 0 where
  pub chain_capacity : ℕ
  pub effect_capacity : ℕ
  pub chain : List Entry
  pub cursor : ℕ
  pub statuses : List ComponentStatus
  pub max_retry : ℕ
  pub pending_commit : Bool

-- `Rot::new`
unfoldable pub new_rot : ℕ → ℕ → Chain → ℕ → Rot
new_rot n e chain max_retry = record {
  chain_capacity = n;
  effect_capacity = e;
  chain = chain.entries;
  cursor = 0;
  statuses = map (λ _. fresh_status) chain.entries;
  max_retry = max_retry;
  pending_commit = false;
}

abbrev pub Act : Type 0 → Type 0
Act A = Rot → Rot × List Effect × A

infixl 5 ◌>>=◌ ◌>>◌
abbrev pub ◌>>=◌ : {A B : Type 0} → Act A → (A → Act B) → Act B
◌>>=◌ m f r = let (r1, es1, a) = m r in let (r2, es2, b) = f a r1 in (r2, es1 ++ es2, b)

abbrev pub ◌>>◌ : {A B : Type 0} → Act A → Act B → Act B
◌>>◌ m n r = let (r1, es1, a) = m r in let (r2, es2, b) = n r1 in (r2, es1 ++ es2, b)

abbrev pub pure : {A : Type 0} → A → Act A
pure a r = (r, [], a)

abbrev pub gets : {A : Type 0} → (Rot → A) → Act A
gets f r = (r, [], f r)

abbrev pub ctx_emit : Effect → Act Unit
ctx_emit e r = (r, e ∷ [], tt)

abbrev pub change : (Rot → Rot) → Act Unit
change f r = (f r, [], tt)

-- `Rot::attrs_of`
unfoldable pub find_attrs : List Entry → ComponentId → Option ComponentAttrs
find_attrs [] id = none
find_attrs ((cid, attrs) ∷ rest) id =
    let later = find_attrs rest id in if cid == id then some attrs else later

-- `Rot::status_index`
abbrev pub status_index : Rot → ComponentId → Option ℕ
status_index r id = position r.chain id

-- `Rot::in_chain`
unfoldable pub in_chain : Rot → ComponentId → Bool
in_chain r id = elim (status_index r id) [ none ↦ false | some i ↦ true ]

-- `self.status_index(id).map(|i| self.statuses[i])`, of a chain and its statuses.
unfoldable pub lookup_status :
    List Entry → List ComponentStatus → ComponentId → Option ComponentStatus
lookup_status chain statuses id = elim (position chain id) [
  | none ↦ none
  | some i ↦ get_elem? statuses i
]

abbrev pub status_of : Rot → ComponentId → Option ComponentStatus
status_of r id = lookup_status r.chain r.statuses id

-- `if let Some(i) = self.status_index(id) { … self.statuses[i] … }`
unfoldable pub change_status :
    List Entry
    → List ComponentStatus
    → ComponentId
    → (ComponentStatus → ComponentStatus)
    → List ComponentStatus
change_status chain statuses id f = elim (position chain id) [
  | none ↦ statuses
  | some i ↦ modify statuses i f
]

abbrev pub update_status : ComponentId → (ComponentStatus → ComponentStatus) → Rot → Rot
update_status id f r = record r { statuses = change_status r.chain r.statuses id f }

abbrev pub is_isolated : ComponentLifecycle → Bool
is_isolated nominal = false
is_isolated isolated = true

abbrev pub status_gated : Option ComponentStatus → Bool
status_gated none = false
status_gated (some s) = is_isolated s.lifecycle

abbrev pub status_awaiting : Option ComponentStatus → Bool
status_awaiting none = false
status_awaiting (some s) = s.awaiting_boot

abbrev pub status_retry : Option ComponentStatus → ℕ
status_retry none = 0
status_retry (some s) = s.retry

-- `Rot::is_gated`
abbrev pub is_gated : Rot → ComponentId → Bool
is_gated r id = status_gated (status_of r id)

-- `Rot::is_awaiting_boot`
abbrev pub is_awaiting_boot : Rot → ComponentId → Bool
is_awaiting_boot r id = status_awaiting (status_of r id)

abbrev pub gate_status : ComponentStatus → ComponentStatus
gate_status s = record s { lifecycle = isolated; awaiting_boot = false; released = false }

-- `Rot::gate_one`
unfoldable pub gate_one : ComponentId → Act Bool
gate_one id r =
    if is_gated r id
    then (r, [], false)
    else (update_status id gate_status r, assert_reset id ∷ report_isolated id ∷ [], true)

abbrev pub saturating_inc_u8 : ℕ → ℕ
saturating_inc_u8 n = if ltb n 255 then suc n else 255

abbrev pub bump_status : ComponentStatus → ComponentStatus
bump_status s = record s { retry = saturating_inc_u8 s.retry }

-- `Rot::bump_retry`; the count read after the write, and 0 for an id outside the chain.
unfoldable pub bump_retry : ComponentId → Act ℕ
bump_retry id r =
    let r' = update_status id bump_status r in (r', [], status_retry (status_of r' id))

abbrev pub clear_retry_status : ComponentStatus → ComponentStatus
clear_retry_status s = record s { retry = 0 }

-- `Rot::clear_retry`
abbrev pub clear_retry : ComponentId → Rot → Rot
clear_retry id r = update_status id clear_retry_status r

abbrev pub release_status : ComponentStatus → ComponentStatus
release_status s = record s { awaiting_boot = true; released = true }

-- `Rot::mark_released`
abbrev pub mark_released : ComponentId → Rot → Rot
mark_released id r = update_status id release_status r

abbrev pub booted_status : ComponentStatus → ComponentStatus
booted_status s = record s { awaiting_boot = false }

-- `Rot::clear_awaiting_boot`
abbrev pub clear_awaiting_boot : ComponentId → Rot → Rot
clear_awaiting_boot id r = update_status id booted_status r

-- `self.chain.get(self.cursor as usize).map(|(c, _)| c)`
abbrev pub entry_id : Option Entry → Option ComponentId
entry_id none = none
entry_id (some (id, _)) = some id

abbrev pub cursor_id : Rot → Option ComponentId
cursor_id r = entry_id (get_elem? r.chain r.cursor)

-- The loop of `Rot::advance_to_next_ungated`, at index `idx`, over `chain[idx..]`.
unfoldable pub advance_from : List Entry → ℕ → Act Bool
advance_from [] idx r = (record r { cursor = length r.chain % 256 }, [], false)
advance_from ((id, _) ∷ rest) idx r =
    let later = advance_from rest (suc idx) r in
    if not (is_gated r id)
    then (record r { cursor = idx % 256 }, read_firmware id ∷ verify_firmware id ∷ [], true)
    else later

-- `Rot::advance_to_next_ungated`
unfoldable pub advance_to_next_ungated : ℕ → Act Bool
advance_to_next_ungated start_idx r = advance_from (drop start_idx r.chain) start_idx r

abbrev pub quiesce_status : ComponentStatus → ComponentStatus
quiesce_status s = if s.released then record s { released = false; awaiting_boot = false } else s

-- The loop of `Rot::quiesce_all`: the chain and its statuses are walked together.
unfoldable pub quiesce_effects : List Entry → List ComponentStatus → List Effect
quiesce_effects [] statuses = []
quiesce_effects (entry ∷ chain) [] = []
quiesce_effects ((id, _) ∷ chain) (s ∷ statuses) =
    let later = quiesce_effects chain statuses in
    if s.released then assert_reset id ∷ later else later

-- `Rot::quiesce_all`
unfoldable pub quiesce_all : Act Unit
quiesce_all r =
    (record r { statuses = map quiesce_status r.statuses }, quiesce_effects r.chain r.statuses, tt)
