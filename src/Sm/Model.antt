-- ===== src/Sm/Model.antt =====
-- services/orchestrator/sm/src/model.rs: components, events, effects, states and the checked chain.
-- A `ComponentId` and a `RegionId` are wrapped bytes, and stand here as the numbers that they wrap;
-- a `&'static str` is a text.
pub mod Valid
pub mod TryFrom
use openprot.Prelude.{
  ℕ, suc, String, Bool, false, Option, none, some, List, [], ◌∷◌, ◌++◌, Result, ok, err, leb, ltb,
  ◌==◌, ◌||◌, if◌then◌else◌, length,
}

abbrev pub ComponentId : Type 0
ComponentId = ℕ

abbrev pub RegionId : Type 0
RegionId = ℕ

pub data ComponentKind : Type 0 where
  active passive : ComponentKind

pub data FailurePolicy : Type 0 where
  required isolable cascading : FailurePolicy

pub record ComponentAttrs : Type 0 where
  pub kind : ComponentKind
  pub failure_policy : FailurePolicy
  pub recovery_region : RegionId
  pub depends_on : Option ComponentId

-- The six named constructors of the source are the values of `plain`.
plain : ComponentKind → FailurePolicy → ComponentAttrs
plain kind policy = record {
  kind = kind;
  failure_policy = policy;
  recovery_region = 0;
  depends_on = none;
}

unfoldable pub active_required : ComponentAttrs
unfolding plain
active_required = plain active required

unfoldable pub passive_required : ComponentAttrs
unfolding plain
passive_required = plain passive required

unfoldable pub active_isolable : ComponentAttrs
unfolding plain
active_isolable = plain active isolable

unfoldable pub passive_isolable : ComponentAttrs
unfolding plain
passive_isolable = plain passive isolable

unfoldable pub active_cascading : ComponentAttrs
unfolding plain
active_cascading = plain active cascading

unfoldable pub passive_cascading : ComponentAttrs
unfolding plain
passive_cascading = plain passive cascading

unfoldable pub with_region : ComponentAttrs → RegionId → ComponentAttrs
with_region attrs region = record attrs { recovery_region = region }

unfoldable pub with_depends_on : ComponentAttrs → ComponentId → ComponentAttrs
with_depends_on attrs dependency = record attrs { depends_on = some dependency }

pub data PowerOnResult : Type 0 where
  provisioned unprovisioned self_verification_failed : PowerOnResult

pub data BootFailureKind : Type 0 where
  timed_out device_retriable device_fatal : BootFailureKind

pub data Event : Type 0 where
  power_good : PowerOnResult → Event
  verification_passed : ComponentId → Event
  verification_failed : ComponentId → Event
  component_ready : ComponentId → Event
  booted : ComponentId → Event
  attestation_challenge : Event
  update_request : Event
  update_verified : Event
  update_rejected : Event
  boot_confirmed : ComponentId → Event
  corruption_detected : ComponentId → Event
  restored : ComponentId → Event
  recovery_unavailable : ComponentId → Event
  recovery_failed : Event
  boot_failed : ComponentId → String → BootFailureKind → Event
  timeout : ComponentId → Event
  commit_timeout : Event
  effect_failed : Event

-- `Event::component_id`: the component that an event is about.
unfoldable pub component_id : Event → Option ComponentId
component_id (verification_passed id) = some id
component_id (verification_failed id) = some id
component_id (component_ready id) = some id
component_id (booted id) = some id
component_id (boot_confirmed id) = some id
component_id (corruption_detected id) = some id
component_id (restored id) = some id
component_id (recovery_unavailable id) = some id
component_id (boot_failed id _ _) = some id
component_id (timeout id) = some id
component_id (power_good _) = none
component_id attestation_challenge = none
component_id update_request = none
component_id update_verified = none
component_id update_rejected = none
component_id recovery_failed = none
component_id commit_timeout = none
component_id effect_failed = none

pub data Effect : Type 0 where
  read_firmware : ComponentId → Effect
  verify_firmware : ComponentId → Effect
  release_reset : ComponentId → Effect
  assert_reset : ComponentId → Effect
  sign_attestation : Effect
  authenticate_update : Effect
  stage_update : Effect
  activate_update : Effect
  discard_staged : Effect
  commit_svn_floor : ComponentId → Effect
  recover_component : ComponentId → ℕ → Effect
  report_isolated : ComponentId → Effect
  report_recovery_failed : ComponentId → Effect
  report_boot_failed : ComponentId → String → BootFailureKind → Effect
  report_update_deferred : Effect
  report_update_aborted : Effect
  latch_lockdown : Effect
  emit : Event → Effect

pub data State : Type 0 where
  power_on_reset : State
  pre_supervision : State
  awaiting_ready : Option ComponentId → State
  ready : State
  updating : State
  recovering : ComponentId → State
  locked : State

abbrev pub Entry : Type 0
Entry = ComponentId × ComponentAttrs

-- `Chain<N>`: built by `try_from` alone.
pub record Chain : Type 0 where
  pub entries : List Entry

pub data ChainError : Type 0 where
  empty : ChainError
  too_long : ChainError
  duplicate_id : ComponentId → ChainError
  unknown_dependency : ComponentId → ComponentId → ChainError
  forward_dependency : ComponentId → ComponentId → ChainError

-- `iter().position(|(cid, _)| *cid == id)`
unfoldable pub position : List Entry → ComponentId → Option ℕ
position [] id = none
position ((cid, _) ∷ rest) id =
    let later = position rest id in
    if cid == id then some 0 else (elim later [ none ↦ none | some i ↦ some (suc i) ])

-- `entries[..i].iter().any(|(prev, _)| prev == id)`
unfoldable pub any_id : List Entry → ComponentId → Bool
any_id [] id = false
any_id ((prev, _) ∷ rest) id = prev == id || any_id rest id

-- The first loop of `try_from`; `before` is `entries[..i]`.
unfoldable pub find_duplicate : List Entry → List Entry → Option ChainError
find_duplicate before [] = none
find_duplicate before ((id, attrs) ∷ rest) =
    let later = find_duplicate (before ++ (id, attrs) ∷ []) rest in
    if any_id before id then some (duplicate_id id) else later

unfoldable pub check_dependency :
    List Entry → ℕ → ComponentId → Option ComponentId → Option ChainError
check_dependency entries i id none = none
check_dependency entries i id (some dep) = elim (position entries dep) [
  | none ↦ some (unknown_dependency id dep)
  | some j ↦ if leb i j then some (forward_dependency id dep) else none
]

-- The second loop of `try_from`, at index `i`.
unfoldable pub find_bad_dependency : List Entry → ℕ → List Entry → Option ChainError
find_bad_dependency entries i [] = none
find_bad_dependency entries i ((id, attrs) ∷ rest) =
    let later = find_bad_dependency entries (suc i) rest in
    elim (check_dependency entries i id attrs.depends_on) [ none ↦ later | some e ↦ some e ]

abbrev pub or_error : Option ChainError → Result ChainError Chain → Result ChainError Chain
or_error none next = next
or_error (some e) next = err e

unfoldable pub try_from : List Entry → Result ChainError Chain
try_from [] = err empty
try_from (first ∷ rest) =
    let entries = first ∷ rest in
    if ltb 255 (length entries)
    then err too_long
    else or_error (find_duplicate [] entries)
        (or_error (find_bad_dependency entries 0 entries) (ok (record { entries = entries })))
