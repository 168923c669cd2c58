-- ===== src/Sm/Invariant.antt =====
-- The invariant of the orchestrator (services/orchestrator/sm/src/lib.rs), state by state, and what
-- a handler's outcome owes it.
pub mod Corruption
pub mod Leaf
pub mod Supervisor
pub mod Arrival
pub mod Step
pub mod Release
use openprot.Prelude.{◌*◌, ◌+◌, subst, ◌≤◌, ◌≡◌, sym, false, some, List, [], ◌∷◌, ◌++◌, length}
use openprot.Sm.Model.{
  ComponentId, Effect, State, power_on_reset, pre_supervision, awaiting_ready, ready, updating,
  recovering, locked,
}
use openprot.Sm.Model.Valid.{IsValidChain}
use openprot.Sm.Rot.{status_of, Rot, Outcome, transition, is_gated}
use openprot.Sm.Rot.Soundness.{IsSound}
use openprot.Sm.Gating.Gates.{IsFramed}
use openprot.Sm.Lifecycle.{Phase, obey, replay, phase}
use openprot.Sm.Walk.{Evolves, Evolves-refl, Evolves-trans, IsWalking, frame_refl}
use openprot.Sm.Engine.{Orchestrator}

-- What never changes: a chain that `Chain::try_from` accepts, within the capacity N, and an effect
-- buffer of the size that `Rot::EFFECT_CAP_OK` asks for.
pub record IsBased (r : Rot) : Type 0 where
  pub valid : IsValidChain r.chain
  pub roomy : length r.chain ≤ r.chain_capacity
  pub buffered : 2 * r.chain_capacity + 2 ≤ r.effect_capacity

abbrev pub IsWindowShut : Rot → Type 0
IsWindowShut r = r.pending_commit ≡ false

-- During the walk the storage is that of a walk, and the commit window is open in `Ready` and
-- `Locked` only.
abbrev pub StateOk : State → Rot → Type 0
StateOk pre_supervision r = IsWalking r × IsWindowShut r
StateOk (awaiting_ready _) r = IsWalking r × IsWindowShut r
StateOk power_on_reset r = IsWindowShut r
StateOk updating r = IsWindowShut r
StateOk (recovering _) r = IsWindowShut r
StateOk ready r = Unit
StateOk locked r = Unit

-- What the entry action of a state relies on.
abbrev pub Enters : State → Rot → Type 0
Enters pre_supervision r = IsWindowShut r
Enters (awaiting_ready _) r = IsWalking r × IsWindowShut r
Enters (recovering id) r = is_gated r id ≡ false
Enters power_on_reset r = ⊥
Enters _ r = Unit

abbrev pub OutcomeOk : State → Rot → Outcome → Type 0
OutcomeOk state r (transition target) = Enters target r
OutcomeOk state r _ = StateOk state r

-- What a handler of `state` does.
pub record Handles (state : State) (r : Rot) (res : Rot × List Effect × Outcome) : Type 0 where
  pub evolves : Evolves r res.1 res.0
  pub outcome : OutcomeOk state res.0 res.2

pub record Inv (o : Orchestrator) : Type 0 where
  pub based : IsBased o.rot
  pub sound : IsSound o.rot
  pub state_ok : StateOk o.state o.rot

pub IsBased-framed : {r r' : Rot} → IsBased r → IsFramed r r' → IsBased r'
IsBased-framed {r} {r'} b f = record {
  valid = subst IsValidChain (sym f.chain_kept) b.valid;
  roomy = subst (λ c. length c ≤ r'.chain_capacity) (sym f.chain_kept) (rw f.capacity_kept b.roomy);
  buffered = rw (f.capacity_kept, f.effect_capacity_kept) b.buffered;
}

-- An effect that is about no component's reset, image or service.
abbrev pub IsNeutral : Effect → Type 0
IsNeutral e = (id : ComponentId) (p : Phase) → obey id e p ≡ some p

pub neutral-Evolves : (e : Effect) (r : Rot) → IsNeutral e → IsSound r → Evolves r (e ∷ []) r
unfolding replay
neutral-Evolves e r n v = record {
  framed = frame_refl r;
  sound = v;
  refines = λ id. rw (n id (phase (status_of r id)));
}

pub stays :
    (state : State) (r : Rot) (outcome : Outcome)
    → IsSound r
    → OutcomeOk state r outcome
    → Handles state r (r, [], outcome)
stays state r outcome v h = record { evolves = Evolves-refl r v; outcome = h }

-- Something is done before a handler.
pub Handles-after :
    (state : State) (r s : Rot) (es : List Effect) (res : Rot × List Effect × Outcome)
    → Evolves r es s
    → Handles state s res
    → Handles state r (res.0, es ++ res.1, res.2)
Handles-after state r s es res e h = record {
  evolves = Evolves-trans es res.1 e h.evolves;
  outcome = h.outcome;
}
