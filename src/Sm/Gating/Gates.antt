-- ===== src/Sm/Gating/Gates.antt =====
-- What taking components out of service may change (services/orchestrator/sm/src/lib.rs): a
-- relation on the storage before, the effects, and the storage after, closed under sequencing.
use openprot.Prelude.{
  ◌+◌, ◌*◌, ◌≡◌, refl, ap, ◌∙◌, ◌⊎◌, inl, inr, true, false, some, List, [], ◌∷◌, ◌++◌, arith,
  length, Bool-cases, length-append,
}
use openprot.Sm.Model.{ComponentId, Effect, assert_reset, report_isolated}
use openprot.Sm.Rot.{
  ComponentStatus, Rot, is_isolated, is_gated, status_of, change_status, gate_status, gate_one,
}
use openprot.Sm.Rot.Statuses.{lookup-change_status, length-change_status}
use openprot.Sm.Rot.Soundness.{
  IsSound, IsCoherent, IsMember, status_of-some, All-change_status, in_service, in_service-gate,
}
use openprot.Sm.Lifecycle.{phase, out_of_service, replay, replay-append}

-- What every operation on the storage leaves alone.
pub record IsFramed (r r' : Rot) : Type 0 where
  pub chain_kept : r'.chain ≡ r.chain
  pub capacity_kept : r'.chain_capacity ≡ r.chain_capacity
  pub effect_capacity_kept : r'.effect_capacity ≡ r.effect_capacity
  pub max_retry_kept : r'.max_retry ≡ r.max_retry

pub IsFramed-trans : {r s t : Rot} → IsFramed r s → IsFramed s t → IsFramed r t
IsFramed-trans f g = record {
  chain_kept = g.chain_kept ∙ f.chain_kept;
  capacity_kept = g.capacity_kept ∙ f.capacity_kept;
  effect_capacity_kept = g.effect_capacity_kept ∙ f.effect_capacity_kept;
  max_retry_kept = g.max_retry_kept ∙ f.max_retry_kept;
}

-- The effects, replayed on the component's phase before, are allowed and give its phase after.
abbrev pub Refines : Rot → List Effect → Rot → Type 0
Refines r es r' =
    (id : ComponentId) → replay id es (phase (status_of r id)) ≡ some (phase (status_of r' id))

pub Refines-trans :
    (r s t : Rot) (es fs : List Effect) → Refines r es s → Refines s fs t → Refines r (es ++ fs) t
Refines-trans r s t es fs p q id = rw (replay-append id es fs (phase (status_of r id)), p id) (q id)

pub record Gates (r : Rot) (es : List Effect) (r' : Rot) : Type 0 where
  pub framed : IsFramed r r'
  pub cursor_kept : r'.cursor ≡ r.cursor
  pub pending_kept : r'.pending_commit ≡ r.pending_commit
  pub sound : IsSound r'
  pub refines : Refines r es r'
  pub lowers :
      (id : ComponentId)
      → (status_of r' id ≡ status_of r id) ⊎ (phase (status_of r' id) ≡ out_of_service)
  pub spends : length es + 2 * in_service r'.statuses ≡ 2 * in_service r.statuses

pub Gates-refl : (r : Rot) → IsSound r → Gates r [] r
unfolding replay
Gates-refl r v = record {
  framed = record {
    chain_kept = refl;
    capacity_kept = refl;
    effect_capacity_kept = refl;
    max_retry_kept = refl;
  };
  cursor_kept = refl;
  pending_kept = refl;
  sound = v;
  refines = λ id. refl;
  lowers = λ id. inl refl;
  spends = omega arith;
}

pub Gates-trans :
    {r s t : Rot} (es fs : List Effect) → Gates r es s → Gates s fs t → Gates r (es ++ fs) t
Gates-trans {r} {s} {t} es fs g h = record {
  framed = IsFramed-trans g.framed h.framed;
  cursor_kept = h.cursor_kept ∙ g.cursor_kept;
  pending_kept = h.pending_kept ∙ g.pending_kept;
  sound = h.sound;
  refines = Refines-trans r s t es fs g.refines h.refines;
  lowers = λ id. lower id (g.lowers id) (h.lowers id);
  spends = omega (arith, length-append es fs, g.spends, h.spends);
}
  where
    lower :
        (id : ComponentId)
        → (status_of s id ≡ status_of r id) ⊎ (phase (status_of s id) ≡ out_of_service)
        → (status_of t id ≡ status_of s id) ⊎ (phase (status_of t id) ≡ out_of_service)
        → (status_of t id ≡ status_of r id) ⊎ (phase (status_of t id) ≡ out_of_service)
    lower id _ (inr out) = inr out
    lower id (inl e) (inl f) = inl (f ∙ e)
    lower id (inr out) (inl f) = inr (ap phase f ∙ out)

gate_status-IsCoherent : (s : ComponentStatus) → IsCoherent s → IsCoherent (gate_status s)
gate_status-IsCoherent s h = ground arith

gated-Gates :
    (r : Rot) (id : ComponentId) (s : ComponentStatus)
    → IsSound r
    → status_of r id ≡ some s
    → is_isolated s.lifecycle ≡ false
    → Gates r
        (assert_reset id ∷ report_isolated id ∷ [])
        (record r { statuses = change_status r.chain r.statuses id gate_status })
unfolding replay
gated-Gates r id s v e u = record {
  framed = record {
    chain_kept = refl;
    capacity_kept = refl;
    effect_capacity_kept = refl;
    max_retry_kept = refl;
  };
  cursor_kept = refl;
  pending_kept = refl;
  sound = record {
    parallel = length-change_status r.chain r.statuses id gate_status ∙ v.parallel;
    coherent =
        All-change_status IsCoherent r.chain r.statuses id gate_status gate_status-IsCoherent
          v.coherent;
  };
  refines = λ j. ground (arith, lookup-change_status r.chain r.statuses id gate_status j);
  lowers = λ j. ground (arith, lookup-change_status r.chain r.statuses id gate_status j);
  spends = omega (arith, in_service-gate r.chain r.statuses id s e u);
}

-- `gate_one` takes one component of the chain out of service, or changes nothing.
pub gate_one-Gates :
    (id : ComponentId) (r : Rot)
    → IsSound r
    → IsMember r.chain id
    → Gates r (gate_one id r).1 (gate_one id r).0
unfolding gate_one
gate_one-Gates id r v m =
    let (s, e) = status_of-some r id v m in
    elim (Bool-cases (is_gated r id)) [
      | inl g ↦ rw g (Gates-refl r v)
      | inr n ↦ rw n (gated-Gates r id s v e (rw e at n))
    ]

-- Afterwards it is gated.
pub gate_one-is_gated :
    (id : ComponentId) (r : Rot)
    → IsSound r
    → IsMember r.chain id
    → is_gated (gate_one id r).0 id ≡ true
unfolding gate_one
gate_one-is_gated id r v m =
    let (s, e) = status_of-some r id v m in
    ground (arith, lookup-change_status r.chain r.statuses id gate_status id)
