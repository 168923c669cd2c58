-- ===== src/Sm/Walk.antt =====
-- The chain walk of services/orchestrator/sm/src/lib.rs: what holds of the storage while the
-- cursor moves, and the two methods that move it or prepare for it.
use openprot.Prelude.{
  ℕ, zero, suc, ◌+◌, ◌≤◌, ◌<◌, ◌≡◌, refl, ap, sym, ◌∙◌, ◌⊎◌, Bool, true, false, some, List, [], ◌∷◌,
  ◌++◌, arith, length, get_elem?, drop, Bool-cases, inl, inr,
}
use openprot.Sm.Model.{
  ComponentId, ComponentAttrs, Entry, Effect, read_firmware, verify_firmware, position,
}
pub mod Advance
pub mod Changes
pub mod Quiesce
use native.Mathlib.Nat.{suc-add, add-suc, add-zero, mod-eq_of_lt}
use openprot.Sm.Rot.{Rot, is_gated, status_of, cursor_id, advance_from, advance_to_next_ungated}
use openprot.Sm.Rot.Soundness.{IsSound}
use openprot.Sm.Lifecycle.{Phase, held, out_of_service, phase, replay}
use openprot.Sm.Gating.Gates.{IsFramed, IsFramed-trans, Refines, Refines-trans, Gates}

-- What every operation comes to, as far as one component can tell.
pub record Evolves (r : Rot) (es : List Effect) (r' : Rot) : Type 0 where
  pub framed : IsFramed r r'
  pub sound : IsSound r'
  pub refines : Refines r es r'

abbrev pub frame_refl : (r : Rot) → IsFramed r r
frame_refl r = record {
  chain_kept = refl;
  capacity_kept = refl;
  effect_capacity_kept = refl;
  max_retry_kept = refl;
}

pub Evolves-refl : (r : Rot) → IsSound r → Evolves r [] r
unfolding replay
Evolves-refl r v = record { framed = frame_refl r; sound = v; refines = λ id. refl }

pub Evolves-trans :
    {r s t : Rot} (es fs : List Effect) → Evolves r es s → Evolves s fs t → Evolves r (es ++ fs) t
Evolves-trans {r} {s} {t} es fs f g = record {
  framed = IsFramed-trans f.framed g.framed;
  sound = g.sound;
  refines = Refines-trans r s t es fs f.refines g.refines;
}

pub Gates-Evolves : {r r' : Rot} {es : List Effect} → Gates r es r' → Evolves r es r'
Gates-Evolves g = record { framed = g.framed; sound = g.sound; refines = g.refines }

abbrev pub IsDown : Phase → Type 0
IsDown p = (p ≡ held) ⊎ (p ≡ out_of_service)

-- No component at or behind index `i` runs.
abbrev pub IsDownFrom : ℕ → Rot → Type 0
IsDownFrom i r =
    (id : ComponentId) (k : ℕ)
    → position r.chain id ≡ some k
    → i ≤ k
    → IsDown (phase (status_of r id))

-- During the walk nothing runs that is still to be verified, and the component under verification
-- is in service.
pub record IsWalking (r : Rot) : Type 0 where
  pub ahead : IsDownFrom r.cursor r
  pub here : (id : ComponentId) → cursor_id r ≡ some id → is_gated r id ≡ false
  pub within : r.cursor ≤ length r.chain

-- Where the search stops, and with what.
abbrev pub Stops : Rot → ℕ → Rot × List Effect × Bool → Type 0
Stops r idx res =
    (res ≡ (record r { cursor = length r.chain }, [], false))
    ⊎ ((i : ℕ) × (id : ComponentId) × (attrs : ComponentAttrs) × (idx ≤ i)
        × (get_elem? r.chain i ≡ some (id, attrs))
        × (is_gated r id ≡ false)
        × (res ≡ (record r { cursor = i }, read_firmware id ∷ verify_firmware id ∷ [], true)))

get_elem?-lt :
    (chain : List Entry) (i : ℕ) (e : Entry) → get_elem? chain i ≡ some e → i < length chain
get_elem?-lt [] i e h = cc
get_elem?-lt (x ∷ chain) zero e h = omega arith
get_elem?-lt (x ∷ chain) (suc i) e h = omega (arith, get_elem?-lt chain i e h)

get_elem?-drop :
    (chain : List Entry) (i k : ℕ) → get_elem? (drop i chain) k ≡ get_elem? chain (i + k)
get_elem?-drop chain zero k = ground arith
get_elem?-drop [] (suc i) k = ground arith
get_elem?-drop (x ∷ chain) (suc i) k = rw suc-add (get_elem?-drop chain i k)

advance_from-Stops :
    (rest : List Entry) (idx : ℕ) (r : Rot)
    → length r.chain ≤ 255
    → ((k : ℕ) → get_elem? rest k ≡ get_elem? r.chain (idx + k))
    → Stops r idx (advance_from rest idx r)
unfolding advance_from
advance_from-Stops [] idx r h same = inl (ground arith)
advance_from-Stops ((id, attrs) ∷ rest) idx r h same =
    let here : get_elem? r.chain idx ≡ some (id, attrs) =
      sym (ap (get_elem? r.chain) (add-zero idx)) ∙ sym (same 0) in
    elim (Bool-cases (is_gated r id)) [
      | inr e ↦ inr (
        idx,
        id,
        attrs,
        omega arith,
        here,
        e,
        rw (
          e,
          advance_from,
          mod-eq_of_lt {n = idx} {m = 256}
              (omega (arith, get_elem?-lt r.chain idx (id, attrs) here)),
        ),
      )
      | inl e ↦
          rw (e, advance_from)
            (later (
              advance_from-Stops rest (suc idx) r h
                (λ k. same (suc k) ∙ rw (add-suc idx k, suc-add idx k))))
    ]
  where
    later : {res : Rot × List Effect × Bool} → Stops r (suc idx) res → Stops r idx res
    later (inl e) = inl e
    later (inr (i, j, a, le, g, n, e)) = inr (i, j, a, omega arith, g, n, e)

-- `advance_to_next_ungated` stops at the first component in service, or behind the chain.
pub advance-Stops :
    (start : ℕ) (r : Rot) → length r.chain ≤ 255 → Stops r start (advance_to_next_ungated start r)
unfolding advance_to_next_ungated
advance-Stops start r h =
    advance_from-Stops (drop start r.chain) start r h (get_elem?-drop r.chain start)
