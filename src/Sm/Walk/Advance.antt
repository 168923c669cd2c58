-- ===== src/Sm/Walk/Advance.antt =====
-- `advance_to_next_ungated` (services/orchestrator/sm/src/lib.rs) keeps the walk going.
use openprot.Prelude.{
  subst, ◌*◌, ℕ, ◌≤◌, ◌≡◌, refl, Bool, true, false, Option, none, some, List, [], ◌∷◌, arith,
  length, get_elem?, inl, inr, some-injective,
}
use openprot.Sm.Model.{ComponentId, Entry, Effect, read_firmware, verify_firmware, position}
use openprot.Sm.Model.Valid.{IsUnique, position-get_elem?}
use openprot.Sm.Rot.{
  Rot, ComponentStatus, is_gated, status_gated, status_of, advance_to_next_ungated,
}
use openprot.Sm.Rot.Soundness.{IsSound, in_service, in_service-gate, status_of-some}
use openprot.Sm.Rot.Statuses.{position-lt}
use openprot.Sm.Lifecycle.{held, phase, replay}
use openprot.Sm.Gating.Gates.{IsFramed}
use openprot.Sm.Walk.{Evolves, IsDown, IsDownFrom, IsWalking, Stops, advance-Stops, get_elem?-lt}

-- What a search that starts at `start` leaves: a walk, and `VerifyFirmware` for the component under
-- the cursor alone, which is held.
pub record Advances (start : ℕ) (r : Rot) (res : Rot × List Effect × Bool) : Type 0 where
  pub evolves : Evolves r res.1 res.0
  pub walking : IsWalking res.0
  pub only_cursor : res.0 ≡ record r { cursor = (res.0).cursor }
  pub short : length res.1 ≤ 2
  pub affordable : length res.1 ≤ 2 * in_service r.statuses

-- A component that is in service and does not run is held.
pub phase_held :
    (o : Option ComponentStatus) → IsDown (phase o) → status_gated o ≡ false → phase o ≡ held
phase_held o d g = ground arith

get_elem?-length : (chain : List Entry) → get_elem? chain (length chain) ≡ none
get_elem?-length [] = refl
get_elem?-length (x ∷ chain) = get_elem?-length chain

reads-Refines :
    (id : ComponentId) (j : ComponentId) (o : Option ComponentStatus)
    → ((j ≡ id) → phase o ≡ held)
    → replay id (read_firmware j ∷ verify_firmware j ∷ []) (phase o) ≡ some (phase o)
unfolding replay
reads-Refines id j o h = ground arith

cursor_frame : (r : Rot) (c : ℕ) → IsFramed r (record r { cursor = c })
cursor_frame r c = record {
  chain_kept = refl;
  capacity_kept = refl;
  effect_capacity_kept = refl;
  max_retry_kept = refl;
}

cursor-IsSound : (r : Rot) (c : ℕ) → IsSound r → IsSound (record r { cursor = c })
cursor-IsSound r c v = record { parallel = v.parallel; coherent = v.coherent }

past_end :
    (start : ℕ) (r : Rot)
    → IsSound r
    → Advances start r (record r { cursor = length r.chain }, [], false)
past_end start r v = record {
  evolves = record {
    framed = cursor_frame r (length r.chain);
    sound = cursor-IsSound r (length r.chain) v;
    refines = λ id. unfold replay in refl;
  };
  walking = record {
    ahead = λ id k p le. absurd (omega (arith, position-lt r.chain id k p));
    here = λ id c. absurd (ground (arith, get_elem?-length r.chain));
    within = omega arith;
  };
  only_cursor = refl;
  short = omega arith;
  affordable = omega arith;
}

at_component :
    (start i : ℕ) (r : Rot) (e : Entry)
    → IsSound r
    → IsUnique r.chain
    → IsDownFrom start r
    → start ≤ i
    → get_elem? r.chain i ≡ some e
    → is_gated r e.0 ≡ false
    → Advances start r (record r { cursor = i }, read_firmware e.0 ∷ verify_firmware e.0 ∷ [], true)
at_component start i r (id, attrs) v u d le g n =
    let at : position r.chain id ≡ some i = position-get_elem? r.chain i id attrs u g in
    let down : phase (status_of r id) ≡ held = phase_held (status_of r id) (d id i at le) n in
    let (s, e) = status_of-some r id v (i, at) in
    record {
      evolves = record {
        framed = cursor_frame r i;
        sound = cursor-IsSound r i v;
        refines = λ j.
            reads-Refines j id (status_of r j)
              (λ p. subst (λ k. phase (status_of r k) ≡ held) p down);
      };
      walking = record {
        ahead = λ j k p h. d j k p (omega arith);
        here = λ j c. subst (λ k. is_gated r k ≡ false) (some-injective _ _ (rw g at c)) n;
        within = omega (arith, get_elem?-lt r.chain i (id, attrs) g);
      };
      only_cursor = refl;
      short = omega arith;
      affordable = omega (arith, in_service-gate r.chain r.statuses id s e (rw e at n));
    }

pub Stops-Advances :
    (start : ℕ) (r : Rot) (res : Rot × List Effect × Bool)
    → IsSound r
    → IsUnique r.chain
    → IsDownFrom start r
    → Stops r start res
    → Advances start r res
Stops-Advances start r res v u d (inl e) = rw e (past_end start r v)
Stops-Advances start r res v u d (inr (i, id, attrs, le, g, n, e)) =
    rw e (at_component start i r (id, attrs) v u d le g n)

pub advance-Advances :
    (start : ℕ) (r : Rot)
    → IsSound r
    → IsUnique r.chain
    → length r.chain ≤ 255
    → IsDownFrom start r
    → Advances start r (advance_to_next_ungated start r)
advance-Advances start r v u h d =
    Stops-Advances start r (advance_to_next_ungated start r) v u d (advance-Stops start r h)
