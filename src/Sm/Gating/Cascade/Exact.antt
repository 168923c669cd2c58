-- ===== src/Sm/Gating/Cascade/Exact.antt =====
-- `cascade_hold` (services/orchestrator/sm/src/lib.rs) against the transitive closure of
-- `depends_on`.
use openprot.Prelude.{
  ◌==◌, ◌≤◌, ◌≡◌, ◌∙◌, true, false, ◌⊎◌, inl, inr, List, [], ◌∷◌, arith, length, All, contains,
  Bool-cases,
}
use openprot.Sm.Model.{ComponentId, Entry, Effect}
use openprot.Sm.Rot.{Rot, is_gated, status_of, gate_one}
use openprot.Sm.Rot.Statuses.{position-lt}
use openprot.Sm.Rot.Soundness.{IsSound, IsMember}
use openprot.Sm.Gating.{cascade_loop, cascade_hold}
use openprot.Sm.Gating.Gates.{Gates, Gates-trans, gate_one-Gates, gate_one-is_gated}
use openprot.Sm.Gating.Frontier.{push_within_fits, covered-member, All-contains_elim}
use openprot.Sm.Gating.Cascade.{DependsOn, itself, through, IsClosed, gate_one-others}
use openprot.Sm.Gating.Cascade.Loop.{Between, Finishes, loop-Finishes}

-- What depends on the root is gated, and nothing else has changed.
pub record HoldsExactly (root : ComponentId) (r : Rot) (es : List Effect) (r' : Rot) : Type 0 where
  pub gates : Gates r es r'
  pub held : (id : ComponentId) → DependsOn r.chain root id → is_gated r' id ≡ true
  pub others : (id : ComponentId) → DependsOn r.chain root id ⊎ (status_of r' id ≡ status_of r id)

-- A closed frontier has all that depends on its root.
DependsOn-contains :
    (chain : List Entry) (root : ComponentId) (f : List ComponentId)
    → All (IsClosed chain f) f
    → contains f root ≡ true
    → (id : ComponentId) → DependsOn chain root id
    → contains f id ≡ true
DependsOn-contains chain root f c h _ itself = h
DependsOn-contains chain root f c h id (through {holder} d s) =
    All-contains_elim (IsClosed chain f) f holder c (DependsOn-contains chain root f c h holder d)
      id s

root-Between :
    (root : ComponentId) (r : Rot)
    → IsSound r
    → IsMember r.chain root
    → Between r.chain root 0 (root ∷ []) (gate_one root r).0
root-Between root r v m =
    let g = gate_one-Gates root r v m in
    record {
      same_chain = g.framed.chain_kept;
      sound = g.sound;
      fits = covered-member r.chain root m;
      gated = (gate_one-is_gated root r v m, tt);
      closed = tt;
      reached = (itself, tt);
    }

unchanged :
    (root : ComponentId) (r s : Rot) (es : List Effect) (t : Rot) (f : List ComponentId)
    (id : ComponentId)
    → Finishes r.chain root (root ∷ []) s es t f
    → ((j : ComponentId) → (root == j) ≡ false → status_of s j ≡ status_of r j)
    → DependsOn r.chain root id ⊎ (status_of t id ≡ status_of r id)
unchanged root r s es t f id d first = elim (Bool-cases (contains f id)) [
  | inl c ↦ inl (All-contains_elim (DependsOn r.chain root) f id d.reached c)
  | inr c ↦ elim (Bool-cases (root == id)) [
    | inl e ↦ absurd (ground (arith, d.grows id))
    | inr e ↦ inr (d.others id c ∙ first id e)
  ]
]

-- For a root in the chain, statuses that are sound and a chain within the capacity: `cascade_hold`
-- takes out of service the root and whatever depends on it, directly or through others, and
-- changes the status of no other component.
pub cascade_hold-HoldsExactly :
    (root : ComponentId) (r : Rot)
    → IsSound r
    → IsMember r.chain root
    → length r.chain ≤ r.chain_capacity
    → HoldsExactly root r (cascade_hold root r).1 (cascade_hold root r).0
unfolding cascade_hold
cascade_hold-HoldsExactly root r v m h =
    let g = gate_one-Gates root r v m in
    let s = (gate_one root r).0 in
    let d =
      loop-Finishes r.chain root s.chain_capacity 0 (root ∷ []) s (root-Between root r v m)
        (omega (arith, g.framed.capacity_kept)) (omega (arith, g.framed.capacity_kept)) in
    let room =
      push_within_fits s.chain_capacity [] root
        (omega (arith, g.framed.capacity_kept, position-lt r.chain root m.0 m.1)) in
    rw room (record {
      gates = Gates-trans _ _ g d.gates;
      held = λ id p.
          All-contains_elim
            (λ j. is_gated (cascade_loop s.chain_capacity 0 (root ∷ []) s).0 j ≡ true) _ id d.gated
            (DependsOn-contains r.chain root _ d.closed (d.grows root (ground arith)) id p);
      others = λ id. unchanged root r s _ _ _ id d (gate_one-others root r);
    })
