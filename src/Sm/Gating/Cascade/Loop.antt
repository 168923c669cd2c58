-- ===== src/Sm/Gating/Cascade/Loop.antt =====
-- The loop of `cascade_hold` (services/orchestrator/sm/src/lib.rs): what holds between two rounds,
-- and what therefore holds at its end.
use openprot.Prelude.{
  All-get_elem?, subst, ℕ, zero, suc, ◌+◌, ◌≤◌, ◌≡◌, refl, sym, ◌∙◌, true, false, none, some, List,
  [], ◌∷◌, ◌++◌, arith, length, get_elem?, length-append, All, contains, take, take_all,
  Option-cases, inl, inr,
}
use openprot.Sm.Model.{ComponentId, Entry, Effect}
use openprot.Sm.Rot.{Rot, is_gated, status_of}
use openprot.Sm.Rot.Soundness.{IsSound, IsMember}
use openprot.Sm.Gating.{collect_dependents, cascade_loop}
use openprot.Sm.Gating.Gates.{Gates, Gates-refl, Gates-trans}
use openprot.Sm.Gating.Frontier.{
  dependents, collect_lem, contains-append, covered, covered-le, covered-dependents, All-contains,
  All-join, All-weaken, All-take-suc,
}
use openprot.Sm.Gating.Cascade.{
  IsDependent, DependsOn, through, IsClosed, IsClosed-round, gated_stays, dependents-IsDependent,
  dependents-IsMember, GatesAll, gate_dependents-GatesAll, gate_dependents-frontier,
}

-- Before round `i` with the frontier `f`: the frontier fits, all of it is gated and depends on the
-- root, and the rounds that are over have put all dependents on it.
pub record Between (chain : List Entry) (root : ComponentId) (i : ℕ) (f : List ComponentId)
    (r : Rot) : Type 0 where
  pub same_chain : r.chain ≡ chain
  pub sound : IsSound r
  pub fits : length f ≤ covered chain f
  pub gated : All (λ id. is_gated r id ≡ true) f
  pub closed : All (IsClosed chain f) (take i f)
  pub reached : All (DependsOn chain root) f

-- From there to the end of the loop, with the frontier `f'`.
pub record Finishes (chain : List Entry) (root : ComponentId) (f : List ComponentId) (r : Rot)
    (es : List Effect) (r' : Rot) (f' : List ComponentId) : Type 0 where
  pub gates : Gates r es r'
  pub gated : All (λ id. is_gated r' id ≡ true) f'
  pub closed : All (IsClosed chain f') f'
  pub reached : All (DependsOn chain root) f'
  pub grows : (id : ComponentId) → contains f id ≡ true → contains f' id ≡ true
  pub others : (id : ComponentId) → contains f' id ≡ false → status_of r' id ≡ status_of r id

IsClosed-append :
    (chain : List Entry) (f g : List ComponentId) (holder : ComponentId)
    → IsClosed chain f holder
    → IsClosed chain (f ++ g) holder
IsClosed-append chain f g holder c id d = ground (arith, contains-append f g id, c id d)

get_elem?-none : (f : List ComponentId) (i : ℕ) → get_elem? f i ≡ none → length f ≤ i
get_elem?-none [] i h = omega arith
get_elem?-none (x ∷ f) zero h = cc
get_elem?-none (x ∷ f) (suc i) h = omega (arith, get_elem?-none f i h)

stop :
    (chain : List Entry) (root : ComponentId) (i : ℕ) (f : List ComponentId) (r : Rot)
    → Between chain root i f r
    → length f ≤ i
    → Finishes chain root f r [] r f
stop chain root i f r b h = record {
  gates = Gates-refl r b.sound;
  gated = b.gated;
  closed = subst (All (IsClosed chain f)) (take_all i f h) b.closed;
  reached = b.reached;
  grows = λ id c. c;
  others = λ id c. refl;
}

-- The part of the storage and the frontier after round `i`, at `holder`.
round-Between :
    (chain : List Entry) (root : ComponentId) (i : ℕ) (f : List ComponentId) (r : Rot)
    (holder : ComponentId) (es : List Effect) (r' : Rot)
    → Between chain root i f r
    → get_elem? f i ≡ some holder
    → GatesAll (dependents holder f chain) r es r'
    → Between chain root (suc i) (f ++ dependents holder f chain) r'
round-Between chain root i f r holder es r' b e g =
    let ds = dependents holder f chain in
    record {
      same_chain = g.gates.framed.chain_kept ∙ b.same_chain;
      sound = g.gates.sound;
      fits = omega (
        arith,
        length-append f ds,
        covered-dependents holder chain f ds (All-contains ds),
        b.fits,
      );
      gated =
          All-join (λ id. is_gated r' id ≡ true) f ds
            (All-weaken (λ id. is_gated r id ≡ true) (λ id. is_gated r' id ≡ true) f
              (gated_stays g.gates) b.gated)
            g.gated;
      closed =
          All-take-suc (IsClosed chain (f ++ ds)) i f ds holder e
            (All-weaken (IsClosed chain f) (IsClosed chain (f ++ ds)) (take i f)
              (IsClosed-append chain f ds) b.closed)
            (IsClosed-round holder f chain);
      reached = All-join (DependsOn chain root) f ds b.reached (
          All-weaken (IsDependent chain holder) (DependsOn chain root) ds
            (λ id d. through (All-get_elem? (DependsOn chain root) f i holder b.reached e) d)
            (dependents-IsDependent holder f chain));
    }

-- A round and the rest of the loop.
resume :
    (chain : List Entry) (root : ComponentId) (f g : List ComponentId) (r s t : Rot)
    (es fs : List Effect) (f' : List ComponentId)
    → GatesAll g r es s
    → Finishes chain root (f ++ g) s fs t f'
    → Finishes chain root f r (es ++ fs) t f'
resume chain root f g r s t es fs f' a b = record {
  gates = Gates-trans es fs a.gates b.gates;
  gated = b.gated;
  closed = b.closed;
  reached = b.reached;
  grows = λ id c. b.grows id (ground (arith, contains-append f g id));
  others = λ id c. b.others id c ∙ a.others id (ground (arith, contains-append f g id, b.grows id));
}

-- The loop within its capacity: it ends by its own test, with all that depends on the root gated.
pub loop-Finishes :
    (chain : List Entry) (root : ComponentId) (fuel i : ℕ) (f : List ComponentId) (r : Rot)
    → Between chain root i f r
    → length chain ≤ r.chain_capacity
    → length chain ≤ i + fuel
    → Finishes chain root f r
        (cascade_loop fuel i f r).1
        (cascade_loop fuel i f r).0
        (cascade_loop fuel i f r).2
unfolding cascade_loop
loop-Finishes chain root zero i f r b c h =
    stop chain root i f r b (omega (arith, b.fits, covered-le chain f))
loop-Finishes chain root (suc fuel) i f r b c h = elim (Option-cases (get_elem? f i)) [
  | inl e ↦ rw (e, cascade_loop) (stop chain root i f r b (get_elem?-none f i e))
  | inr (holder, e) ↦
      let ds = dependents holder f chain in
      let n = r.chain_capacity in
      let all = gate_dependents-GatesAll n ds f r b.sound (
        subst (λ c. All (IsMember c) ds) (sym b.same_chain) (dependents-IsMember holder f chain)) in
      let next = round-Between chain root i f r holder _ _ b e all in
      rw (e, cascade_loop)
        (rw
          (
            subst (λ c. collect_dependents n holder f c [] ≡ ds) (sym b.same_chain)
                (collect_lem n holder f chain c),
            gate_dependents-frontier n ds f r
                (omega (arith, next.fits, covered-le chain (f ++ ds), length-append f ds)),
          )
          (resume chain root f ds r _ _ _ _ _ all (
            loop-Finishes chain root fuel (suc i) (f ++ ds) _ next
              (omega (arith, all.gates.framed.capacity_kept)) (omega arith))))
]
