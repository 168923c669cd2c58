-- ===== src/Sm/Budget/Handlers/Parts.antt =====
-- The effects of what the handlers share (services/orchestrator/sm/src/lib.rs).
use openprot.Prelude.{
  ℕ, suc, ◌+◌, ◌*◌, ◌≤◌, ◌≡◌, inl, inr, Bool, true, false, Option, none, some, List, [], ◌∷◌, ◌++◌,
  arith, length, append-nil, Bool-cases, if◌then◌else◌, is_some_of,
}
use openprot.Sm.Model.{
  ComponentId, ComponentKind, active, passive, BootFailureKind, Effect, ready, recovering,
}
use openprot.Sm.Rot.{Rot, Act, pure, Outcome, transition, cursor_id}
use openprot.Sm.Rot.Soundness.{IsSound}
use openprot.Sm.Handlers.{release, after_release, is_fatal}
use openprot.Sm.Walk.{IsWalking}
use openprot.Sm.Walk.Advance.{advance-Advances}
use openprot.Sm.Invariant.{IsBased}
use openprot.Sm.Invariant.Release.{released_rot, release_reset-Evolves, released-IsDownFrom}
use openprot.Sm.Budget.{IsWithin, capacity_pos, Contained}

-- A handler's result is within the budget of its capacity.
abbrev pub Fits : Rot → Rot × List Effect × Outcome → Type 0
Fits r res = IsWithin r.chain_capacity res.0 res.1 res.2

pub Contained-Fits :
    (id : ComponentId) (r : Rot) (res : Rot × List Effect × Outcome)
    → Contained r.chain_capacity id r res
    → Fits r res
Contained-Fits id r res c = ground arith

pub released-Fits :
    (r : Rot) (res : Rot × List Effect × Bool) (next : Outcome)
    → IsBased r
    → length res.1 ≤ 3
    → ((s : Rot) (es : List Effect)
        → length es ≤ 2 * r.chain_capacity + 2
        → IsWithin r.chain_capacity s es next)
    → Fits r (res.0, res.1 ++ [], if res.2 then next else transition ready)
released-Fits r (s, es, true) next b h ok =
    ok s (es ++ []) (rw (append-nil es) (omega (arith, capacity_pos r b)))
released-Fits r (s, es, false) next b h ok = rw (append-nil es) (omega (arith, capacity_pos r b))

pub after_release-IsWithin :
    (id : ComponentId) (kind : Option ComponentKind) (n : ℕ) (s : Rot) (es : List Effect)
    → length es ≤ 2 * n + 2
    → IsWithin n s es (after_release id kind)
after_release-IsWithin id none n s es h = h
after_release-IsWithin id (some active) n s es h = h
after_release-IsWithin id (some passive) n s es h = h

-- The same behind a report of the failure.
pub reported-Fits :
    (id : ComponentId) (e : Effect) (kind : BootFailureKind) (r : Rot) (contain : Act Outcome)
    → IsBased r
    → (is_fatal kind ≡ true → Contained r.chain_capacity id r (contain r))
    → let res : Rot × List Effect × Outcome =
        (if is_fatal kind then contain else pure (transition (recovering id))) r in
      Fits r (res.0, e ∷ res.1, res.2)
reported-Fits id e kind r contain b c = elim (Bool-cases (is_fatal kind)) [
  | inl f ↦ let known = c f in rw f (ground arith)
  | inr f ↦ rw f (ground arith)
]

pub length-release-le :
    (r : Rot) (id : ComponentId)
    → IsBased r
    → IsSound r
    → IsWalking r
    → cursor_id r ≡ some id
    → length (release id r).1 ≤ 3
unfolding release
length-release-le r id b v w c =
    let s = released_rot r id b v w c in
    let a =
      advance-Advances (suc r.cursor) s (release_reset-Evolves r id b v w c).sound b.valid.unique
        b.valid.indexable (released-IsDownFrom r id b v w c) in
    omega (arith, a.short)

pub is_some_of-eq :
    (id : ComponentId) (o : Option ComponentId) → is_some_of id o ≡ true → o ≡ some id
is_some_of-eq id o h = ground arith
