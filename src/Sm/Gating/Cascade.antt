-- ===== src/Sm/Gating/Cascade.antt =====
-- `cascade_hold` (services/orchestrator/sm/src/lib.rs): what one round and the whole loop do.
pub mod Loop
pub mod Exact
use openprot.Prelude.{
  zero, suc, ◌≤◌, ◌∙◌, ap, ◌||◌, some-injective, subst, ℕ, suc, ◌+◌, ◌≤◌, ◌≡◌, refl, sym, ◌∙◌, inl,
  inr, true, false, not, ◌&&◌, some, List, [], ◌∷◌, ◌++◌, arith, length, get_elem?, length-append,
  append-nil, append_assoc, ◌==◌, All, contains, push_within, is_some_of, Bool-cases,
}
use openprot.Sm.Model.{position, ComponentId, ComponentAttrs, Entry, Effect}
use openprot.Sm.Rot.{Rot, is_gated, status_of, gate_one, gate_status}
use openprot.Sm.Rot.Statuses.{lookup-change_status}
use openprot.Sm.Rot.Soundness.{IsSound, IsMember}
use openprot.Sm.Gating.{gate_dependents}
use openprot.Sm.Gating.Gates.{Gates, Gates-refl, Gates-trans, gate_one-Gates, gate_one-is_gated}
use openprot.Sm.Gating.Frontier.{contains-append, dependents, push_within_fits, All-weaken}

-- An entry of the chain names `holder` as its dependency.
pub record IsDependent (chain : List Entry) (holder id : ComponentId) : Type 0 where
  pub index : ℕ
  pub attrs : ComponentAttrs
  pub listed : get_elem? chain index ≡ some (id, attrs)
  pub names : is_some_of holder attrs.depends_on ≡ true

-- `id` is `root`, or depends on it through a chain of `depends_on`.
pub data DependsOn (chain : List Entry) (root : ComponentId) : ComponentId → Type 0 where
  itself : DependsOn chain root root
  through :
      {holder id : ComponentId}
      → DependsOn chain root holder
      → IsDependent chain holder id
      → DependsOn chain root id

pub gated_stays :
    {r r' : Rot} {es : List Effect}
    → Gates r es r'
    → (id : ComponentId) → is_gated r id ≡ true
    → is_gated r' id ≡ true
gated_stays g id h = ground (arith, g.lowers id)

IsDependent-suc :
    (e : Entry) (chain : List Entry) (holder id : ComponentId)
    → IsDependent chain holder id
    → IsDependent (e ∷ chain) holder id
IsDependent-suc e chain holder id d = record {
  index = suc d.index;
  attrs = d.attrs;
  listed = d.listed;
  names = d.names;
}

pub dependents-IsDependent :
    (holder : ComponentId) (frontier : List ComponentId) (chain : List Entry)
    → All (λ id. IsDependent chain holder id) (dependents holder frontier chain)
unfolding dependents
dependents-IsDependent holder frontier [] = tt
dependents-IsDependent holder frontier ((id, attrs) ∷ chain) =
    let later : All (λ j. IsDependent ((id, attrs) ∷ chain) holder j)
        (dependents holder frontier chain) =
      All-weaken (λ j. IsDependent chain holder j) (λ j. IsDependent ((id, attrs) ∷ chain) holder j)
        (dependents holder frontier chain) (IsDependent-suc (id, attrs) chain holder)
        (dependents-IsDependent holder frontier chain) in
    elim (Bool-cases (is_some_of holder attrs.depends_on && not (contains frontier id))) [
      | inl e ↦
          rw (e, dependents)
            (record { index = 0; attrs = attrs; listed = refl; names = ground arith }, later)
      | inr e ↦ rw (e, dependents) later
    ]

listed-IsMember :
    (chain : List Entry) (id : ComponentId) (k : ℕ) (attrs : ComponentAttrs)
    → get_elem? chain k ≡ some (id, attrs)
    → IsMember chain id
unfolding position
listed-IsMember [] id k attrs h = cc
listed-IsMember ((cid, _) ∷ chain) id zero attrs h = (0, ground arith)
listed-IsMember ((cid, _) ∷ chain) id (suc k) attrs h =
    let (i, e) = listed-IsMember chain id k attrs h in
    elim (Bool-cases (cid == id)) [ inl t ↦ (0, ground arith) | inr f ↦ (suc i, ground arith) ]

pub dependents-IsMember :
    (holder : ComponentId) (frontier : List ComponentId) (chain : List Entry)
    → All (IsMember chain) (dependents holder frontier chain)
dependents-IsMember holder frontier chain =
    All-weaken (λ id. IsDependent chain holder id) (IsMember chain)
      (dependents holder frontier chain) (λ id d. listed-IsMember chain id d.index d.attrs d.listed)
      (dependents-IsDependent holder frontier chain)

-- Every entry that depends on `holder` is on the frontier.
abbrev pub IsClosed : List Entry → List ComponentId → ComponentId → Type 0
IsClosed chain frontier holder =
    (id : ComponentId) → IsDependent chain holder id → contains frontier id ≡ true

contains-dependents :
    (holder : ComponentId) (frontier : List ComponentId) (chain : List Entry) (id : ComponentId)
    (k : ℕ) (attrs : ComponentAttrs)
    → get_elem? chain k ≡ some (id, attrs)
    → is_some_of holder attrs.depends_on ≡ true
    → (contains frontier id || contains (dependents holder frontier chain) id) ≡ true
unfolding dependents
contains-dependents holder frontier [] id k attrs h n = cc
contains-dependents holder frontier ((cid, a) ∷ chain) id zero attrs h n =
    let same_id : cid ≡ id = ap fst_of (some-injective _ _ h) in
    let same_attrs : a ≡ attrs = ap snd_of (some-injective _ _ h) in
    rw (same_id, same_attrs) (ground arith)
  where
    fst_of : Entry → ComponentId
    fst_of e = e.0

    snd_of : Entry → ComponentAttrs
    snd_of e = e.1
contains-dependents holder frontier ((cid, a) ∷ chain) id (suc k) attrs h n =
    ground (arith, contains-dependents holder frontier chain id k attrs h n)

pub IsClosed-round :
    (holder : ComponentId) (frontier : List ComponentId) (chain : List Entry)
    → IsClosed chain (frontier ++ dependents holder frontier chain) holder
IsClosed-round holder frontier chain id d =
    contains-append frontier (dependents holder frontier chain) id
    ∙ contains-dependents holder frontier chain id d.index d.attrs d.listed d.names

-- What gating a list of components does.
pub record GatesAll (ids : List ComponentId) (r : Rot) (es : List Effect) (r' : Rot) : Type 0 where
  pub gates : Gates r es r'
  pub gated : All (λ id. is_gated r' id ≡ true) ids
  pub others : (id : ComponentId) → contains ids id ≡ false → status_of r' id ≡ status_of r id

pub gate_one-others :
    (id : ComponentId) (r : Rot) (j : ComponentId)
    → (id == j) ≡ false
    → status_of (gate_one id r).0 j ≡ status_of r j
unfolding gate_one
gate_one-others id r j h = ground (arith, lookup-change_status r.chain r.statuses id gate_status j)

pub gate_dependents-GatesAll :
    (n : ℕ) (ids frontier : List ComponentId) (r : Rot)
    → IsSound r
    → All (IsMember r.chain) ids
    → GatesAll ids r (gate_dependents n ids frontier r).1 (gate_dependents n ids frontier r).0
unfolding gate_dependents
gate_dependents-GatesAll n [] frontier r v m = record {
  gates = Gates-refl r v;
  gated = tt;
  others = λ id h. refl;
}
gate_dependents-GatesAll n (x ∷ ids) frontier r v m =
    let first = gate_one-Gates x r v m.0 in
    let rest =
      gate_dependents-GatesAll n ids (push_within n frontier x) (gate_one x r).0 first.sound
        (subst (λ c. All (IsMember c) ids) (sym first.framed.chain_kept) m.1) in
    record {
      gates = Gates-trans _ _ first rest.gates;
      gated = (gated_stays rest.gates x (gate_one-is_gated x r v m.0), rest.gated);
      others = λ j h. rest.others j (ground arith) ∙ gate_one-others x r j (ground arith);
    }

pub gate_dependents-frontier :
    (n : ℕ) (ids frontier : List ComponentId) (r : Rot)
    → length frontier + length ids ≤ n
    → (gate_dependents n ids frontier r).2 ≡ frontier ++ ids
unfolding gate_dependents
gate_dependents-frontier n [] frontier r h = sym (append-nil frontier)
gate_dependents-frontier n (x ∷ ids) frontier r h =
    rw (push_within_fits n frontier x (omega arith)) (
      gate_dependents-frontier n ids (frontier ++ x ∷ []) (gate_one x r).0
        (omega (arith, length-append frontier (x ∷ [])))
      ∙ append_assoc frontier (x ∷ []) ids)
