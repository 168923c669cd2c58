-- ===== src/Sm/Invariant/Release.antt =====
-- The release of the component under verification (services/orchestrator/sm/src/lib.rs).
use openprot.Prelude.{
  suc, ◌≡◌, ◌∙◌, ap, inl, inr, false, some, [], ◌∷◌, ◌++◌, arith, if◌then◌else◌, Option-cases, ◌==◌,
  get_elem?, some-injective,
}
use openprot.Sm.Model.{ComponentId, Entry, State, ready, position, release_reset}
use openprot.Sm.Model.Valid.{IsValidChain, position-get_elem?}
use openprot.Sm.Rot.{
  Rot, Outcome, transition, status_of, cursor_id, clear_retry, clear_retry_status, mark_released,
  release_status, advance_to_next_ungated,
}
use openprot.Sm.Handlers.{release}
use openprot.Sm.Rot.Soundness.{IsSound, status_of-some}
use openprot.Sm.Rot.Statuses.{lookup-change_status}
use openprot.Sm.Lifecycle.{phase, held}
use openprot.Sm.Walk.{Evolves, Evolves-trans, IsWalking, IsDownFrom}
use openprot.Sm.Walk.Advance.{advance-Advances, phase_held}
use openprot.Sm.Walk.Changes.{update-Evolves, update-phase, release-Evolves}
use openprot.Sm.Invariant.{IsBased, IsWindowShut, OutcomeOk, Handles, Handles-after}
use openprot.Sm.Invariant.Corruption.{clear_retry-IsSilent, Advances-Handles}

-- The component under the cursor is found at the cursor.
pub cursor-position :
    (r : Rot) (id : ComponentId)
    → IsValidChain r.chain
    → cursor_id r ≡ some id
    → position r.chain id ≡ some r.cursor
cursor-position r id v c = elim (Option-cases (get_elem? r.chain r.cursor)) [
  | inl e ↦ absurd (ground arith)
  | inr (e, g) ↦
      position-get_elem? r.chain r.cursor id e.1 v.unique
        (g ∙ ap some (same_id e (some-injective _ _ (rw g at c))))
]
  where
    same_id : (e : Entry) → e.0 ≡ id → ◌≡◌ {A = Entry} e (id, e.1)
    same_id e p = λ i. (p i, e.1)

-- The component under verification is held.
pub cursor_held :
    (r : Rot) (id : ComponentId)
    → IsValidChain r.chain
    → IsWalking r
    → cursor_id r ≡ some id
    → phase (status_of r id) ≡ held
cursor_held r id v w c =
    phase_held (status_of r id) (w.ahead id r.cursor (cursor-position r id v c) (omega arith))
      (w.here id c)

module _ (r : Rot) (id : ComponentId) (b : IsBased r) (v : IsSound r) (w : IsWalking r)
    (c : cursor_id r ≡ some id) where
  abbrev pub released_rot : Rot
  released_rot = mark_released id (clear_retry id r)

  at : position r.chain id ≡ some r.cursor
  at = cursor-position r id b.valid c

  pub release_reset-Evolves : Evolves r (release_reset id ∷ []) released_rot
  release_reset-Evolves =
      let clear = update-Evolves clear_retry_status id r clear_retry-IsSilent v in
      let (s, e) = status_of-some (clear_retry id r) id clear.sound (r.cursor, at) in
      Evolves-trans [] (release_reset id ∷ []) clear (
        release-Evolves id (clear_retry id r) clear.sound
          (update-phase clear_retry_status id id r clear_retry-IsSilent
            ∙ cursor_held r id b.valid w c)
          s e)

  other_phase :
      (j : ComponentId)
      → (id == j) ≡ false
      → phase (status_of released_rot j) ≡ phase (status_of r j)
  other_phase j n = ground (
    arith,
    lookup-change_status r.chain (clear_retry id r).statuses id release_status j,
    lookup-change_status r.chain r.statuses id clear_retry_status j,
  )

  pub released-IsDownFrom : IsDownFrom (suc r.cursor) released_rot
  released-IsDownFrom j k p le =
      rw (other_phase j (ground (arith, at))) (w.ahead j k p (omega arith))

  pub release-Handles :
      (state : State) (next : Outcome)
      → IsWindowShut r
      → ((s : Rot) → IsWalking s → IsWindowShut s → OutcomeOk state s next)
      → Handles state r (
        (release id r).0,
        (release id r).1 ++ [],
        if (release id r).2 then next else transition ready,
      )
  unfolding release
  release-Handles state next s ok =
      Handles-after state r released_rot (release_reset id ∷ []) _ release_reset-Evolves (
        Advances-Handles state (suc r.cursor) released_rot
          (advance_to_next_ungated (suc r.cursor) released_rot) next
          (advance-Advances (suc r.cursor) released_rot release_reset-Evolves.sound b.valid.unique
            b.valid.indexable released-IsDownFrom)
          s ok)
