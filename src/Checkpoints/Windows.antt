-- ===== src/Checkpoints/Windows.antt =====
-- A walk ends within its windows (services/orchestrator/adapters/walk/src/walk.rs).
use openprot.Prelude.{
  ℕ, zero, suc, ◌+◌, ◌<◌, ◌≤◌, ◌≡◌, ◌≢◌, refl, sym, ap, subst, inl, inr, true, Option, none, some,
  some-injective, List, [], ◌∷◌, ◌++◌, drop, leb, ◌==◌, length, get_elem?, Result, arith,
  Bool-cases, Option-cases,
}
use openprot.Driver.Wiring.{Fault, WalkVerdict, waiting, complete, failed}
use openprot.Checkpoints.{
  BootStatus, booting, booted, failed_retriable, failed_fatal, BootCheckpoint, Phase, idle, armed,
  walking, saturating_add, CheckpointWalk, started, enter, judge, status_or_booting, look,
  poll_phase, poll, polls,
}
use openprot.Checkpoints.Order.{get_elem?-none}

-- The windows of the checkpoints together.
abbrev pub total : {P : Type 0} → List (BootCheckpoint P) → ℕ
total [] = 0
total (c ∷ checkpoints) = c.timeout_millis + total checkpoints

total-drop :
    {P : Type 0} (checkpoints : List (BootCheckpoint P)) (k : ℕ) (c : BootCheckpoint P)
    → get_elem? checkpoints k ≡ some c
    → total (drop k checkpoints) ≡ c.timeout_millis + total (drop (suc k) checkpoints)
total-drop [] k c h = cc
total-drop (x ∷ checkpoints) zero c h =
    ap (λ x. x.timeout_millis + total checkpoints) (some-injective _ _ h)
total-drop (x ∷ checkpoints) (suc k) c h = total-drop checkpoints k c h

module _ {R P : Type 0} where
  -- The windows that are left end by `bound`.
  abbrev EndsBy : ℕ → CheckpointWalk R P → Phase → Type 0
  EndsBy bound walk (walking cursor deadline) =
      (cursor < length walk.checkpoints)
      × (deadline + total (drop (suc cursor) walk.checkpoints) ≤ bound)
  EndsBy bound walk _ = ⊥

  abbrev Goes : ℕ → CheckpointWalk R P × WalkVerdict → Type 0
  Goes bound (walk, waiting _) = EndsBy bound walk walk.phase
  Goes bound (walk, _) = Unit

  enter-Goes :
      (bound now deadline next : ℕ) (walk : CheckpointWalk R P)
      → next < length walk.checkpoints
      → now + total (drop next walk.checkpoints) ≤ bound
      → Goes bound (enter now deadline next (get_elem? walk.checkpoints next) walk)
  enter-Goes bound now deadline next walk lt le =
      elim (Option-cases (get_elem? walk.checkpoints next)) [
        | inl n ↦ absurd (omega (arith, get_elem?-none walk.checkpoints next n))
        | inr (c, s) ↦ rw s (lt, omega (arith, total-drop walk.checkpoints next c s))
      ]

  judge-Goes :
      (bound now cursor deadline : ℕ) (c : BootCheckpoint P) (status : BootStatus)
      (walk : CheckpointWalk R P)
      → walk.phase ≡ walking cursor deadline
      → EndsBy bound walk (walking cursor deadline)
      → now < deadline
      → Goes bound (judge now cursor deadline c status walk)
  judge-Goes bound now cursor deadline c booting walk p b lt = subst (EndsBy bound walk) (sym p) b
  judge-Goes bound now cursor deadline c failed_retriable walk p b lt = tt
  judge-Goes bound now cursor deadline c failed_fatal walk p b lt = tt
  judge-Goes bound now cursor deadline c booted walk p b lt =
      elim (Bool-cases (suc cursor == length walk.checkpoints)) [
        | inl y ↦ rw y tt
        | inr n ↦
            let more : suc cursor < length walk.checkpoints = (let k = b.0 in ground arith) in
            rw n (enter-Goes bound now deadline (suc cursor) walk more (omega (arith, b.1)))
      ]

  module _ (read : P → R → R × Result {0, 0} Fault BootStatus) where
    look-Goes :
        (bound now cursor deadline : ℕ) (walk : CheckpointWalk R P)
        → walk.phase ≡ walking cursor deadline
        → EndsBy bound walk (walking cursor deadline)
        → Goes bound (look read now cursor deadline (get_elem? walk.checkpoints cursor) walk)
    look-Goes bound now cursor deadline walk p b =
        elim (Option-cases (get_elem? walk.checkpoints cursor)) [
          | inl n ↦ absurd (omega (arith, get_elem?-none walk.checkpoints cursor n, b.0))
          | inr (c, g) ↦ rw g (elim (Bool-cases (leb deadline now)) [
            | inl y ↦ rw y tt
            | inr n ↦
                let lt : now < deadline = ground arith in
                rw n (
                  judge-Goes bound now cursor deadline c
                    (status_or_booting (read c.probe walk.reader).1)
                    (record walk { reader = (read c.probe walk.reader).0 }) p b lt)
          ])
        ]

    abbrev IsOver : CheckpointWalk R P × WalkVerdict → Type 0
    IsOver (walk, waiting _) = ⊥
    IsOver (walk, _) = Unit

    look-IsOver :
        (bound now cursor deadline : ℕ) (walk : CheckpointWalk R P)
        → EndsBy bound walk (walking cursor deadline)
        → bound ≤ now
        → IsOver (look read now cursor deadline (get_elem? walk.checkpoints cursor) walk)
    look-IsOver bound now cursor deadline walk b le =
        elim (Option-cases (get_elem? walk.checkpoints cursor)) [
          | inl n ↦ absurd (omega (arith, get_elem?-none walk.checkpoints cursor n, b.0))
          | inr (c, g) ↦
              let lapsed : leb deadline now ≡ true = (let k = b.1 in ground arith) in
              rw (g, lapsed) tt
        ]

    poll_as : ℕ → CheckpointWalk R P → Phase → CheckpointWalk R P × WalkVerdict
    poll_as now walk p =
        poll_phase read now (started now p (get_elem? walk.checkpoints 0))
          (record walk { phase = started now p (get_elem? walk.checkpoints 0) })

    poll-Goes :
        (bound now : ℕ) (walk : CheckpointWalk R P)
        → EndsBy bound walk walk.phase
        → Goes bound (poll read now walk)
    unfolding poll poll_as
    poll-Goes bound now walk b = by_phase walk.phase b
      where
        by_phase : (p : Phase) → EndsBy bound walk p → Goes bound (poll_as now walk p)
        by_phase (walking cursor deadline) b =
            look-Goes bound now cursor deadline (record walk { phase = walking cursor deadline })
              refl b
        by_phase idle b = absurd b
        by_phase armed b = absurd b

    poll-IsOver :
        (bound now : ℕ) (walk : CheckpointWalk R P)
        → EndsBy bound walk walk.phase
        → bound ≤ now
        → IsOver (poll read now walk)
    unfolding poll poll_as
    poll-IsOver bound now walk b le = by_phase walk.phase b
      where
        by_phase : (p : Phase) → EndsBy bound walk p → IsOver (poll_as now walk p)
        by_phase (walking cursor deadline) b =
            look-IsOver bound now cursor deadline (record walk { phase = walking cursor deadline })
              b le
        by_phase idle b = absurd b
        by_phase armed b = absurd b

    ended : List ℕ → CheckpointWalk R P → WalkVerdict → CheckpointWalk R P × Option WalkVerdict
    ended times walk v = elim v [
      | waiting _ ↦ polls read times walk
      | complete ↦ (walk, some complete)
      | failed name cause ↦ (walk, some (failed name cause))
    ]

    some_is_not_none : {v : WalkVerdict} → some v ≡ none → ⊥
    some_is_not_none q = cc

    polls-end :
        (bound : ℕ) (times : List ℕ) (last : ℕ) (walk : CheckpointWalk R P)
        → EndsBy bound walk walk.phase
        → bound ≤ last
        → (polls read (times ++ last ∷ []) walk).1 ≢ none
    unfolding polls ended
    polls-end bound [] last walk b le =
        by_verdict (poll read last walk).1 (poll-IsOver bound last walk b le)
      where
        by_verdict :
            (v : WalkVerdict)
            → IsOver ((poll read last walk).0, v)
            → (ended [] (poll read last walk).0 v).1 ≢ none
        by_verdict (waiting t) o = absurd o
        by_verdict complete o = some_is_not_none
        by_verdict (failed name cause) o = some_is_not_none
    polls-end bound (now ∷ times) last walk b le =
        by_verdict (poll read now walk).1 (poll-Goes bound now walk b)
          (λ k. polls-end bound times last (poll read now walk).0 k le)
      where
        walk' : CheckpointWalk R P
        walk' = (poll read now walk).0

        by_verdict :
            (v : WalkVerdict)
            → Goes bound (walk', v)
            → (EndsBy bound walk' walk'.phase → (polls read (times ++ last ∷ []) walk').1 ≢ none)
            → (ended (times ++ last ∷ []) walk' v).1 ≢ none
        by_verdict (waiting t) g later = later g
        by_verdict complete g later = some_is_not_none
        by_verdict (failed name cause) g later = some_is_not_none

    first-Goes :
        (first : ℕ) (walk : CheckpointWalk R P)
        → walk.phase ≡ armed
        → 0 < length walk.checkpoints
        → Goes (first + total walk.checkpoints) (poll read first walk)
    unfolding poll poll_as
    first-Goes first walk a nonempty =
        subst (λ p. Goes (first + total walk.checkpoints) (poll_as first walk p)) (sym a)
          (elim (Option-cases (get_elem? walk.checkpoints 0)) [
            | inl n ↦ absurd (omega (arith, get_elem?-none walk.checkpoints 0 n))
            | inr (c, g) ↦
                let deadline = saturating_add first c.timeout_millis in
                subst
                  (λ o. Goes (first + total walk.checkpoints) (
                    poll_phase read first (started first armed o)
                      (record walk { phase = started first armed o })))
                  (sym g)
                  (look-Goes (first + total walk.checkpoints) first 0 deadline
                    (record walk { phase = walking 0 deadline }) refl
                    (nonempty, omega (arith, total-drop walk.checkpoints 0 c g)))
          ])

    -- Whatever the reader answers: a walk that is armed and has checkpoints, first polled at `first`,
    -- has ended when it is polled at or after `first` plus the windows of its checkpoints together.
    pub ends_in_time :
        (first : ℕ) (times : List ℕ) (last : ℕ) (walk : CheckpointWalk R P)
        → walk.phase ≡ armed
        → 0 < length walk.checkpoints
        → first + total walk.checkpoints ≤ last
        → (polls read (first ∷ times ++ last ∷ []) walk).1 ≢ none
    unfolding polls poll poll_as ended
    ends_in_time first times last walk a nonempty le =
        by_verdict (poll read first walk).1 (first-Goes first walk a nonempty)
          (λ k. polls-end (first + total walk.checkpoints) times last (poll read first walk).0 k le)
      where
        walk' : CheckpointWalk R P
        walk' = (poll read first walk).0

        by_verdict :
            (v : WalkVerdict)
            → Goes (first + total walk.checkpoints) (walk', v)
            → (EndsBy (first + total walk.checkpoints) walk' walk'.phase
                → (polls read (times ++ last ∷ []) walk').1 ≢ none)
            → (ended (times ++ last ∷ []) walk' v).1 ≢ none
        by_verdict (waiting t) g later = later g
        by_verdict complete g later = some_is_not_none
        by_verdict (failed name cause) g later = some_is_not_none
