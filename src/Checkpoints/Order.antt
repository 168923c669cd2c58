-- ===== src/Checkpoints/Order.antt =====
-- A walk completes only behind all of its checkpoints (services/orchestrator/adapters/walk/src/walk.rs).
use openprot.Prelude.{
  ℕ, zero, suc, ◌<◌, ◌≤◌, ◌≡◌, refl, sym, ap, ◌∙◌, subst, inl, inr, Option, none, some,
  some-injective, List, [], ◌∷◌, ◌++◌, map, take, take_all, leb, ◌==◌, length, get_elem?, Result,
  arith, Bool-cases, Option-cases,
}
use openprot.Driver.Wiring.{Fault, WalkVerdict, waiting, complete, failed}
use openprot.Checkpoints.{
  BootStatus, booting, booted, failed_retriable, failed_fatal, BootCheckpoint, Phase, idle, armed,
  walking, saturating_add, CheckpointWalk, started, enter, judge, status_or_booting, look,
  poll_phase, poll, polls,
}

module _ {R P : Type 0} (read : P → R → R × Result {0, 0} Fault BootStatus) where
  -- What a read that finds the device past a checkpoint leaves in the log.
  abbrev logged : P → BootStatus → List P → List P
  logged probe booted log = log ++ probe ∷ []
  logged probe _ log = log

  -- A reader that keeps a log of the probes that it read as booted.
  abbrev pub logging : P → R × List P → (R × List P) × Result {0, 0} Fault BootStatus
  logging probe (reader, log) =
      let (reader', status) = read probe reader in
      ((reader', logged probe (status_or_booting status) log), status)

abbrev pub probes : {P : Type 0} → List (BootCheckpoint P) → List P
probes checkpoints = map (λ c. c.probe) checkpoints

take-suc :
    {A : Type 0} (xs : List A) (k : ℕ) (x : A)
    → get_elem? xs k ≡ some x
    → take (suc k) xs ≡ take k xs ++ x ∷ []
take-suc [] k x h = cc
take-suc (y ∷ xs) zero x h = ap (λ z. z ∷ []) (some-injective _ _ h)
take-suc (y ∷ xs) (suc k) x h = ap (◌∷◌ y) (take-suc xs k x h)

map-append : {A B : Type 0} (f : A → B) (xs ys : List A) → map f (xs ++ ys) ≡ map f xs ++ map f ys
map-append f [] ys = refl
map-append f (x ∷ xs) ys = ap (◌∷◌ (f x)) (map-append f xs ys)

module _ {R P : Type 0} (read : P → R → R × Result {0, 0} Fault BootStatus) where
  -- In every phase, what has been read as booted since the walk was armed.
  abbrev pub IsInOrder : Phase → CheckpointWalk (R × List P) P → Type 0
  IsInOrder idle walk = Unit
  IsInOrder armed walk = walk.reader.1 ≡ []
  IsInOrder (walking cursor deadline) walk =
      (walk.reader.1 ≡ probes (take cursor walk.checkpoints)) × (cursor < length walk.checkpoints)

  abbrev Polled : List (BootCheckpoint P) → CheckpointWalk (R × List P) P × WalkVerdict → Type 0
  Polled checkpoints (walk, waiting _) =
      (walk.checkpoints ≡ checkpoints) × IsInOrder walk.phase walk
  Polled checkpoints (walk, complete) = walk.reader.1 ≡ probes checkpoints
  Polled checkpoints (walk, failed name cause) = Unit

pub get_elem?-none : {A : Type 0} (xs : List A) (k : ℕ) → get_elem? xs k ≡ none → length xs ≤ k
get_elem?-none [] k h = omega arith
get_elem?-none (x ∷ xs) zero h = cc
get_elem?-none (x ∷ xs) (suc k) h = omega (arith, get_elem?-none xs k h)

get_elem?-some_lt : {A : Type 0} (xs : List A) (x : A) → get_elem? xs 0 ≡ some x → 0 < length xs
get_elem?-some_lt [] x h = cc
get_elem?-some_lt (y ∷ xs) x h = omega arith

probes-suc :
    {P : Type 0} (checkpoints : List (BootCheckpoint P)) (k : ℕ) (c : BootCheckpoint P)
    → get_elem? checkpoints k ≡ some c
    → probes (take (suc k) checkpoints) ≡ probes (take k checkpoints) ++ c.probe ∷ []
probes-suc checkpoints k c h =
    ap probes (take-suc checkpoints k c h) ∙ map-append (λ c. c.probe) (take k checkpoints) (c ∷ [])

module _ {R P : Type 0} (read : P → R → R × Result {0, 0} Fault BootStatus) where
  enter-Polled :
      (now deadline next : ℕ) (walk : CheckpointWalk (R × List P) P)
      → walk.reader.1 ≡ probes (take next walk.checkpoints)
      → next < length walk.checkpoints
      → Polled read walk.checkpoints
          (enter now deadline next (get_elem? walk.checkpoints next) walk)
  enter-Polled now deadline next walk log lt =
      elim (Option-cases (get_elem? walk.checkpoints next)) [
        | inl n ↦ absurd (omega (arith, get_elem?-none walk.checkpoints next n))
        | inr (c, s) ↦ rw s (refl, (log, lt))
      ]

  judge-Polled :
      (now cursor deadline : ℕ) (c : BootCheckpoint P) (status : BootStatus)
      (walk : CheckpointWalk (R × List P) P)
      → walk.phase ≡ walking cursor deadline
      → cursor < length walk.checkpoints
      → get_elem? walk.checkpoints cursor ≡ some c
      → walk.reader.1 ≡ logged read c.probe status (probes (take cursor walk.checkpoints))
      → Polled read walk.checkpoints (judge now cursor deadline c status walk)
  judge-Polled now cursor deadline c booting walk p lt g log =
      (refl, subst (λ q. IsInOrder read q walk) (sym p) (log, lt))
  judge-Polled now cursor deadline c failed_retriable walk p lt g log = tt
  judge-Polled now cursor deadline c failed_fatal walk p lt g log = tt
  judge-Polled now cursor deadline c booted walk p lt g log =
      let all : walk.reader.1 ≡ probes (take (suc cursor) walk.checkpoints) =
        log ∙ sym (probes-suc walk.checkpoints cursor c g) in
      elim (Bool-cases (suc cursor == length walk.checkpoints)) [
        | inl y ↦
            let le : length walk.checkpoints ≤ suc cursor = ground arith in
            rw y (all ∙ ap probes (take_all (suc cursor) walk.checkpoints le))
        | inr n ↦
            let more : suc cursor < length walk.checkpoints = ground arith in
            rw n (enter-Polled now deadline (suc cursor) walk all more)
      ]

  look-Polled :
      (now cursor deadline : ℕ) (walk : CheckpointWalk (R × List P) P)
      → walk.phase ≡ walking cursor deadline
      → walk.reader.1 ≡ probes (take cursor walk.checkpoints)
      → cursor < length walk.checkpoints
      → Polled read walk.checkpoints
          (look (logging read) now cursor deadline (get_elem? walk.checkpoints cursor) walk)
  look-Polled now cursor deadline walk p log lt =
      elim (Option-cases (get_elem? walk.checkpoints cursor)) [
        | inl n ↦ absurd (omega (arith, get_elem?-none walk.checkpoints cursor n))
        | inr (c, g) ↦ rw g (elim (Bool-cases (leb deadline now)) [
          | inl y ↦ rw y tt
          | inr n ↦ rw n (
              judge-Polled now cursor deadline c (status_or_booting (read c.probe walk.reader.0).1)
                (record walk { reader = (logging read c.probe walk.reader).0 }) p lt g
                (ap (logged read c.probe (status_or_booting (read c.probe walk.reader.0).1)) log))
        ])
      ]

  poll-Polled :
      (now : ℕ) (walk : CheckpointWalk (R × List P) P)
      → IsInOrder read walk.phase walk
      → Polled read walk.checkpoints (poll (logging read) now walk)
  unfolding poll
  poll-Polled now walk h = by_phase walk.phase refl h
    where
      in_phase : Phase → CheckpointWalk (R × List P) P
      in_phase p = record walk { phase = p }

      poll_from : Phase → CheckpointWalk (R × List P) P × WalkVerdict
      poll_from p =
          poll_phase (logging read) now (started now p (get_elem? walk.checkpoints 0))
            (in_phase (started now p (get_elem? walk.checkpoints 0)))

      by_phase :
          (p : Phase)
          → walk.phase ≡ p
          → IsInOrder read p walk
          → Polled read walk.checkpoints (poll_from p)
      by_phase idle e k = (refl, tt)
      by_phase (walking cursor deadline) e k =
          look-Polled now cursor deadline (in_phase (walking cursor deadline)) refl k.0 k.1
      by_phase armed e k = elim (Option-cases (get_elem? walk.checkpoints 0)) [
        | inl n ↦ rw n (refl, k)
        | inr (c, g) ↦
            let deadline = saturating_add now c.timeout_millis in
            let looked =
              look-Polled now 0 deadline (in_phase (walking 0 deadline)) refl k
                (get_elem?-some_lt walk.checkpoints c g) in
            subst
              (λ o. Polled read walk.checkpoints (
                poll_phase (logging read) now (started now armed o)
                  (in_phase (started now armed o))))
              (sym g) looked
      ]

  -- Whatever the reader answers and whenever it is polled: when a walk that was armed with an
  -- empty log, or has so far read what it should, ends as complete, each checkpoint has been read
  -- as booted, in order and once.
  pub complete-in_order :
      (times : List ℕ) (walk : CheckpointWalk (R × List P) P)
      → IsInOrder read walk.phase walk
      → (polls (logging read) times walk).1 ≡ some complete
      → (polls (logging read) times walk).0.reader.1 ≡ probes walk.checkpoints
  unfolding polls
  complete-in_order [] walk h e = cc
  complete-in_order (now ∷ times) walk h e =
      by_verdict (poll (logging read) now walk).1 (poll-Polled now walk h)
        (complete-in_order times (poll (logging read) now walk).0) e
    where
      walk' : CheckpointWalk (R × List P) P
      walk' = (poll (logging read) now walk).0

      ended : WalkVerdict → CheckpointWalk (R × List P) P × Option WalkVerdict
      ended v = elim v [
        | waiting _ ↦ polls (logging read) times walk'
        | complete ↦ (walk', some complete)
        | failed name cause ↦ (walk', some (failed name cause))
      ]

      by_verdict :
          (v : WalkVerdict)
          → Polled read walk.checkpoints (walk', v)
          → (IsInOrder read walk'.phase walk'
              → (polls (logging read) times walk').1 ≡ some complete
              → (polls (logging read) times walk').0.reader.1 ≡ probes walk'.checkpoints)
          → (ended v).1 ≡ some complete
          → (ended v).0.reader.1 ≡ probes walk.checkpoints
      by_verdict (waiting t) (same, order) later q = later order q ∙ ap probes same
      by_verdict complete log later q = log
      by_verdict (failed name cause) u later q = cc
