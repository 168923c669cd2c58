-- ===== src/Driver/Walks/Polling.antt =====
-- One round of `poll_boot_walks` (services/orchestrator/driver/src/driver.rs).
use openprot.Prelude.{
  ℕ, zero, suc, ◌%◌, ◌+◌, ◌<◌, ◌≤◌, ◌≡◌, refl, sym, ap, subst, ◌⊎◌, inl, inr, Bool, true, false,
  Option, none, some, some-injective, get_elem?, length, arith, Option-cases,
}
use openprot.Sm.Model.{ComponentId, ComponentKind, active, passive, Event, component_id}
use openprot.Driver.Wiring.{WalkVerdict, waiting, complete, failed, Capabilities}
use openprot.Driver.{
  BootWalkPoll, set, walk_event, sooner, PlatformDriver, watched_walk, write_walk, poll_from,
  poll_boot_walks,
}

walk_event-component_id :
    (id : ComponentId) (kind : Option ComponentKind) (v : WalkVerdict) (event : Event)
    → walk_event id kind v ≡ some event
    → component_id event ≡ some id
unfolding component_id
walk_event-component_id id kind (waiting t) event h = cc
walk_event-component_id id none complete event h = ap component_id (sym (some-injective _ _ h))
walk_event-component_id id (some active) complete event h =
    ap component_id (sym (some-injective _ _ h))
walk_event-component_id id (some passive) complete event h =
    ap component_id (sym (some-injective _ _ h))
walk_event-component_id id kind (failed c cause) event h =
    ap component_id (sym (some-injective _ _ h))

module _ (B : Capabilities) where
  -- What polling leaves alone.
  pub record IsPolled (driver driver' : PlatformDriver B) : Type 0 where
    pub staged_kept : driver'.staged ≡ driver.staged
    pub verified_kept : driver'.verified_svn ≡ driver.verified_svn
    pub controls_kept : driver'.board.boot_controls ≡ driver.board.boot_controls
    pub floors_kept : driver'.board.svn_floors ≡ driver.board.svn_floors
    pub images_kept : driver'.board.images ≡ driver.board.images

  -- What a round finds: no walk has ended and all go on being watched, or one of the watched walks
  -- has, the event is about its component, and that one alone is no longer watched.
  abbrev pub Polls : ℕ → ℕ → PlatformDriver B → PlatformDriver B × BootWalkPoll → Type 0
  Polls n idx driver res =
      IsPolled driver res.0
      × (((res.1.event ≡ none) × (res.0.watching ≡ driver.watching))
          ⊎ ((k : ℕ) × (event : Event) × (res.1.event ≡ some event)
              × (idx ≤ k)
              × (k < idx + n)
              × (get_elem? driver.watching k ≡ some true)
              × (component_id event ≡ some (k % 256))
              × (res.0.watching ≡ set driver.watching k false)))

  later :
      (n idx : ℕ) (driver : PlatformDriver B) (res : PlatformDriver B × BootWalkPoll)
      → Polls n (suc idx) driver res
      → Polls (suc n) idx driver res
  later n idx driver res (p, inl q) = (p, inl q)
  later n idx driver res (p, inr (k, event, e, le, lt, g, c, w)) =
      (p, inr (k, event, e, omega arith, omega arith, g, c, w))

  behind :
      (n idx : ℕ) (walk : B.BootWatch) (driver : PlatformDriver B)
      (res : PlatformDriver B × BootWalkPoll)
      → Polls n (suc idx) (write_walk B idx walk driver) res
      → Polls (suc n) idx driver res
  behind n idx walk driver res (p, q) = later n idx driver res (
    record {
      staged_kept = p.staged_kept;
      verified_kept = p.verified_kept;
      controls_kept = p.controls_kept;
      floors_kept = p.floors_kept;
      images_kept = p.images_kept;
    },
    q,
  )

  watched_walk-some :
      (idx : ℕ) (driver : PlatformDriver B) (walk : B.BootWatch)
      → watched_walk B idx driver ≡ some walk
      → get_elem? driver.watching idx ≡ some true
  unfolding watched_walk
  watched_walk-some idx driver walk h = elim (Option-cases (get_elem? driver.watching idx)) [
    | inl n ↦ absurd (none_is_not_some (subst (λ w. watch_of w ≡ some walk) n h))
    | inr (true, s) ↦ s
    | inr (false, s) ↦ absurd (none_is_not_some (subst (λ w. watch_of w ≡ some walk) s h))
  ]
    where
      none_is_not_some : none ≡ some walk → ⊥
      none_is_not_some e = cc

      watch_of : Option Bool → Option B.BootWatch
      watch_of (some true) = get_elem? driver.board.boot_watches idx
      watch_of (some false) = none
      watch_of none = none

  kept : (driver : PlatformDriver B) → IsPolled driver driver
  kept driver = record {
    staged_kept = refl;
    verified_kept = refl;
    controls_kept = refl;
    floors_kept = refl;
    images_kept = refl;
  }

  poll_from-Polls :
      (now n idx : ℕ) (next : Option ℕ) (driver : PlatformDriver B)
      → Polls n idx driver (poll_from B now n idx next driver)
  unfolding poll_from
  poll_from-Polls now zero idx next driver = (kept driver, inl (refl, refl))
  poll_from-Polls now (suc n) idx next driver = elim (Option-cases (watched_walk B idx driver)) [
    | inl e ↦
        rw (e, poll_from)
          (later n idx driver (poll_from B now n (suc idx) next driver)
            (poll_from-Polls now n (suc idx) next driver))
    | inr (walk, e) ↦
        let verdict = (B.poll now walk).1 in
        let polled = write_walk B idx (B.poll now walk).0 driver in
        rw (e, poll_from)
          (elim (Option-cases
            (walk_event (idx % 256) (get_elem? driver.board.component_kinds idx) verdict)) [
              | inl v ↦ rw v (
                  behind n idx (B.poll now walk).0 driver
                    (poll_from B now n (suc idx) (sooner next verdict) polled)
                    (poll_from-Polls now n (suc idx) (sooner next verdict) polled))
              | inr (event, v) ↦ rw v (
                record {
                  staged_kept = refl;
                  verified_kept = refl;
                  controls_kept = refl;
                  floors_kept = refl;
                  images_kept = refl;
                },
                inr (
                  idx,
                  event,
                  refl,
                  omega arith,
                  omega arith,
                  watched_walk-some idx driver walk e,
                  walk_event-component_id (idx % 256) (get_elem? driver.board.component_kinds idx)
                      verdict event v,
                  refl,
                ),
              )
            ])
  ]

  pub poll_boot_walks-Polls :
      (now : ℕ) (driver : PlatformDriver B)
      → Polls (length driver.watching) 0 driver (poll_boot_walks B now driver)
  unfolding poll_boot_walks
  poll_boot_walks-Polls now driver = poll_from-Polls now (length driver.watching) 0 none driver
