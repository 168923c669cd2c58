-- ===== src/Driver.antt =====
-- services/orchestrator/driver/src/driver.rs: the executors of the effects, over what a board
-- supplies (`Driver.Wiring`). The arrays of the source are lists of one length N; reading past the
-- end, a panic in the source, reads as a component that is not watched.
pub mod Wiring
pub mod Verdicts
pub mod Walks
mod Examples
use openprot.Prelude.{
  ℕ, zero, suc, min, ◌%◌, Bool, true, false, Option, none, some, List, Result, ok, err, length,
  get_elem?, modify, is_some_of, if◌then◌else◌, map,
}
use openprot.Sm.Model.{
  ComponentId, ComponentKind, active, BootFailureKind, timed_out, device_retriable, device_fatal,
  Event, verification_passed, verification_failed, component_ready, booted, boot_failed, Effect,
  read_firmware, verify_firmware, release_reset, assert_reset, commit_svn_floor, report_isolated,
  report_recovery_failed, report_update_deferred, report_update_aborted, report_boot_failed,
  recover_component, authenticate_update, stage_update, activate_update, discard_staged,
  sign_attestation, latch_lockdown, emit,
}
use openprot.Driver.Wiring.{
  Fault, Svn, Verdict, authenticated, rejected, FailureCause, WalkVerdict, waiting, complete,
  failed, Report, isolated, recovery_failed, update_deferred, update_aborted, erot, self_managed,
  Capabilities, Board,
}

pub data DriverError : Type 0 where
  unknown_component image_unavailable not_staged verifier_fault boot_control_fault : DriverError
  no_verified_image svn_floor_fault : DriverError

pub data EffectError : Type 0 where
  effect_error : EffectError

-- One round of `poll_boot_walks`.
pub record BootWalkPoll : Type 0 where
  pub event : Option Event
  pub next_deadline_millis : Option ℕ

abbrev pub set : {A : Type 0} → List A → ℕ → A → List A
set xs i a = modify xs i (λ _. a)

abbrev failure_kind : FailureCause → BootFailureKind
failure_kind FailureCause.timed_out = timed_out
failure_kind FailureCause.device_retriable = device_retriable
failure_kind FailureCause.device_fatal = device_fatal

abbrev completed : ComponentId → Option ComponentKind → Event
completed id (some active) = component_ready id
completed id _ = booted id

-- The event of a verdict that ends a walk.
abbrev pub walk_event : ComponentId → Option ComponentKind → WalkVerdict → Option Event
walk_event id kind (waiting _) = none
walk_event id kind complete = some (completed id kind)
walk_event id kind (failed checkpoint cause) = some (boot_failed id checkpoint (failure_kind cause))

abbrev pub sooner : Option ℕ → WalkVerdict → Option ℕ
sooner none (waiting deadline) = some deadline
sooner (some d) (waiting deadline) = some (min d deadline)
sooner next _ = next

module _ (B : Capabilities) where
  pub record PlatformDriver : Type 0 where
    pub board : Board B
    pub staged : Option ComponentId
    pub watching : List Bool
    pub verified_svn : List (Option Svn)

  -- `PlatformDriver::new`
  unfoldable pub new : Board B → PlatformDriver
  new board = record {
    board = board;
    staged = none;
    watching = map (λ _. false) board.images;
    verified_svn = map (λ _. none) board.images;
  }

  abbrev pub Executed : Type 0 → Type 0
  Executed A = PlatformDriver × Result {0, 0} DriverError A

  -- `PlatformDriver::stage_firmware`
  unfoldable pub stage_firmware : ComponentId → PlatformDriver → Executed Unit
  stage_firmware id driver =
      let cleared = record driver { staged = none } in
      elim (get_elem? driver.board.images id) [
        | none ↦ (cleared, err unknown_component)
        | some image ↦
            let (image', opened) = B.open_image image in
            let board = record driver.board { images = set driver.board.images id image' } in
            elim opened [
              | err _ ↦ (record cleared { board = board }, err image_unavailable)
              | ok _ ↦ (record cleared { board = board; staged = some id }, ok tt)
            ]
      ]

  -- What `verify_firmware` does with a verdict.
  unfoldable pub judge : ComponentId → Verdict → PlatformDriver → Executed Event
  judge id (authenticated svn) driver = (
    record driver { verified_svn = set driver.verified_svn id (some svn) },
    ok (verification_passed id),
  )
  judge id rejected driver = (
    record driver { verified_svn = set driver.verified_svn id none },
    ok (verification_failed id),
  )

  abbrev pub write_image : ComponentId → B.Verifier → B.Image → PlatformDriver → PlatformDriver
  write_image id verifier image driver = record driver {
    board = record driver.board { verifier = verifier; images = set driver.board.images id image };
  }

  abbrev pub settle_verdict :
      ComponentId
      → B.Verifier × B.Image × Result {0, 0} Fault Verdict
      → PlatformDriver
      → Executed Event
  settle_verdict id (verifier, image, ok verdict) driver =
      judge id verdict (write_image id verifier image driver)
  settle_verdict id (verifier, image, err _) driver =
      (write_image id verifier image driver, err verifier_fault)

  abbrev pub verify_source : ComponentId → Option B.Image → PlatformDriver → Executed Event
  verify_source id none driver = (driver, err unknown_component)
  verify_source id (some image) driver =
      if is_some_of id driver.staged
      then settle_verdict id (B.verify id driver.board.verifier image) driver
      else (driver, err not_staged)

  -- `PlatformDriver::verify_firmware`
  unfoldable pub verify_firmware_of : ComponentId → PlatformDriver → Executed Event
  verify_firmware_of id driver = verify_source id (get_elem? driver.board.images id) driver

  -- `PlatformDriver::commit_svn_floor`
  unfoldable pub commit_floor : ComponentId → PlatformDriver → Executed Unit
  commit_floor id driver = elim (get_elem? driver.board.svn_floors id) [
    | none ↦ (driver, err unknown_component)
    | some self_managed ↦ (driver, ok tt)
    | some (erot floor) ↦ elim (get_elem? driver.verified_svn id) [
      | some (some svn) ↦
          let (floor', advanced) = B.advance svn floor in
          let board = record driver.board {
            svn_floors = set driver.board.svn_floors id (erot floor');
          } in
          elim advanced [
            | err _ ↦ (record driver { board = board }, err svn_floor_fault)
            | ok _ ↦ (record driver { board = board }, ok tt)
          ]
      | _ ↦ (driver, err no_verified_image)
    ]
  ]

  abbrev arm_walk : ComponentId → PlatformDriver → PlatformDriver
  arm_walk id driver = record driver {
    board = record driver.board { boot_watches = modify driver.board.boot_watches id B.arm };
    watching = set driver.watching id true;
  }

  -- `PlatformDriver::release_reset`
  unfoldable pub release : ComponentId → PlatformDriver → Executed Unit
  release id driver = elim (get_elem? driver.board.boot_controls id) [
    | none ↦ (driver, err unknown_component)
    | some control ↦
        let (control', released) = B.release control in
        let board = record driver.board {
          boot_controls = set driver.board.boot_controls id control';
        } in
        elim released [
          | err _ ↦ (record driver { board = board }, err boot_control_fault)
          | ok _ ↦ (arm_walk id (record driver { board = board }), ok tt)
        ]
  ]

  -- `PlatformDriver::assert_reset`
  unfoldable pub hold : ComponentId → PlatformDriver → Executed Unit
  hold id driver = elim (get_elem? driver.board.boot_controls id) [
    | none ↦ (driver, err unknown_component)
    | some control ↦
        let (control', held) = B.hold_in_reset control in
        let board = record driver.board {
          boot_controls = set driver.board.boot_controls id control';
        } in
        elim held [
          | err _ ↦ (record driver { board = board }, err boot_control_fault)
          | ok _ ↦ (record driver { board = board; watching = set driver.watching id false }, ok tt)
        ]
  ]

  -- `if !self.watching[idx] { continue; }`
  unfoldable pub watched_walk : ℕ → PlatformDriver → Option B.BootWatch
  watched_walk idx driver = elim (get_elem? driver.watching idx) [
    | some true ↦ get_elem? driver.board.boot_watches idx
    | _ ↦ none
  ]

  abbrev pub write_walk : ℕ → B.BootWatch → PlatformDriver → PlatformDriver
  write_walk idx walk driver = record driver {
    board = record driver.board { boot_watches = set driver.board.boot_watches idx walk };
  }

  abbrev pub unwatch : ℕ → PlatformDriver → PlatformDriver
  unwatch idx driver = record driver { watching = set driver.watching idx false }

  -- The loop of `poll_boot_walks`, at index `idx`, for the `n` components that are left.
  unfoldable pub poll_from : ℕ → ℕ → ℕ → Option ℕ → PlatformDriver → PlatformDriver × BootWalkPoll
  unfolding watched_walk
  poll_from now zero idx next driver =
      (driver, record { event = none; next_deadline_millis = next })
  poll_from now (suc n) idx next driver = elim (watched_walk idx driver) [
    | none ↦ poll_from now n (suc idx) next driver
    | some walk ↦
        let (walk', verdict) = B.poll now walk in
        let polled = write_walk idx walk' driver in
        elim (walk_event (idx % 256) (get_elem? driver.board.component_kinds idx) verdict) [
          | none ↦ poll_from now n (suc idx) (sooner next verdict) polled
          | some event ↦
              (unwatch idx polled, record { event = some event; next_deadline_millis = next })
        ]
  ]

  abbrev pub send_report : Report → PlatformDriver → PlatformDriver
  send_report report driver = record driver {
    board = record driver.board { report_sink = B.report report driver.board.report_sink };
  }

  abbrev pub no_event : Executed Unit → PlatformDriver × Result {0, 0} EffectError (Option Event)
  no_event (driver, ok _) = (driver, ok none)
  no_event (driver, err _) = (driver, err effect_error)

  abbrev pub with_event : Executed Event → PlatformDriver × Result {0, 0} EffectError (Option Event)
  with_event (driver, ok event) = (driver, ok (some event))
  with_event (driver, err _) = (driver, err effect_error)

  -- `<PlatformDriver as Platform>::execute`
  unfoldable pub execute :
      Effect → PlatformDriver → PlatformDriver × Result {0, 0} EffectError (Option Event)
  execute (read_firmware id) driver = no_event (stage_firmware id driver)
  execute (verify_firmware id) driver = with_event (verify_firmware_of id driver)
  execute (release_reset id) driver = no_event (release id driver)
  execute (assert_reset id) driver = no_event (hold id driver)
  execute (commit_svn_floor id) driver = no_event (commit_floor id driver)
  execute (report_isolated id) driver = (send_report (isolated id) driver, ok none)
  execute (report_recovery_failed id) driver = (send_report (recovery_failed id) driver, ok none)
  execute report_update_deferred driver = (send_report update_deferred driver, ok none)
  execute report_update_aborted driver = (send_report update_aborted driver, ok none)
  execute (report_boot_failed id checkpoint kind) driver =
      (send_report (Report.boot_failed id checkpoint kind) driver, ok none)
  execute (recover_component _ _) driver = (driver, err effect_error)
  execute authenticate_update driver = (driver, err effect_error)
  execute stage_update driver = (driver, err effect_error)
  execute activate_update driver = (driver, err effect_error)
  execute discard_staged driver = (driver, err effect_error)
  execute sign_attestation driver = (driver, err effect_error)
  execute latch_lockdown driver = (driver, err effect_error)
  execute (emit _) driver = (driver, err effect_error)

-- `PlatformDriver::poll_boot_walks`
unfoldable pub poll_boot_walks :
    (B : Capabilities) → ℕ → PlatformDriver B → PlatformDriver B × BootWalkPoll
poll_boot_walks B now driver = poll_from B now (length driver.watching) 0 none driver
