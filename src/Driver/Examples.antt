-- ===== src/Driver/Examples.antt =====
-- A board with one component: the theorems on services/orchestrator/driver, applied.
use openprot.Prelude.{
  if◌then◌else◌, ltb, get_elem?, ℕ, ◌≡◌, ◌≢◌, refl, Bool, true, false, none, some, [], ◌∷◌, ok, err,
  arith,
}
use openprot.Sm.Model.{
  component_ready, active, verification_failed, verify_firmware, assert_reset, commit_svn_floor,
  component_id,
}
use openprot.Driver.Wiring.{Capabilities, Verdict, authenticated, rejected, complete, erot}
use openprot.Driver.{
  watched_walk, get_elem?, poll_from, judge, verify_firmware_of, component_ready, hold,
  PlatformDriver, execute, poll_boot_walks, effect_error,
}
use openprot.Driver.Verdicts.{rejected_image_never_commits}
use openprot.Driver.Walks.{held_component_is_silent}

abbrev judged : ℕ → ℕ → Verdict
judged least image = if ltb image least then rejected else authenticated image

-- An image is its SVN; the verifier knows the least SVN that it accepts; a floor is a number.
abbrev bench : Capabilities
bench = record {
  Image = ℕ;
  Verifier = ℕ;
  BootControl = Bool;
  BootWatch = Unit {0};
  SvnFloor = ℕ;
  ReportSink = Unit {0};
  open_image = λ image. (image, ok tt);
  verify = λ id least image. (least, image, ok (judged least image));
  release = λ control. (false, ok tt);
  hold_in_reset = λ control. (true, ok tt);
  arm = λ walk. walk;
  poll = λ now walk. (walk, complete);
  advance = λ svn floor. (svn, ok tt);
  report = λ report sink. sink;
}

abbrev bench_driver : ℕ → PlatformDriver bench
bench_driver image = record {
  board = record {
    images = image ∷ image ∷ [];
    verifier = 5;
    boot_controls = false ∷ false ∷ [];
    boot_watches = tt ∷ tt ∷ [];
    component_kinds = active ∷ active ∷ [];
    svn_floors = erot 1 ∷ erot 1 ∷ [];
    report_sink = tt;
  };
  staged = some 0;
  watching = true ∷ true ∷ [];
  verified_svn = some 6 ∷ none ∷ [];
}

fails : (execute bench (verify_firmware 0) (bench_driver 3)).1 ≡ ok (some (verification_failed 0))
unfolding execute verify_firmware_of judge
fails = refl

kept_floor :
    get_elem? (execute bench (verify_firmware 0) (bench_driver 3)).0.board.svn_floors 0
    ≡ some (erot 1)
unfolding execute verify_firmware_of judge
kept_floor = refl

rejected_image_never_commits_example :
    execute bench (commit_svn_floor 0) (execute bench (verify_firmware 0) (bench_driver 3)).0
    ≡ ((execute bench (verify_firmware 0) (bench_driver 3)).0, err effect_error)
rejected_image_never_commits_example =
    rejected_image_never_commits bench 0 (bench_driver 3) 1 (omega arith) fails kept_floor

holds : (execute bench (assert_reset 0) (bench_driver 7)).1 ≡ ok none
unfolding execute hold
holds = refl

other_reports :
    (poll_boot_walks bench 10 (execute bench (assert_reset 0) (bench_driver 7)).0).1.event
    ≡ some (component_ready 1)
unfolding execute hold poll_boot_walks poll_from watched_walk
other_reports = refl

held_component_is_silent_example : component_id (component_ready 1) ≢ some 0
held_component_is_silent_example =
    held_component_is_silent bench 10 0 (bench_driver 7) (component_ready 1) (omega arith)
      (omega arith) holds other_reports
