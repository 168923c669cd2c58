-- ===== src/System/Examples.antt =====
-- One required component on a board that does nothing: the theorem on `dispatch`, applied.
use openprot.Sm.Handlers.{
  release, entry_action, handle_pre_supervision, handle_power_on_reset, handle,
}
use openprot.Prelude.{◌≡◌, refl, true, false, none, some, List, [], ◌∷◌, ok, arith}
use openprot.Sm.Model.{
  component_id, any_id, position, check_dependency, find_bad_dependency, find_duplicate, Entry,
  Chain, try_from, passive, passive_required, power_good, provisioned, verification_passed,
  corruption_detected, ready, locked,
}
use openprot.Sm.Rot.{
  new_rot, change_status, lookup_status, advance_from, advance_to_next_ungated, quiesce_all,
  in_chain, is_gated, find_attrs,
}
use openprot.Sm.Engine.{
  apply_outcome, supervise, is_modelled, react, emitted, after, step, Orchestrator, new, run_events,
  Run,
}
use openprot.Sm.Trace.{new-Inv, run_events-Inv}
use openprot.Driver.Wiring.{Capabilities, rejected, complete, self_managed}
use openprot.Driver.{PlatformDriver}
use openprot.System.{dispatch}
use openprot.System.Recovery.{required_corruption_locks}

abbrev only : List Entry
unfolding passive_required
only = (0, passive_required) ∷ []

abbrev chain : Chain
chain = record { entries = only }

only-accepted : try_from only ≡ ok chain
unfolding try_from find_duplicate find_bad_dependency check_dependency position any_id only
only-accepted = refl

abbrev booted : Orchestrator
booted = run_events (new 1 4 chain 2) (power_good provisioned ∷ verification_passed 0 ∷ [])

is_ready : booted.state ≡ ready
unfolding run_events step after emitted react is_modelled component_id in_chain supervise
    apply_outcome handle handle_power_on_reset handle_pre_supervision entry_action release
    quiesce_all advance_to_next_ungated advance_from lookup_status change_status new new_rot
    position only
is_ready = refl

is_in_service : is_gated booted.rot 0 ≡ false
unfolding run_events step after emitted react is_modelled component_id in_chain supervise
    apply_outcome handle handle_power_on_reset handle_pre_supervision entry_action release
    quiesce_all advance_to_next_ungated advance_from lookup_status change_status new new_rot
    position only
is_in_service = refl

is_listed : is_modelled booted.rot (corruption_detected 0) ≡ true
unfolding run_events step after emitted react is_modelled component_id in_chain supervise
    apply_outcome handle handle_power_on_reset handle_pre_supervision entry_action release
    quiesce_all advance_to_next_ungated advance_from lookup_status change_status new new_rot
    position only
is_listed = refl

is_required : find_attrs booted.rot.chain 0 ≡ some passive_required
unfolding run_events step after emitted react is_modelled component_id in_chain supervise
    apply_outcome handle handle_power_on_reset handle_pre_supervision entry_action release
    quiesce_all advance_to_next_ungated advance_from find_attrs lookup_status change_status new
    new_rot position only
is_required = refl

-- Every capability succeeds and does nothing.
abbrev bare : Capabilities
bare = record {
  Image = Unit {0};
  Verifier = Unit {0};
  BootControl = Unit {0};
  BootWatch = Unit {0};
  SvnFloor = Unit {0};
  ReportSink = Unit {0};
  open_image = λ image. (image, ok tt);
  verify = λ id verifier image. (verifier, image, ok rejected);
  release = λ control. (control, ok tt);
  hold_in_reset = λ control. (control, ok tt);
  arm = λ walk. walk;
  poll = λ now walk. (walk, complete);
  advance = λ svn floor. (floor, ok tt);
  report = λ report sink. sink;
}

abbrev bare_driver : PlatformDriver bare
bare_driver = record {
  board = record {
    images = tt ∷ [];
    verifier = tt;
    boot_controls = tt ∷ [];
    boot_watches = tt ∷ [];
    component_kinds = passive ∷ [];
    svn_floors = self_managed ∷ [];
    report_sink = tt;
  };
  staged = none;
  watching = false ∷ [];
  verified_svn = none ∷ [];
}

required_corruption_locks_example :
    (end : Orchestrator × Run (PlatformDriver bare)) × (dispatch bare 11 booted
        (corruption_detected 0)
        bare_driver
      ≡ some end)
    × (end.0.state ≡ locked)
required_corruption_locks_example =
    required_corruption_locks bare 11 booted 0 passive_required bare_driver
      (run_events-Inv (new 1 4 chain 2) (power_good provisioned ∷ verification_passed 0 ∷ [])
        (new-Inv 1 4 only chain 2 only-accepted (unfold only in omega arith) (omega arith)))
      is_ready is_listed is_in_service is_required (unfold passive_required in refl) (omega arith)
