-- ===== src/Driver/Wiring.antt =====
-- services/orchestrator/driver/src/board.rs, and the traits of services/orchestrator/capabilities
-- that a board implements. A capability is a state with the operations of its trait; the errors,
-- which the driver drops, are one value.
use openprot.Prelude.{ℕ, String, List, Result}
use openprot.Sm.Model.{ComponentId, ComponentKind, BootFailureKind}

pub data Fault : Type 0 where
  fault : Fault

-- `Svn`, a wrapped 32-bit number.
abbrev pub Svn : Type 0
Svn = ℕ

pub data Verdict : Type 0 where
  authenticated : Svn → Verdict
  rejected : Verdict

pub data FailureCause : Type 0 where
  timed_out device_retriable device_fatal : FailureCause

pub data WalkVerdict : Type 0 where
  waiting : ℕ → WalkVerdict
  complete : WalkVerdict
  failed : String → FailureCause → WalkVerdict

pub data Report : Type 0 where
  isolated : ComponentId → Report
  recovery_failed : ComponentId → Report
  boot_failed : ComponentId → String → BootFailureKind → Report
  update_deferred : Report
  update_aborted : Report

pub data SvnFloorBinding (F : Type 0) : Type 0 where
  erot : F → SvnFloorBinding F
  self_managed : SvnFloorBinding F

-- `BoardCapabilities`, with the operations of `ImageSource`, `Verifier`, `BootControl`,
-- `BootWatch`, `SvnFloor` and `ReportSink`.
pub record Capabilities : Type 1 where
  pub Image : Type 0
  pub Verifier : Type 0
  pub BootControl : Type 0
  pub BootWatch : Type 0
  pub SvnFloor : Type 0
  pub ReportSink : Type 0
  pub open_image : Image → Image × Result {0, 0} Fault Unit
  pub verify : ComponentId → Verifier → Image → Verifier × Image × Result {0, 0} Fault Verdict
  pub release : BootControl → BootControl × Result {0, 0} Fault Unit
  pub hold_in_reset : BootControl → BootControl × Result {0, 0} Fault Unit
  pub arm : BootWatch → BootWatch
  pub poll : ℕ → BootWatch → BootWatch × WalkVerdict
  pub advance : Svn → SvnFloor → SvnFloor × Result {0, 0} Fault Unit
  pub report : Report → ReportSink → ReportSink

pub record Board (B : Capabilities) : Type 0 where
  pub images : List B.Image
  pub verifier : B.Verifier
  pub boot_controls : List B.BootControl
  pub boot_watches : List B.BootWatch
  pub component_kinds : List ComponentKind
  pub svn_floors : List (SvnFloorBinding B.SvnFloor)
  pub report_sink : B.ReportSink
