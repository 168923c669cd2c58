-- ===== src/Sm.antt =====
-- services/orchestrator/sm: the boot-sequence state machine.
pub mod Model
pub mod Rot
pub mod Gating
pub mod Handlers
pub mod Engine
pub mod Lifecycle
pub mod Walk
pub mod Invariant
pub mod Budget
pub mod Trace
pub mod Isolation
pub mod Locked
pub mod Failure
pub mod Release
pub mod Boot
mod Examples
