-- ===== src/System.antt =====
-- services/orchestrator/sm/src/lib.rs, `Orchestrator::dispatch`, with the platform driver of
-- services/orchestrator/driver/src/driver.rs as its `Platform`.
pub mod Recovery
mod Examples
use openprot.Prelude.{ℕ, Option, Result, ok, err}
use openprot.Sm.Model.{Event}
use openprot.Sm.Engine.{Orchestrator, Executor, Answer, fed_back, Run, dispatch_with}
use openprot.Driver.Wiring.{Capabilities}
use openprot.Driver.{PlatformDriver, EffectError, execute}

abbrev answer : {W : Type 0} → W × Result {0, 0} EffectError (Option Event) → W × Answer
answer (world, ok event) = (world, fed_back event)
answer (world, err _) = (world, Answer.effect_error)

-- `|effect| platform.execute(effect)`
unfoldable pub platform : (B : Capabilities) → Executor (PlatformDriver B)
platform B effect driver = answer (execute B effect driver)

-- `Orchestrator::dispatch`
unfoldable pub dispatch :
    (B : Capabilities)
    → ℕ
    → Orchestrator
    → Event
    → PlatformDriver B
    → Option (Orchestrator × Run (PlatformDriver B))
dispatch B fuel o event driver = dispatch_with fuel o event (platform B) driver
