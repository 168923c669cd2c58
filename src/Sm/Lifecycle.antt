-- ===== src/Sm/Lifecycle.antt =====
-- What services/orchestrator/sm promises of one component: the automaton that the comments of
-- services/orchestrator/sm/src/lib.rs describe. A component is held in reset, runs, or is out of
-- service. It is read and verified only while held, released only from there, reported isolated
-- only when it is held and once only, and out of service for good. While the platform restores a
-- component (`RecoverComponent`) it is held.
use openprot.Prelude.{◌≡◌, refl, Option, none, some, List, [], ◌∷◌, ◌++◌, ◌==◌, if◌then◌else◌}
use openprot.Sm.Model.{
  ComponentId, Effect, read_firmware, verify_firmware, release_reset, assert_reset,
  recover_component, report_isolated,
}
use openprot.Sm.Rot.{ComponentStatus, is_isolated}

pub data Phase : Type 0 where
  held live out_of_service : Phase

abbrev when_held : Phase → Phase → Option Phase
when_held held p = some p
when_held live p = none
when_held out_of_service p = none

abbrev in_service : Phase → Option Phase
in_service held = some held
in_service live = some held
in_service out_of_service = none

-- What an effect does to the component `id`; `none` is an effect that the promise rules out.
unfoldable pub obey : ComponentId → Effect → Phase → Option Phase
obey id (read_firmware j) p = if j == id then when_held p held else some p
obey id (verify_firmware j) p = if j == id then when_held p held else some p
obey id (release_reset j) p = if j == id then when_held p live else some p
obey id (assert_reset j) p = if j == id then in_service p else some p
obey id (recover_component j _) p = if j == id then in_service p else some p
obey id (report_isolated j) p = if j == id then when_held p out_of_service else some p
obey id _ p = some p

abbrev pub and_then : Option Phase → (Phase → Option Phase) → Option Phase
and_then none f = none
and_then (some p) f = f p

unfoldable pub replay : ComponentId → List Effect → Phase → Option Phase
unfolding obey
replay id [] p = some p
replay id (e ∷ es) p = and_then (obey id e p) (replay id es)

pub replay-append :
    (id : ComponentId) (es fs : List Effect) (p : Phase)
    → replay id (es ++ fs) p ≡ and_then (replay id es p) (replay id fs)
unfolding replay
replay-append id [] fs p = refl
replay-append id (e ∷ es) fs p =
    elim (obey id e p)
      as (λ q.
        and_then q (replay id (es ++ fs)) ≡ and_then (and_then q (replay id es)) (replay id fs)) [
          | none ↦ refl
          | some q ↦ replay-append id es fs q
        ]

-- The machine's record of a component.
abbrev pub phase : Option ComponentStatus → Phase
phase none = held
phase (some s) =
    if is_isolated s.lifecycle then out_of_service else if s.released then live else held
