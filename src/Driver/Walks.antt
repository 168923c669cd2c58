-- ===== src/Driver/Walks.antt =====
-- The boot walks (services/orchestrator/driver/src/driver.rs, `poll_boot_walks`).
pub mod Polling
use openprot.Prelude.{
  ℕ, ◌<◌, ◌≤◌, ◌≡◌, ◌≢◌, refl, sym, ap, ◌∙◌, subst, inl, inr, true, false, Option, none, some,
  some-injective, Result, ok, err, get_elem?, length, arith, Option-cases, length-modify,
}
use native.Mathlib.Nat.{mod-eq_of_lt}
use openprot.Sm.Model.{ComponentId, Event, component_id, assert_reset}
use openprot.Driver.Wiring.{Fault, Capabilities}
use openprot.Driver.{
  DriverError, unknown_component, boot_control_fault, no_event, Executed, set, PlatformDriver,
  poll_boot_walks, hold, execute,
}
use openprot.Driver.Verdicts.{get_elem?-set}
use openprot.Driver.Walks.Polling.{poll_boot_walks-Polls}

-- A component that is held in reset.
module _ (B : Capabilities) where
  -- A component that the driver holds in reset: `AssertReset` was carried out, and it is not watched.
  hold-watching :
      (id : ComponentId) (driver : PlatformDriver B)
      → id < length driver.watching
      → (hold B id driver).1 ≡ ok tt
      → (get_elem? (hold B id driver).0.watching id ≡ some false)
        × (length (hold B id driver).0.watching ≡ length driver.watching)
  unfolding hold
  hold-watching id driver h e = elim (Option-cases (get_elem? driver.board.boot_controls id)) [
    | inl c ↦ absurd (refused (sym (ap (λ o. (held_of o).1) c) ∙ e))
    | inr (control, c) ↦ by_answer control c (B.hold_in_reset control).1 refl
  ]
    where
      held_with : B.BootControl → Result {0, 0} Fault Unit → Executed B Unit
      held_with control r = elim r [
        | err _ ↦ (
          record driver {
            board = record driver.board {
              boot_controls = set driver.board.boot_controls id control;
            };
          },
          err boot_control_fault,
        )
        | ok _ ↦ (
          record driver {
            board = record driver.board {
              boot_controls = set driver.board.boot_controls id control;
            };
            watching = set driver.watching id false;
          },
          ok tt,
        )
      ]

      held_of : Option B.BootControl → Executed B Unit
      held_of none = (driver, err unknown_component)
      held_of (some control) = held_with (B.hold_in_reset control).0 (B.hold_in_reset control).1

      IsHeld : Executed B Unit → Type 0
      IsHeld res =
          res.1 ≡ ok tt
          → (get_elem? res.0.watching id ≡ some false)
            × (length res.0.watching ≡ length driver.watching)

      refused : ◌≡◌ {A = Result {0, 0} DriverError Unit} (err unknown_component) (ok tt) → ⊥
      refused q = cc

      answered :
          (control : B.BootControl) (r : Result {0, 0} Fault Unit) → IsHeld (held_with control r)
      answered control (ok tt) k =
          (get_elem?-set driver.watching id false h, length-modify driver.watching id (λ _. false))
      answered control (err f) k = cc

      by_answer :
          (control : B.BootControl)
          → get_elem? driver.board.boot_controls id ≡ some control
          → (r : Result {0, 0} Fault Unit) → (B.hold_in_reset control).1 ≡ r
          → (get_elem? (hold B id driver).0.watching id ≡ some false)
            × (length (hold B id driver).0.watching ≡ length driver.watching)
      by_answer control c r q =
          subst IsHeld (sym (ap held_of c ∙ ap (held_with (B.hold_in_reset control).0) q))
            (answered (B.hold_in_reset control).0 r) e

  no_event-ok :
      (res : Executed B Unit)
      → (no_event B res).1 ≡ ok none
      → (res.1 ≡ ok tt) × ((no_event B res).0 ≡ res.0)
  no_event-ok (driver, ok tt) h = (refl, refl)
  no_event-ok (driver, err e) h = cc

  -- For up to 256 components: once the driver has carried out `AssertReset` for a component, the
  -- next poll of the boot walks reports nothing about it.
  pub held_component_is_silent :
      (now : ℕ) (id : ComponentId) (driver : PlatformDriver B) (event : Event)
      → id < length driver.watching
      → length driver.watching ≤ 256
      → (execute B (assert_reset id) driver).1 ≡ ok none
      → (poll_boot_walks B now (execute B (assert_reset id) driver).0).1.event ≡ some event
      → component_id event ≢ some id
  unfolding execute
  held_component_is_silent now id driver event h small e p about =
      let held = no_event-ok (hold B id driver) e in
      let silent =
        subst
          (λ d.
            (get_elem? d.watching id ≡ some false) × (length d.watching ≡ length driver.watching))
          (sym held.1) (hold-watching id driver h held.0) in
      let driver' = (execute B (assert_reset id) driver).0 in
      elim (poll_boot_walks-Polls B now driver').1 [
        | inl (n, w) ↦ absurd (none_is_not_some (sym n ∙ p))
        | inr (k, event', e', le, lt, g, c, w) ↦
            let same =
              some-injective _ _
                (sym c ∙ ap component_id (some-injective _ _ (sym e' ∙ p)) ∙ about) in
            let k_is : k ≡ id =
              sym (mod-eq_of_lt {n = k} {m = 256} (omega (arith, silent.1))) ∙ same in
            absurd (
              false_is_not_true (
                some-injective _ _ (sym silent.0 ∙ ap (get_elem? driver'.watching) (sym k_is) ∙ g)))
      ]
    where
      none_is_not_some : none ≡ some event → ⊥
      none_is_not_some q = cc

      false_is_not_true : false ≡ true → ⊥
      false_is_not_true q = cc
