-- ===== src/Driver/Verdicts.antt =====
-- Verdicts and floors (services/orchestrator/driver/src/driver.rs).
use openprot.Prelude.{
  ℕ, zero, suc, ◌<◌, ◌≡◌, refl, sym, ap, subst, ◌⊎◌, inl, inr, Bool, true, Option, none, some,
  some-injective, List, [], ◌∷◌, Result, ok, err, get_elem?, length, is_some_of, if◌then◌else◌,
  arith, Bool-cases, ==_iff,
}
use openprot.Sm.Model.{
  ComponentId, Event, verification_passed, verification_failed, verify_firmware, commit_svn_floor,
}
use openprot.Driver.Wiring.{Svn, Verdict, authenticated, rejected, Capabilities, erot}
use openprot.Driver.{
  not_staged, write_image, settle_verdict, Fault, EffectError, verify_source, with_event,
  DriverError, effect_error, set, PlatformDriver, Executed, judge, verify_firmware_of, commit_floor,
  execute,
}

pub get_elem?-set :
    {A : Type 0} → (xs : List A) (i : ℕ) (a : A) → i < length xs → get_elem? (set xs i a) i ≡ some a
get_elem?-set [] i a h = absurd (omega arith)
get_elem?-set (x ∷ xs) zero a h = refl
get_elem?-set (x ∷ xs) (suc i) a h = get_elem?-set xs i a (omega arith)

abbrev DriverResult : Type 0
DriverResult = Result {0, 0} DriverError Event

abbrev EffectResult : Type 0
EffectResult = Result {0, 0} EffectError (Option Event)

ok_injective : {a b : Event} → ◌≡◌ {A = DriverResult} (ok a) (ok b) → a ≡ b
ok_injective q = cc

result_injective : {a b : Option Event} → ◌≡◌ {A = EffectResult} (ok a) (ok b) → a ≡ b
result_injective q = cc

module _ (B : Capabilities) where
  -- What a verdict leaves on record.
  abbrev pub Records : ComponentId → Event → PlatformDriver B → Type 0
  Records id event driver =
      ((event ≡ verification_passed id)
        × (svn : Svn) × (get_elem? driver.verified_svn id ≡ some (some svn)))
      ⊎ ((event ≡ verification_failed id) × (get_elem? driver.verified_svn id ≡ some none))

  -- A result that returns an event only for the staged component, and with a record of the verdict.
  abbrev IsVerdict : ComponentId → PlatformDriver B → Executed B Event → Type 0
  IsVerdict id driver res =
      (event : Event) → res.1 ≡ ok event → (driver.staged ≡ some id) × Records id event res.0

  staged_is :
      (id : ComponentId) (staged : Option ComponentId)
      → is_some_of id staged ≡ true
      → staged ≡ some id
  staged_is id none h = cc
  staged_is id (some j) h = ap some ((==_iff j id).0 h)

  judge-IsVerdict :
      (id : ComponentId) (v : Verdict) (before driver : PlatformDriver B)
      → before.staged ≡ some id
      → id < length driver.verified_svn
      → IsVerdict id before (judge B id v driver)
  unfolding judge
  judge-IsVerdict id (authenticated svn) before driver s h event e =
      (s, inl (ok_injective (sym e), svn, get_elem?-set driver.verified_svn id (some svn) h))
  judge-IsVerdict id rejected before driver s h event e =
      (s, inr (ok_injective (sym e), get_elem?-set driver.verified_svn id none h))

  verdict-IsVerdict :
      (id : ComponentId) (answer : B.Verifier × B.Image × Result {0, 0} Fault Verdict)
      (driver : PlatformDriver B)
      → driver.staged ≡ some id
      → id < length driver.verified_svn
      → IsVerdict id driver (settle_verdict B id answer driver)
  verdict-IsVerdict id (verifier, image, ok v) driver s h event e =
      judge-IsVerdict id v driver (write_image B id verifier image driver) s h event e
  verdict-IsVerdict id (verifier, image, err f) driver s h event e = cc

  source-IsVerdict :
      (id : ComponentId) (image : Option B.Image) (driver : PlatformDriver B)
      → id < length driver.verified_svn
      → IsVerdict id driver (verify_source B id image driver)
  source-IsVerdict id none driver h event e = cc
  source-IsVerdict id (some image) driver h event e =
      elim (Bool-cases (is_some_of id driver.staged)) [
        | inl y ↦
            let v =
              verdict-IsVerdict id (B.verify id driver.board.verifier image) driver
                (staged_is id driver.staged y) h in
            (subst (λ b. IsVerdict id driver (verdict_if b)) (sym y) v) event e
        | inr n ↦ (subst (λ b. IsVerdict id driver (verdict_if b)) (sym n) (λ event e. cc)) event e
      ]
    where
      verdict_if : Bool → Executed B Event
      verdict_if b =
          if b
          then settle_verdict B id (B.verify id driver.board.verifier image) driver
          else (driver, err not_staged)

  with_event-ok :
      (res : Executed B Event) (event : Event)
      → (with_event B res).1 ≡ ok (some event)
      → (res.1 ≡ ok event) × ((with_event B res).0 ≡ res.0)
  with_event-ok (driver, ok e) event h = (ap ok (some-injective _ _ (result_injective h)), refl)
  with_event-ok (driver, err e) event h = cc

  -- For a driver with a place for the SVN of the component: after a verification that rejected the
  -- image, a commit for a component whose floor the eRoT holds fails and changes nothing, whatever
  -- had been verified before.
  pub rejected_image_never_commits :
      (id : ComponentId) (driver : PlatformDriver B) (floor : B.SvnFloor)
      → id < length driver.verified_svn
      → (execute B (verify_firmware id) driver).1 ≡ ok (some (verification_failed id))
      → get_elem? (execute B (verify_firmware id) driver).0.board.svn_floors id ≡ some (erot floor)
      → execute B (commit_svn_floor id) (execute B (verify_firmware id) driver).0
        ≡ ((execute B (verify_firmware id) driver).0, err effect_error)
  unfolding execute verify_firmware_of commit_floor
  rejected_image_never_commits id driver floor h e f =
      let w = with_event-ok (verify_firmware_of B id driver) (verification_failed id) e in
      let v =
        source-IsVerdict id (get_elem? driver.board.images id) driver h (verification_failed id)
          w.0 in
      elim v.1 [
        | inl (p, svn, g) ↦ absurd (failed_is_not_passed p)
        | inr (p, g) ↦ rw (commit_floor, f, ap (λ d. get_elem? d.verified_svn id) w.1, g) refl
      ]
    where
      failed_is_not_passed : {i j : ComponentId} → verification_failed i ≡ verification_passed j → ⊥
      failed_is_not_passed q = cc
