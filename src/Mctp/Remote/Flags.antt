-- ===== src/Mctp/Remote/Flags.antt =====
-- services/mctp/api/src/wire.rs and services/mctp/server/src/dispatch.rs: the flags of a `Send` request
-- say which of its fields are given.
use openprot.Prelude.{ℕ, ◌≡◌, refl, Bool, true, false, Option, none, some}
use mathlib.Core.Option
use openprot.Mctp.Wire.{ic_flag, has_handle, has_eid, has_tag, no_handle}
use openprot.Mctp.Wire.Requests.{send_flags}
use openprot.Mctp.Server.Dispatch.{has_flag, when_flag}

-- The server reads the optional fields and the integrity check as the client gave them.
pub flags-arrive :
    (handle eid tag : Option ℕ) (ic : Bool)
    → let f = send_flags handle eid tag ic in
      (when_flag f has_handle (Option.get_or handle no_handle) ≡ handle)
      × (when_flag f has_eid (Option.get_or eid 0) ≡ eid)
      × (when_flag f has_tag (Option.get_or tag 0) ≡ tag)
      × (has_flag f ic_flag ≡ ic)
unfolding send_flags
flags-arrive none none none false = (refl, refl, refl, refl)
flags-arrive none none none true = (refl, refl, refl, refl)
flags-arrive none none (some c) false = (refl, refl, refl, refl)
flags-arrive none none (some c) true = (refl, refl, refl, refl)
flags-arrive none (some b) none false = (refl, refl, refl, refl)
flags-arrive none (some b) none true = (refl, refl, refl, refl)
flags-arrive none (some b) (some c) false = (refl, refl, refl, refl)
flags-arrive none (some b) (some c) true = (refl, refl, refl, refl)
flags-arrive (some a) none none false = (refl, refl, refl, refl)
flags-arrive (some a) none none true = (refl, refl, refl, refl)
flags-arrive (some a) none (some c) false = (refl, refl, refl, refl)
flags-arrive (some a) none (some c) true = (refl, refl, refl, refl)
flags-arrive (some a) (some b) none false = (refl, refl, refl, refl)
flags-arrive (some a) (some b) none true = (refl, refl, refl, refl)
flags-arrive (some a) (some b) (some c) false = (refl, refl, refl, refl)
flags-arrive (some a) (some b) (some c) true = (refl, refl, refl, refl)
