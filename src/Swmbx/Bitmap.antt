-- ===== src/Swmbx/Bitmap.antt =====
-- target/ast10x0/pfr/swmbx_ctrl.rs: `apply_protect` sets the protection of every node that its bitmap
-- covers, and of no other.
use openprot.Prelude.{
  ℕ, ◌+◌, ◌/◌, ◌%◌, Bool, ◌==◌, if◌then◌else◌, List, [], ◌∷◌, Option, none, some,
}
use openprot.Swmbx.{SwmbxNode, protect}
use openprot.Swmbx.Setup.{enable_node, bit_of}

-- The bit of a bitmap that stands for an address, none if the bitmap does not cover it.
abbrev pub bit_at : List ℕ → ℕ → ℕ → Option Bool
bit_at [] start_idx a = none
bit_at (val ∷ rest) start_idx a =
    let later = bit_at rest (start_idx + 1) a in
    if a / 32 == start_idx then some (bit_of val (a % 32)) else later

abbrev pub protected_by : Option Bool → SwmbxNode → SwmbxNode
protected_by none n = n
protected_by (some b) n = enable_node b protect n
