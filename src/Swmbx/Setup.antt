-- ===== src/Swmbx/Setup.antt =====
-- target/ast10x0/pfr/swmbx_ctrl.rs: the operations that configure the mailbox.
use openprot.Prelude.{
  ℕ, zero, suc, ◌+◌, ◌*◌, ◌/◌, ◌^◌, Bool, true, false, ◌&&◌, ◌||◌, ◌==◌, ltb, leb, if◌then◌else◌,
  Option, none, some, List, [], ◌∷◌, length, ok, err, bit_and,
}
use openprot.Swmbx.{
  dev_count, node_count, fifo_count, fifo_depth, protect_word_count, protect, notify, flag_mask,
  invalid_port, invalid_address, invalid_fifo_index, invalid_fifo_depth, invalid_flag_mask,
  invalid_protect_range, SwmbxNode, SwmbxFifo, SwmbxCtrl, Done, put, has, assign, set_node,
  set_fifo, flush,
}

abbrev pub enable_node : Bool → ℕ → SwmbxNode → SwmbxNode
enable_node enable mask n = record n { enabled_flags = assign enable n.enabled_flags mask }

-- `update_notify`
unfoldable pub update_notify : SwmbxCtrl → ℕ → ℕ → Bool → Done
update_notify s port addr enable =
    if leb dev_count port
    then (s, err invalid_port)
    else if leb node_count addr
    then (s, err invalid_address)
    else (set_node port addr (enable_node enable notify) s, ok tt)

-- `update_protect`
unfoldable pub update_protect : SwmbxCtrl → ℕ → ℕ → Bool → Done
update_protect s port addr enable =
    if leb dev_count port
    then (s, err invalid_port)
    else if leb node_count addr
    then (s, err invalid_address)
    else (set_node port addr (enable_node enable protect) s, ok tt)

-- The two branches of `update_fifo` on the FIFO itself.
abbrev pub bound_fifo : ℕ → ℕ → ℕ → Bool → SwmbxFifo → SwmbxFifo
bound_fifo addr depth mask true f = record f {
  enabled = true;
  fifo_offset = addr;
  max_msg_count = depth;
  notify_flag = mask;
  msg_index = 0;
  notify_start = false;
  fifo_write = false;
  queue = [];
}
bound_fifo addr depth mask false f = record f {
  enabled = false;
  notify_start = false;
  fifo_write = false;
  queue = [];
}

-- `update_fifo`
unfoldable pub update_fifo : SwmbxCtrl → ℕ → ℕ → ℕ → ℕ → Bool → Done
update_fifo s index addr depth mask enable =
    if leb fifo_count index
    then (s, err invalid_fifo_index)
    else if enable && (depth == 0 || ltb fifo_depth depth)
    then (s, err invalid_fifo_depth)
    else if leb node_count addr
    then (s, err invalid_address)
    else (set_fifo index (bound_fifo addr depth mask enable (s.fifo index)) s, ok tt)

-- `flush_fifo`
unfoldable pub flush_fifo : SwmbxCtrl → ℕ → Done
flush_fifo s index =
    if leb fifo_count index
    then (s, err invalid_fifo_index)
    else (set_fifo index (flush (s.fifo index)) s, ok tt)

-- `enable_behavior`
unfoldable pub enable_behavior : SwmbxCtrl → ℕ → Bool → Done
enable_behavior s flag enable =
    if bit_and flag flag_mask == 0
    then (s, err invalid_flag_mask)
    else (record s { mbx_en = assign enable s.mbx_en flag }, ok tt)

-- `(val >> bit) & 1 != 0`
abbrev pub bit_of : ℕ → ℕ → Bool
bit_of val bit = has (val / 2 ^ bit) 1

-- The inner loop of `apply_protect`: `left` bits from `bit` on, up to the first address out of range.
unfoldable pub apply_bits : ℕ → ℕ → ℕ → ℕ → (ℕ → SwmbxNode) → ℕ → SwmbxNode
apply_bits base val bit zero nodes = nodes
apply_bits base val bit (suc left) nodes =
    let addr = base + bit in
    let rest =
      apply_bits base val (bit + 1) left
        (put nodes addr (enable_node (bit_of val bit) protect (nodes addr))) in
    if leb node_count addr then nodes else rest

-- The outer loop, over the words from the `i`-th on.
unfoldable pub apply_words : ℕ → List ℕ → ℕ → (ℕ → SwmbxNode) → ℕ → SwmbxNode
apply_words start_idx [] i nodes = nodes
apply_words start_idx (val ∷ rest) i nodes =
    apply_words start_idx rest (i + 1) (apply_bits ((start_idx + i) * 32) val 0 32 nodes)

-- `start_idx.checked_add(bitmap.len())`, on 32-bit words of memory.
abbrev pub checked_add : ℕ → ℕ → Option ℕ
checked_add a b = if ltb (a + b) (2 ^ 32) then some (a + b) else none

abbrev pub in_range : Option ℕ → Bool
in_range none = false
in_range (some end) = leb end protect_word_count

-- `apply_protect`
unfoldable pub apply_protect : SwmbxCtrl → ℕ → List ℕ → ℕ → Done
apply_protect s port bitmap start_idx =
    if leb dev_count port
    then (s, err invalid_port)
    else if in_range (checked_add start_idx (length bitmap))
    then (record s { node = put s.node port (apply_words start_idx bitmap 0 (s.node port)) }, ok tt)
    else (s, err invalid_protect_range)
