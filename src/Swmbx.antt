-- ===== src/Swmbx.antt =====
-- target/ast10x0/pfr/swmbx_ctrl.rs, the software mailbox: a register file shared by two ports, with
-- write protection and notification per node, and FIFOs mapped at addresses. The fixed arrays are
-- functions of the index; the mapped buffer is a function of the offset. The queue of the crate heapless
-- is a list that refuses a value beyond its capacity, which is a parameter.
pub mod Setup
pub mod Access
pub mod Operations
pub mod Invariant
pub mod Reachable
pub mod Protection
pub mod Fifo
pub mod Transfer
pub mod Bitmap
pub mod Ports
mod Examples
use openprot.Prelude.{
  ℕ, ◌+◌, ◌-◌, ◌%◌, Bool, true, false, not, ◌==◌, ltb, leb, if◌then◌else◌, List, [], ◌∷◌, ◌++◌,
  length, Result, ok, err, bit_and, bit_or,
}

abbrev pub dev_count : ℕ
dev_count = 2

abbrev pub node_count : ℕ
node_count = 256

abbrev pub fifo_count : ℕ
fifo_count = 4

abbrev pub fifo_depth : ℕ
fifo_depth = 256

abbrev pub protect_word_count : ℕ
protect_word_count = 8

-- SWMBX_PROTECT, SWMBX_NOTIFY, SWMBX_FIFO and FLAG_MASK, then SWMBX_FIFO_NOTIFY_START and _STOP.
abbrev pub protect : ℕ
protect = 1

abbrev pub notify : ℕ
notify = 2

abbrev pub fifo_flag : ℕ
fifo_flag = 4

abbrev pub flag_mask : ℕ
flag_mask = 7

abbrev pub notify_on_start : ℕ
notify_on_start = 1

abbrev pub notify_on_stop : ℕ
notify_on_stop = 2

pub data SwmbxError : Type 0 where
  invalid_port : SwmbxError
  invalid_address : SwmbxError
  invalid_fifo_index : SwmbxError
  invalid_fifo_depth : SwmbxError
  invalid_flag_mask : SwmbxError
  invalid_protect_range : SwmbxError
  fifo_full : SwmbxError
  fifo_empty : SwmbxError
  fifo_not_mapped : SwmbxError

pub record SwmbxNode : Type 0 where
  pub notify_flag : Bool
  pub enabled_flags : ℕ

pub record SwmbxFifo : Type 0 where
  pub queue : List ℕ
  pub notify_flag : ℕ
  pub notify_start : Bool
  pub fifo_write : Bool
  pub fifo_offset : ℕ
  pub enabled : Bool
  pub msg_index : ℕ
  pub max_msg_count : ℕ

pub record SwmbxCtrl : Type 0 where
  pub mbx_en : ℕ
  pub node : ℕ → ℕ → SwmbxNode
  pub fifo : ℕ → SwmbxFifo
  pub mbx_fifo_execute : ℕ → Bool
  pub mbx_fifo_addr : ℕ → ℕ
  pub mbx_fifo_idx : ℕ → ℕ
  pub buffer : ℕ → ℕ
  pub buffer_size : ℕ

abbrev pub Done : Type 0
Done = SwmbxCtrl × Result {0, 0} SwmbxError Unit

-- `array[i] = a`
abbrev pub put {ℓ} : {A : Type ℓ} → (ℕ → A) → ℕ → A → ℕ → A
put f i a k = if i == k then a else f k

-- `x & mask != 0`, `x |= mask` and `x &= !mask` on bytes.
abbrev pub has : ℕ → ℕ → Bool
has x mask = not (bit_and x mask == 0)

abbrev pub raise : ℕ → ℕ → ℕ
raise x mask = bit_or x mask

abbrev pub lower : ℕ → ℕ → ℕ
lower x mask = bit_and x (255 - mask)

abbrev pub assign : Bool → ℕ → ℕ → ℕ
assign enable x mask = if enable then raise x mask else lower x mask

abbrev pub set_node : ℕ → ℕ → (SwmbxNode → SwmbxNode) → SwmbxCtrl → SwmbxCtrl
set_node port addr f s = record s {
  node = put s.node port (put (s.node port) addr (f (s.node port addr)));
}

abbrev pub set_fifo : ℕ → SwmbxFifo → SwmbxCtrl → SwmbxCtrl
set_fifo i f s = record s { fifo = put s.fifo i f }

-- `self.node[port][addr].notify_flag = true`
abbrev pub latch_notify : ℕ → ℕ → SwmbxCtrl → SwmbxCtrl
latch_notify port addr = set_node port addr (λ n. record n { notify_flag = true })

-- `SwmbxFifo::new`
unfoldable pub new_fifo : SwmbxFifo
new_fifo = record {
  queue = [];
  notify_flag = 0;
  notify_start = false;
  fifo_write = false;
  fifo_offset = 0;
  enabled = false;
  msg_index = 0;
  max_msg_count = fifo_depth;
}

-- `SwmbxFifo::append_write`, on a queue with room for `room` entries.
unfoldable pub append_write : ℕ → SwmbxFifo → ℕ → SwmbxFifo × Result {0, 0} SwmbxError Unit
append_write room f value =
    if f.max_msg_count == 0
    then (f, err invalid_fifo_depth)
    else if ltb (length f.queue) f.max_msg_count
    then if ltb (length f.queue) room
      then (
        record f {
          queue = f.queue ++ value ∷ [];
          msg_index =
              if f.msg_index == f.max_msg_count - 1 then 0 else (f.msg_index + 1) % f.max_msg_count;
        },
        ok tt,
      )
      else (f, err fifo_full)
    else (f, err fifo_full)

abbrev pub dequeue_from : List ℕ → SwmbxFifo → SwmbxFifo × Result {0, 0} SwmbxError ℕ
dequeue_from [] f = (f, err fifo_empty)
dequeue_from (value ∷ rest) f = (record f { queue = rest }, ok value)

-- `SwmbxFifo::dequeue`
unfoldable pub dequeue : SwmbxFifo → SwmbxFifo × Result {0, 0} SwmbxError ℕ
dequeue f = dequeue_from f.queue f

-- `SwmbxFifo::flush`
unfoldable pub flush : SwmbxFifo → SwmbxFifo
flush f = record f { queue = []; msg_index = 0; notify_start = false; fifo_write = false }

-- `read_in_region` and `write_in_region`
unfoldable pub read_in_region : SwmbxCtrl → ℕ → Result {0, 0} SwmbxError ℕ
read_in_region s offset =
    if leb s.buffer_size offset then err invalid_address else ok (s.buffer offset)

unfoldable pub write_in_region : SwmbxCtrl → ℕ → ℕ → Done
write_in_region s offset val =
    if leb s.buffer_size offset
    then (s, err invalid_address)
    else (record s { buffer = put s.buffer offset val }, ok tt)

-- `SwmbxCtrl::new_with_regions`, for what the mapped region holds.
unfoldable pub new_with_regions : ℕ → (ℕ → ℕ) → SwmbxCtrl
new_with_regions buffer_size buffer = record {
  mbx_en = 0;
  node = λ _ _. record { notify_flag = false; enabled_flags = 0 };
  fifo = λ _. new_fifo;
  mbx_fifo_execute = λ _. false;
  mbx_fifo_addr = λ _. 0;
  mbx_fifo_idx = λ _. 0;
  buffer = buffer;
  buffer_size = buffer_size;
}
