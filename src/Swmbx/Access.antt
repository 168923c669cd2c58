-- ===== src/Swmbx/Access.antt =====
-- target/ast10x0/pfr/swmbx_ctrl.rs: the transactions of a port, and the software's own access.
use openprot.Prelude.{
  ℕ, Bool, true, false, not, ◌&&◌, ◌||◌, ◌==◌, leb, if◌then◌else◌, Option, none, some, List, [],
  ◌∷◌, Result, ok, err,
}
use openprot.Swmbx.{
  dev_count, protect, notify, fifo_flag, notify_on_start, notify_on_stop, SwmbxError, invalid_port,
  fifo_not_mapped, SwmbxFifo, SwmbxCtrl, Done, put, has, set_fifo, latch_notify, append_write,
  dequeue, read_in_region, write_in_region,
}

abbrev pub Read : Type 0
Read = SwmbxCtrl × Result {0, 0} SwmbxError ℕ

-- `check_fifo`: the position of the first FIFO that is mapped at the address, of those listed.
unfoldable pub position_of : List ℕ → (ℕ → SwmbxFifo) → ℕ → Option ℕ
position_of [] fifo addr = none
position_of (i ∷ is) fifo addr =
    let later = position_of is fifo addr in
    if (fifo i).fifo_offset == addr && (fifo i).enabled then some i else later

unfoldable pub check_fifo : SwmbxCtrl → ℕ → Option ℕ
check_fifo s addr = position_of (0 ∷ 1 ∷ 2 ∷ 3 ∷ []) s.fifo addr

-- `self.mbx_fifo_execute[port] && (self.mbx_en & SWMBX_FIFO) != 0`
abbrev pub in_fifo : SwmbxCtrl → ℕ → Bool
in_fifo s port = s.mbx_fifo_execute port && has s.mbx_en fifo_flag

-- A FIFO put back after `dequeue`.
abbrev pub taken : SwmbxCtrl → ℕ → SwmbxFifo × Result {0, 0} SwmbxError ℕ → Read
taken s i (f, r) = (set_fifo i f s, r)

-- `get_msg`
unfoldable pub get_msg : SwmbxCtrl → ℕ → ℕ → Read
get_msg s port addr =
    if leb dev_count port
    then (s, err invalid_port)
    else if in_fifo s port
    then taken s (s.mbx_fifo_idx port) (dequeue (s.fifo (s.mbx_fifo_idx port)))
    else (s, read_in_region s addr)

-- A notification when a write starts a transaction.
abbrev pub wants_start : SwmbxCtrl → ℕ → ℕ → SwmbxFifo → Bool
wants_start s port fifo_addr f =
    has s.mbx_en notify
    && has f.notify_flag notify_on_start
    && not f.notify_start
    && has (s.node port fifo_addr).enabled_flags notify

-- What a successful append does besides.
abbrev pub noted : SwmbxCtrl → ℕ → ℕ → ℕ → SwmbxFifo → SwmbxCtrl
noted s port fifo_addr i f =
    if wants_start s port fifo_addr f
    then set_fifo i (record f { notify_start = true; fifo_write = true })
        (latch_notify port fifo_addr s)
    else set_fifo i (record f { fifo_write = true }) s

abbrev pub appended : SwmbxCtrl → ℕ → ℕ → SwmbxFifo × Result {0, 0} SwmbxError Unit → Done
appended s port addr (f, err e) =
    (latch_notify port addr (set_fifo (s.mbx_fifo_idx port) f s), err e)
appended s port addr (f, ok _) =
    (noted s port (s.mbx_fifo_addr port) (s.mbx_fifo_idx port) f, ok tt)

-- The flat-buffer branch of `send_msg`: protection, notification, then the write.
abbrev pub may_write : SwmbxCtrl → ℕ → ℕ → Bool
may_write s port addr =
    not (has (s.node port addr).enabled_flags protect) || not (has s.mbx_en protect)

abbrev pub notified : SwmbxCtrl → ℕ → ℕ → SwmbxCtrl
notified s port addr =
    if has s.mbx_en notify && has (s.node port addr).enabled_flags notify
    then latch_notify port addr s
    else s

-- `send_msg`
unfoldable pub send_msg : ℕ → SwmbxCtrl → ℕ → ℕ → ℕ → Done
send_msg room s port addr val =
    if leb dev_count port
    then (s, err invalid_port)
    else if in_fifo s port
    then appended s port addr (append_write room (s.fifo (s.mbx_fifo_idx port)) val)
    else if may_write s port addr
    then write_in_region (notified s port addr) addr val
    else (notified s port addr, ok tt)

abbrev pub started : SwmbxCtrl → ℕ → ℕ → Option ℕ → SwmbxCtrl
started s port addr none = record s { mbx_fifo_execute = put s.mbx_fifo_execute port false }
started s port addr (some fifo_index) = record s {
  mbx_fifo_execute = put s.mbx_fifo_execute port true;
  mbx_fifo_addr = put s.mbx_fifo_addr port addr;
  mbx_fifo_idx = put s.mbx_fifo_idx port fifo_index;
}

-- `send_start`
unfoldable pub send_start : SwmbxCtrl → ℕ → ℕ → Done
send_start s port addr =
    if leb dev_count port
    then (s, err invalid_port)
    else (started s port addr (check_fifo s addr), ok tt)

-- A notification when a transaction with a write stops.
abbrev pub wants_stop : SwmbxCtrl → ℕ → ℕ → SwmbxFifo → Bool
wants_stop s port fifo_addr f =
    has s.mbx_en notify
    && has f.notify_flag notify_on_stop
    && f.fifo_write
    && has (s.node port fifo_addr).enabled_flags notify

abbrev pub stopped : SwmbxCtrl → ℕ → ℕ → ℕ → SwmbxCtrl
stopped s port fifo_addr i =
    let f = s.fifo i in
    let s' = if wants_stop s port fifo_addr f then latch_notify port fifo_addr s else s in
    record (set_fifo i (record f { notify_start = false; fifo_write = false }) s') {
      mbx_fifo_execute = put s.mbx_fifo_execute port false;
      mbx_fifo_addr = put s.mbx_fifo_addr port 0;
      mbx_fifo_idx = put s.mbx_fifo_idx port 0;
    }

-- `send_stop`
unfoldable pub send_stop : SwmbxCtrl → ℕ → Done
send_stop s port =
    if leb dev_count port
    then (s, err invalid_port)
    else if s.mbx_fifo_execute port
    then (stopped s port (s.mbx_fifo_addr port) (s.mbx_fifo_idx port), ok tt)
    else (s, ok tt)

-- The FIFO branch of `swmbx_write`.
abbrev pub stored : SwmbxCtrl → ℕ → SwmbxFifo × Result {0, 0} SwmbxError Unit → Done
stored s i (f, r) = (set_fifo i f s, r)

-- `swmbx_write`
unfoldable pub swmbx_write : ℕ → SwmbxCtrl → Bool → ℕ → ℕ → Done
swmbx_write room s true addr val = elim (check_fifo s addr) [
  | none ↦ (s, err fifo_not_mapped)
  | some i ↦ stored s i (append_write room (s.fifo i) val)
]
swmbx_write room s false addr val = write_in_region s addr val

-- `swmbx_read`
unfoldable pub swmbx_read : SwmbxCtrl → Bool → ℕ → Read
swmbx_read s true addr = elim (check_fifo s addr) [
  | none ↦ (s, err fifo_not_mapped)
  | some i ↦ taken s i (dequeue (s.fifo i))
]
swmbx_read s false addr = (s, read_in_region s addr)
