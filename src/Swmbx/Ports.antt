-- ===== src/Swmbx/Ports.antt =====
-- target/ast10x0/pfr/swmbx_ctrl.rs: the host behind one port does not reach the other port's transaction,
-- nor its nodes.
use openprot.Prelude.{
  ℕ, ◌≡◌, refl, ◌∙◌, inl, inr, false, Bool-cases, ◌&&◌, ◌==◌, leb, List, [], ◌∷◌, Option, none,
  some, Result, ok, err,
}
use openprot.Swmbx.{
  SwmbxCtrl, SwmbxFifo, SwmbxError, has, notify, write_in_region, append_write, dequeue,
}
use openprot.Swmbx.Access
use openprot.Swmbx.Access.{
  in_fifo, taken, noted, wants_start, appended, may_write, notified, started, wants_stop,
  check_fifo,
}
use openprot.Swmbx.Operations.{Host, host_step, host_run}

-- What belongs to a port is the same in two states.
pub record SamePort (q : ℕ) (s s' : SwmbxCtrl) : Type 0 where
  pub nodes : s'.node q ≡ s.node q
  pub execute : s'.mbx_fifo_execute q ≡ s.mbx_fifo_execute q
  pub addr : s'.mbx_fifo_addr q ≡ s.mbx_fifo_addr q
  pub idx : s'.mbx_fifo_idx q ≡ s.mbx_fifo_idx q

module _ (port q : ℕ) (other : (port == q) ≡ false) where
  unchanged : (s : SwmbxCtrl) → SamePort q s s
  unchanged s = record { nodes = refl; execute = refl; addr = refl; idx = refl }

  notified-SamePort : (s : SwmbxCtrl) (a : ℕ) → SamePort q s (notified s port a)
  notified-SamePort s a =
      elim (Bool-cases (has s.mbx_en notify && has (s.node port a).enabled_flags notify)) [
        | inl y ↦ rw y record { nodes = rw other refl; execute = refl; addr = refl; idx = refl }
        | inr n ↦ rw n (unchanged s)
      ]

  noted-SamePort :
      (s : SwmbxCtrl) (fifo_addr i : ℕ) (f : SwmbxFifo) → SamePort q s (noted s port fifo_addr i f)
  noted-SamePort s fifo_addr i f = elim (Bool-cases (wants_start s port fifo_addr f)) [
    | inl y ↦ rw y record { nodes = rw other refl; execute = refl; addr = refl; idx = refl }
    | inr n ↦ rw n record { nodes = refl; execute = refl; addr = refl; idx = refl }
  ]

  appended-SamePort :
      (s : SwmbxCtrl) (a : ℕ) (x : SwmbxFifo × Result {0, 0} SwmbxError Unit)
      → SamePort q s (appended s port a x).0
  appended-SamePort s a (f, err e) = record {
    nodes = rw other refl;
    execute = refl;
    addr = refl;
    idx = refl;
  }
  appended-SamePort s a (f, ok _) = noted-SamePort s (s.mbx_fifo_addr port) (s.mbx_fifo_idx port) f

  write_in_region-SamePort :
      (s t : SwmbxCtrl) (a val : ℕ) → SamePort q s t → SamePort q s (write_in_region t a val).0
  unfolding write_in_region
  write_in_region-SamePort s t a val same = elim (Bool-cases (leb t.buffer_size a)) [
    | inl y ↦ rw y same
    | inr n ↦
        rw n record { nodes = same.nodes; execute = same.execute; addr = same.addr; idx = same.idx }
  ]

  send_msg-SamePort :
      (room : ℕ) (s : SwmbxCtrl) (a val : ℕ) → SamePort q s (Access.send_msg room s port a val).0
  unfolding Access.send_msg
  send_msg-SamePort room s a val = elim (Bool-cases (leb 2 port)) [
    | inl bad ↦ rw bad (unchanged s)
    | inr good ↦ elim (Bool-cases (in_fifo s port)) [
      | inl y ↦
          rw (good, y)
            (appended-SamePort s a (append_write room (s.fifo (s.mbx_fifo_idx port)) val))
      | inr flat ↦ elim (Bool-cases (may_write s port a)) [
        | inl y ↦
            rw (good, flat, y)
              (write_in_region-SamePort s (notified s port a) a val (notified-SamePort s a))
        | inr n ↦ rw (good, flat, n) (notified-SamePort s a)
      ]
    ]
  ]

  taken-SamePort :
      (s : SwmbxCtrl) (i : ℕ) (x : SwmbxFifo × Result {0, 0} SwmbxError ℕ)
      → SamePort q s (taken s i x).0
  taken-SamePort s i (f, r) = record { nodes = refl; execute = refl; addr = refl; idx = refl }

  get_msg-SamePort : (s : SwmbxCtrl) (a : ℕ) → SamePort q s (Access.get_msg s port a).0
  unfolding Access.get_msg
  get_msg-SamePort s a = elim (Bool-cases (leb 2 port)) [
    | inl bad ↦ rw bad (unchanged s)
    | inr good ↦ elim (Bool-cases (in_fifo s port)) [
      | inl y ↦
          rw (good, y)
            (taken-SamePort s (s.mbx_fifo_idx port) (dequeue (s.fifo (s.mbx_fifo_idx port))))
      | inr flat ↦ rw (good, flat) (unchanged s)
    ]
  ]

  started-SamePort : (s : SwmbxCtrl) (a : ℕ) (o : Option ℕ) → SamePort q s (started s port a o)
  started-SamePort s a none = record {
    nodes = refl;
    execute = rw other refl;
    addr = refl;
    idx = refl;
  }
  started-SamePort s a (some i) = record {
    nodes = refl;
    execute = rw other refl;
    addr = rw other refl;
    idx = rw other refl;
  }

  send_start-SamePort : (s : SwmbxCtrl) (a : ℕ) → SamePort q s (Access.send_start s port a).0
  unfolding Access.send_start
  send_start-SamePort s a = elim (Bool-cases (leb 2 port)) [
    | inl bad ↦ rw bad (unchanged s)
    | inr good ↦ rw good (started-SamePort s a (check_fifo s a))
  ]

  send_stop-SamePort : (s : SwmbxCtrl) → SamePort q s (Access.send_stop s port).0
  unfolding Access.send_stop
  send_stop-SamePort s = elim (Bool-cases (leb 2 port)) [
    | inl bad ↦ rw bad (unchanged s)
    | inr good ↦ elim (Bool-cases (s.mbx_fifo_execute port)) [
      | inr idle ↦ rw (good, idle) (unchanged s)
      | inl busy ↦
          let wants = wants_stop s port (s.mbx_fifo_addr port) (s.fifo (s.mbx_fifo_idx port)) in
          elim (Bool-cases wants) [
            | inl y ↦
                rw (good, busy, y)
                  record {
                    nodes = rw other refl;
                    execute = rw other refl;
                    addr = rw other refl;
                    idx = rw other refl;
                  }
            | inr n ↦
                rw (good, busy, n)
                  record {
                    nodes = refl;
                    execute = rw other refl;
                    addr = rw other refl;
                    idx = rw other refl;
                  }
          ]
    ]
  ]

  host_step-SamePort :
      (room : ℕ) (access : Host) (s : SwmbxCtrl) → SamePort q s (host_step room port access s)
  host_step-SamePort room (Host.start a) s = send_start-SamePort s a
  host_step-SamePort room (Host.write a val) s = send_msg-SamePort room s a val
  host_step-SamePort room (Host.read a) s = get_msg-SamePort s a
  host_step-SamePort room Host.stop s = send_stop-SamePort s

  -- Whatever the host behind one port does, and for however long, the nodes of another port, with their
  -- switches and pending notifications, and its transaction are as they were.
  pub host_run-SamePort :
      (room : ℕ) (accesses : List Host) (s : SwmbxCtrl)
      → SamePort q s (host_run room port accesses s)
  unfolding host_run
  host_run-SamePort room [] s = unchanged s
  host_run-SamePort room (access ∷ rest) s =
      let first = host_step-SamePort room access s in
      let later = host_run-SamePort room rest (host_step room port access s) in
      record {
        nodes = later.nodes ∙ first.nodes;
        execute = later.execute ∙ first.execute;
        addr = later.addr ∙ first.addr;
        idx = later.idx ∙ first.idx;
      }
