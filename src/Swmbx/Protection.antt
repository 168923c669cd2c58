-- ===== src/Swmbx/Protection.antt =====
-- target/ast10x0/pfr/swmbx_ctrl.rs: what the host behind a port cannot do.
use openprot.Prelude.{
  ℕ, ◌≡◌, refl, ap, ◌∙◌, inl, inr, true, false, Bool-cases, ◌&&◌, ◌==◌, ==_iff, leb, List, [], ◌∷◌,
  Option, none, some, Result, ok, err,
}
use openprot.Swmbx.{
  SwmbxCtrl, SwmbxFifo, SwmbxError, has, protect, notify, latch_notify, append_write, dequeue,
  write_in_region,
}
use openprot.Swmbx.Access
use openprot.Swmbx.Access.{
  in_fifo, taken, noted, wants_start, appended, may_write, notified, started, wants_stop,
  check_fifo,
}
use openprot.Swmbx.Operations.{Host, host_step, host_run}

-- From one state to another the global switches, the switches of a node, and the byte behind it are the
-- same.
pub record Keeps (port addr : ℕ) (s s' : SwmbxCtrl) : Type 0 where
  pub switches : s'.mbx_en ≡ s.mbx_en
  pub flags : (s'.node port addr).enabled_flags ≡ (s.node port addr).enabled_flags
  pub byte : s'.buffer addr ≡ s.buffer addr

module _ (port addr : ℕ) where
  unchanged : (s : SwmbxCtrl) → Keeps port addr s s
  unchanged s = record { switches = refl; flags = refl; byte = refl }

  flags-latch_notify :
      (p a : ℕ) (s : SwmbxCtrl)
      → ((latch_notify p a s).node port addr).enabled_flags ≡ (s.node port addr).enabled_flags
  flags-latch_notify p a s = elim (Bool-cases (p == port)) [
    | inr n ↦ rw n refl
    | inl y ↦ elim (Bool-cases (a == addr)) [
      | inr n ↦ rw (y, n) (ap (λ k. (s.node k addr).enabled_flags) ((==_iff p port).0 y))
      | inl z ↦
          rw (y, z)
            (ap (λ k. (s.node k a).enabled_flags) ((==_iff p port).0 y)
              ∙ ap (λ k. (s.node port k).enabled_flags) ((==_iff a addr).0 z))
    ]
  ]

  latch_notify-Keeps : (p a : ℕ) (s : SwmbxCtrl) → Keeps port addr s (latch_notify p a s)
  latch_notify-Keeps p a s = record {
    switches = refl;
    flags = flags-latch_notify p a s;
    byte = refl;
  }

  notified-Keeps : (a : ℕ) (s : SwmbxCtrl) → Keeps port addr s (notified s port a)
  notified-Keeps a s =
      elim (Bool-cases (has s.mbx_en notify && has (s.node port a).enabled_flags notify)) [
        | inl y ↦ rw y (latch_notify-Keeps port a s)
        | inr n ↦ rw n (unchanged s)
      ]

  noted-Keeps :
      (s : SwmbxCtrl) (fifo_addr i : ℕ) (f : SwmbxFifo)
      → Keeps port addr s (noted s port fifo_addr i f)
  noted-Keeps s fifo_addr i f = elim (Bool-cases (wants_start s port fifo_addr f)) [
    | inl y ↦
        rw y record { switches = refl; flags = flags-latch_notify port fifo_addr s; byte = refl }
    | inr n ↦ rw n record { switches = refl; flags = refl; byte = refl }
  ]

  appended-Keeps :
      (s : SwmbxCtrl) (a : ℕ) (x : SwmbxFifo × Result {0, 0} SwmbxError Unit)
      → Keeps port addr s (appended s port a x).0
  appended-Keeps s a (f, err e) = record {
    switches = refl;
    flags = flags-latch_notify port a s;
    byte = refl;
  }
  appended-Keeps s a (f, ok _) = noted-Keeps s (s.mbx_fifo_addr port) (s.mbx_fifo_idx port) f

  -- A write elsewhere.
  write_in_region-Keeps :
      (s t : SwmbxCtrl) (a val : ℕ)
      → (a == addr) ≡ false
      → Keeps port addr s t
      → Keeps port addr s (write_in_region t a val).0
  unfolding write_in_region
  write_in_region-Keeps s t a val other kept = elim (Bool-cases (leb t.buffer_size a)) [
    | inl y ↦ rw y kept
    | inr n ↦
        rw n record { switches = kept.switches; flags = kept.flags; byte = rw other kept.byte }
  ]

  -- A protected node.
  may_not_write :
      (s : SwmbxCtrl)
      → has (s.node port addr).enabled_flags protect ≡ true
      → has s.mbx_en protect ≡ true
      → may_write s port addr ≡ false
  may_not_write s node global = rw (node, global) refl

  send_msg-Keeps :
      (room : ℕ) (s : SwmbxCtrl) (a val : ℕ)
      → has (s.node port addr).enabled_flags protect ≡ true
      → has s.mbx_en protect ≡ true
      → Keeps port addr s (Access.send_msg room s port a val).0
  unfolding Access.send_msg
  send_msg-Keeps room s a val node global = elim (Bool-cases (leb 2 port)) [
    | inl bad ↦ rw bad (unchanged s)
    | inr good ↦ elim (Bool-cases (in_fifo s port)) [
      | inl y ↦
          rw (good, y) (appended-Keeps s a (append_write room (s.fifo (s.mbx_fifo_idx port)) val))
      | inr flat ↦ elim (Bool-cases (a == addr)) [
        | inl here ↦
            let shut : may_write s port a ≡ false =
              ap (may_write s port) ((==_iff a addr).0 here) ∙ may_not_write s node global in
            rw (good, flat, shut) (notified-Keeps a s)
        | inr elsewhere ↦ elim (Bool-cases (may_write s port a)) [
          | inl y ↦
              rw (good, flat, y)
                (write_in_region-Keeps s (notified s port a) a val elsewhere (notified-Keeps a s))
          | inr n ↦ rw (good, flat, n) (notified-Keeps a s)
        ]
      ]
    ]
  ]

  taken-Keeps :
      (s : SwmbxCtrl) (i : ℕ) (x : SwmbxFifo × Result {0, 0} SwmbxError ℕ)
      → Keeps port addr s (taken s i x).0
  taken-Keeps s i (f, r) = record { switches = refl; flags = refl; byte = refl }

  get_msg-Keeps : (s : SwmbxCtrl) (a : ℕ) → Keeps port addr s (Access.get_msg s port a).0
  unfolding Access.get_msg
  get_msg-Keeps s a = elim (Bool-cases (leb 2 port)) [
    | inl bad ↦ rw bad (unchanged s)
    | inr good ↦ elim (Bool-cases (in_fifo s port)) [
      | inl y ↦
          rw (good, y)
            (taken-Keeps s (s.mbx_fifo_idx port) (dequeue (s.fifo (s.mbx_fifo_idx port))))
      | inr flat ↦ rw (good, flat) (unchanged s)
    ]
  ]

  started-Keeps : (s : SwmbxCtrl) (a : ℕ) (o : Option ℕ) → Keeps port addr s (started s port a o)
  started-Keeps s a none = record { switches = refl; flags = refl; byte = refl }
  started-Keeps s a (some i) = record { switches = refl; flags = refl; byte = refl }

  send_start-Keeps : (s : SwmbxCtrl) (a : ℕ) → Keeps port addr s (Access.send_start s port a).0
  unfolding Access.send_start
  send_start-Keeps s a = elim (Bool-cases (leb 2 port)) [
    | inl bad ↦ rw bad (unchanged s)
    | inr good ↦ rw good (started-Keeps s a (check_fifo s a))
  ]

  send_stop-Keeps : (s : SwmbxCtrl) → Keeps port addr s (Access.send_stop s port).0
  unfolding Access.send_stop
  send_stop-Keeps s = elim (Bool-cases (leb 2 port)) [
    | inl bad ↦ rw bad (unchanged s)
    | inr good ↦ elim (Bool-cases (s.mbx_fifo_execute port)) [
      | inr idle ↦ rw (good, idle) (unchanged s)
      | inl busy ↦
          let fifo_addr = s.mbx_fifo_addr port in
          elim (Bool-cases (wants_stop s port fifo_addr (s.fifo (s.mbx_fifo_idx port)))) [
            | inl y ↦
                rw (good, busy, y)
                  record {
                    switches = refl;
                    flags = flags-latch_notify port fifo_addr s;
                    byte = refl;
                  }
            | inr n ↦ rw (good, busy, n) record { switches = refl; flags = refl; byte = refl }
          ]
    ]
  ]

  host_step-Keeps :
      (room : ℕ) (access : Host) (s : SwmbxCtrl)
      → has (s.node port addr).enabled_flags protect ≡ true
      → has s.mbx_en protect ≡ true
      → Keeps port addr s (host_step room port access s)
  host_step-Keeps room (Host.start a) s node global = send_start-Keeps s a
  host_step-Keeps room (Host.write a val) s node global = send_msg-Keeps room s a val node global
  host_step-Keeps room (Host.read a) s node global = get_msg-Keeps s a
  host_step-Keeps room Host.stop s node global = send_stop-Keeps s

  -- Whatever the host behind a port does, and for however long, it does not change the byte behind a
  -- node that is protected for its port while protection is switched on, and neither of the switches.
  pub host_run-Keeps :
      (room : ℕ) (accesses : List Host) (s : SwmbxCtrl)
      → has (s.node port addr).enabled_flags protect ≡ true
      → has s.mbx_en protect ≡ true
      → Keeps port addr s (host_run room port accesses s)
  unfolding host_run
  host_run-Keeps room [] s node global = unchanged s
  host_run-Keeps room (access ∷ rest) s node global =
      let first = host_step-Keeps room access s node global in
      let later =
        host_run-Keeps room rest (host_step room port access s)
          (ap (λ x. has x protect) first.flags ∙ node)
          (ap (λ x. has x protect) first.switches ∙ global) in
      record {
        switches = later.switches ∙ first.switches;
        flags = later.flags ∙ first.flags;
        byte = later.byte ∙ first.byte;
      }
