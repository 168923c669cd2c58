-- ===== src/Swmbx/Reachable/Accessed.antt =====
-- target/ast10x0/pfr/swmbx_ctrl.rs: the accesses of software and hosts keep the mailbox sound.

use openprot.Swmbx.Access.{
  may_write, started, taken, stored, check_fifo, wants_start, appended, in_fifo, wants_stop, noted,
  notified,
}
use openprot.Swmbx.Invariant.{
  append_write-IsSound, position_of-bound, dequeue-IsSound, set_fifo-Inv, put_keeps, IsSound, Inv,
}
use openprot.Swmbx.{
  dequeue, append_write, notify, SwmbxError, has, SwmbxFifo, SwmbxCtrl, write_in_region,
}
use openprot.Prelude.{
  refl, ◌&&◌, arith, ok, some, Option, ◌<◌, inr, inl, err, Option-cases, Bool-cases, leb, Result,
  none, ℕ, ◌≡◌, Bool, true, false,
}
use openprot.Swmbx.Access

module _ (room : ℕ) where
  taken-Inv :
      (s : SwmbxCtrl) (i : ℕ) (x : SwmbxFifo × Result {0, 0} SwmbxError ℕ)
      → Inv room s
      → IsSound room x.0
      → Inv room (taken s i x).0
  taken-Inv s i (f, r) inv h = set_fifo-Inv room i f s inv h

  pub get_msg-Inv :
      (s : SwmbxCtrl) (port addr : ℕ) → Inv room s → Inv room (Access.get_msg s port addr).0
  unfolding Access.get_msg
  get_msg-Inv s port addr inv =
      let i = s.mbx_fifo_idx port in
      elim (Bool-cases (leb 2 port)) [
        | inl y ↦ rw y (inv)
        | inr n ↦ rw n (elim (Bool-cases (in_fifo s port)) [
          | inl y ↦ rw y (
              taken-Inv s i (dequeue (s.fifo i)) inv
                (dequeue-IsSound room (s.fifo i) (inv.fifos i)))
          | inr n ↦ rw n (inv)
        ])
      ]

  noted-Inv :
      (s : SwmbxCtrl) (port fifo_addr i : ℕ) (f : SwmbxFifo)
      → Inv room s
      → IsSound room f
      → Inv room (noted s port fifo_addr i f)
  noted-Inv s port fifo_addr i f inv h = elim (Bool-cases (wants_start s port fifo_addr f)) [
    | inl y ↦ rw y record {
      fifos =
          put_keeps (IsSound room) s.fifo i (record f { notify_start = true; fifo_write = true })
            inv.fifos (omega arith);
      ports = inv.ports;
    }
    | inr n ↦ rw n (set_fifo-Inv room i (record f { fifo_write = true }) s inv (omega arith))
  ]

  appended-Inv :
      (s : SwmbxCtrl) (port addr : ℕ) (x : SwmbxFifo × Result {0, 0} SwmbxError Unit)
      → Inv room s
      → IsSound room x.0
      → Inv room (appended s port addr x).0
  appended-Inv s port addr (f, err e) inv h = record {
    fifos = put_keeps (IsSound room) s.fifo (s.mbx_fifo_idx port) f inv.fifos h;
    ports = inv.ports;
  }
  appended-Inv s port addr (f, ok _) inv h =
      noted-Inv s port (s.mbx_fifo_addr port) (s.mbx_fifo_idx port) f inv h

  write_in_region-Inv :
      (s : SwmbxCtrl) (offset val : ℕ) → Inv room s → Inv room (write_in_region s offset val).0
  unfolding write_in_region
  write_in_region-Inv s offset val inv = elim (Bool-cases (leb s.buffer_size offset)) [
    | inl y ↦ rw y (inv)
    | inr n ↦ rw n (record { fifos = inv.fifos; ports = inv.ports })
  ]

  notified-Inv : (s : SwmbxCtrl) (port addr : ℕ) → Inv room s → Inv room (notified s port addr)
  notified-Inv s port addr inv =
      elim (Bool-cases (has s.mbx_en notify && has (s.node port addr).enabled_flags notify)) [
        | inl y ↦ rw y (record { fifos = inv.fifos; ports = inv.ports })
        | inr n ↦ rw n (inv)
      ]

  pub send_msg-Inv :
      (s : SwmbxCtrl) (port addr val : ℕ)
      → Inv room s
      → Inv room (Access.send_msg room s port addr val).0
  unfolding Access.send_msg
  send_msg-Inv s port addr val inv =
      let i = s.mbx_fifo_idx port in
      elim (Bool-cases (leb 2 port)) [
        | inl y ↦ rw y (inv)
        | inr n ↦ rw n (elim (Bool-cases (in_fifo s port)) [
          | inl y ↦ rw y (
              appended-Inv s port addr (append_write room (s.fifo i) val) inv
                (append_write-IsSound room (s.fifo i) val (inv.fifos i)))
          | inr n ↦ rw n (elim (Bool-cases (may_write s port addr)) [
            | inl y ↦
                rw y (
                  write_in_region-Inv (notified s port addr) addr val
                    (notified-Inv s port addr inv))
            | inr n ↦ rw n (notified-Inv s port addr inv)
          ])
        ])
      ]

  started-Inv :
      (s : SwmbxCtrl) (port addr : ℕ) (o : Option ℕ)
      → Inv room s
      → ((i : ℕ) → o ≡ some i → i < 4)
      → Inv room (started s port addr o)
  started-Inv s port addr none inv h = record { fifos = inv.fifos; ports = inv.ports }
  started-Inv s port addr (some i) inv h = record {
    fifos = inv.fifos;
    ports = put_keeps (λ k. k < 4) s.mbx_fifo_idx port i inv.ports (h i refl);
  }

  check_fifo-bound : (s : SwmbxCtrl) (addr i : ℕ) → check_fifo s addr ≡ some i → i < 4
  unfolding check_fifo
  check_fifo-bound s addr i found =
      position_of-bound room _ s.fifo addr i
        (omega arith, (omega arith, (omega arith, (omega arith, tt)))) found

  pub send_start-Inv :
      (s : SwmbxCtrl) (port addr : ℕ) → Inv room s → Inv room (Access.send_start s port addr).0
  unfolding Access.send_start
  send_start-Inv s port addr inv = elim (Bool-cases (leb 2 port)) [
    | inl y ↦ rw y (inv)
    | inr n ↦ rw n (started-Inv s port addr (check_fifo s addr) inv (check_fifo-bound s addr))
  ]

  pub send_stop-Inv : (s : SwmbxCtrl) (port : ℕ) → Inv room s → Inv room (Access.send_stop s port).0
  unfolding Access.send_stop
  send_stop-Inv s port inv =
      let i = s.mbx_fifo_idx port in
      let addr = s.mbx_fifo_addr port in
      let f : SwmbxFifo = record (s.fifo i) { notify_start = false; fifo_write = false } in
      let sound : IsSound room f = omega (arith, inv.fifos i) in
      let fifos = put_keeps (IsSound room) s.fifo i f inv.fifos sound in
      let ports = put_keeps (λ k. k < 4) s.mbx_fifo_idx port 0 inv.ports (omega arith) in
      elim (Bool-cases (leb 2 port)) [
        | inl y ↦ rw y (inv)
        | inr n ↦ rw n (elim (Bool-cases (s.mbx_fifo_execute port)) [
          | inl y ↦ rw y (elim (Bool-cases (wants_stop s port addr (s.fifo i))) [
            | inl y ↦ rw y (record { fifos = fifos; ports = ports })
            | inr n ↦ rw n (record { fifos = fifos; ports = ports })
          ])
          | inr n ↦ rw n (inv)
        ])
      ]

  stored-Inv :
      (s : SwmbxCtrl) (i : ℕ) (x : SwmbxFifo × Result {0, 0} SwmbxError Unit)
      → Inv room s
      → IsSound room x.0
      → Inv room (stored s i x).0
  stored-Inv s i (f, r) inv h = set_fifo-Inv room i f s inv h

  pub swmbx_write-Inv :
      (s : SwmbxCtrl) (fifo : Bool) (addr val : ℕ)
      → Inv room s
      → Inv room (Access.swmbx_write room s fifo addr val).0
  unfolding Access.swmbx_write
  swmbx_write-Inv s true addr val inv = elim (Option-cases (check_fifo s addr)) [
    | inl missing ↦ rw (Access.swmbx_write, missing) inv
    | inr (i, found) ↦
        rw (Access.swmbx_write, found)
          (stored-Inv s i (append_write room (s.fifo i) val) inv
            (append_write-IsSound room (s.fifo i) val (inv.fifos i)))
  ]
  swmbx_write-Inv s false addr val inv = write_in_region-Inv s addr val inv

  pub swmbx_read-Inv :
      (s : SwmbxCtrl) (fifo : Bool) (addr : ℕ)
      → Inv room s
      → Inv room (Access.swmbx_read s fifo addr).0
  unfolding Access.swmbx_read
  swmbx_read-Inv s true addr inv = elim (Option-cases (check_fifo s addr)) [
    | inl missing ↦ rw (Access.swmbx_read, missing) inv
    | inr (i, found) ↦
        rw (Access.swmbx_read, found)
          (taken-Inv s i (dequeue (s.fifo i)) inv (dequeue-IsSound room (s.fifo i) (inv.fifos i)))
  ]
  swmbx_read-Inv s false addr inv = inv
