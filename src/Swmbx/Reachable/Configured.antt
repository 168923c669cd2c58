-- ===== src/Swmbx/Reachable/Configured.antt =====
-- target/ast10x0/pfr/swmbx_ctrl.rs: the operations that configure the mailbox keep it sound.
use openprot.Swmbx.Invariant.{bound_fifo-IsSound}
use openprot.Swmbx.Setup.{bound_fifo, checked_add, in_range}
use openprot.Swmbx.Invariant.{flush-IsSound, set_fifo-Inv, Inv}
use openprot.Swmbx.{flush, SwmbxCtrl}
use openprot.Prelude.{
  ltb, ◌||◌, ◌&&◌, ◌==◌, inr, length, inl, Bool-cases, leb, bit_and, List, ℕ, Bool,
}
use openprot.Swmbx.Setup

module _ (room : ℕ) where
  pub update_notify-Inv :
      (s : SwmbxCtrl) (port addr : ℕ) (enable : Bool)
      → Inv room s
      → Inv room (Setup.update_notify s port addr enable).0
  unfolding Setup.update_notify
  update_notify-Inv s port addr enable inv = elim (Bool-cases (leb 2 port)) [
    | inl y ↦ rw y (inv)
    | inr n ↦ rw n (elim (Bool-cases (leb 256 addr)) [
      | inl y ↦ rw y (inv)
      | inr n ↦ rw n (record { fifos = inv.fifos; ports = inv.ports })
    ])
  ]

  pub update_protect-Inv :
      (s : SwmbxCtrl) (port addr : ℕ) (enable : Bool)
      → Inv room s
      → Inv room (Setup.update_protect s port addr enable).0
  unfolding Setup.update_protect
  update_protect-Inv s port addr enable inv = elim (Bool-cases (leb 2 port)) [
    | inl y ↦ rw y (inv)
    | inr n ↦ rw n (elim (Bool-cases (leb 256 addr)) [
      | inl y ↦ rw y (inv)
      | inr n ↦ rw n (record { fifos = inv.fifos; ports = inv.ports })
    ])
  ]

  pub apply_protect-Inv :
      (s : SwmbxCtrl) (port : ℕ) (bitmap : List ℕ) (start_idx : ℕ)
      → Inv room s
      → Inv room (Setup.apply_protect s port bitmap start_idx).0
  unfolding Setup.apply_protect
  apply_protect-Inv s port bitmap start_idx inv = elim (Bool-cases (leb 2 port)) [
    | inl y ↦ rw y (inv)
    | inr n ↦ rw n (elim (Bool-cases (in_range (checked_add start_idx (length bitmap)))) [
      | inl y ↦ rw y (record { fifos = inv.fifos; ports = inv.ports })
      | inr n ↦ rw n (inv)
    ])
  ]

  pub update_fifo-Inv :
      (s : SwmbxCtrl) (index addr depth mask : ℕ) (enable : Bool)
      → Inv room s
      → Inv room (Setup.update_fifo s index addr depth mask enable).0
  unfolding Setup.update_fifo
  update_fifo-Inv s index addr depth mask enable inv =
      let f = bound_fifo addr depth mask enable (s.fifo index) in
      elim (Bool-cases (leb 4 index)) [
        | inl y ↦ rw y (inv)
        | inr n ↦ rw n (elim (Bool-cases (enable && (depth == 0 || ltb 256 depth))) [
          | inl y ↦ rw y (inv)
          | inr good ↦ rw good (elim (Bool-cases (leb 256 addr)) [
            | inl y ↦ rw y (inv)
            | inr m ↦ rw m (
                set_fifo-Inv room index f s inv (
                  bound_fifo-IsSound room addr depth mask enable (s.fifo index) good
                    (inv.fifos index)))
          ])
        ])
      ]

  pub flush_fifo-Inv :
      (s : SwmbxCtrl) (index : ℕ) → Inv room s → Inv room (Setup.flush_fifo s index).0
  unfolding Setup.flush_fifo
  flush_fifo-Inv s index inv = elim (Bool-cases (leb 4 index)) [
    | inl y ↦ rw y (inv)
    | inr n ↦ rw n (
        set_fifo-Inv room index (flush (s.fifo index)) s inv
          (flush-IsSound room (s.fifo index) (inv.fifos index)))
  ]

  pub enable_behavior-Inv :
      (s : SwmbxCtrl) (flag : ℕ) (enable : Bool)
      → Inv room s
      → Inv room (Setup.enable_behavior s flag enable).0
  unfolding Setup.enable_behavior
  enable_behavior-Inv s flag enable inv = elim (Bool-cases (bit_and flag 7 == 0)) [
    | inl y ↦ rw y (inv)
    | inr n ↦ rw n (record { fifos = inv.fifos; ports = inv.ports })
  ]
