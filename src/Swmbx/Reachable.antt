-- ===== src/Swmbx/Reachable.antt =====
-- target/ast10x0/pfr/swmbx_ctrl.rs: every run of operations keeps the mailbox sound.
use openprot.Swmbx.Reachable.Accessed.{
  send_stop-Inv, get_msg-Inv, send_msg-Inv, send_start-Inv, swmbx_read-Inv, swmbx_write-Inv,
}
use openprot.Swmbx.Reachable.Configured.{
  enable_behavior-Inv, flush_fifo-Inv, update_fifo-Inv, apply_protect-Inv, update_protect-Inv,
  update_notify-Inv,
}
use openprot.Swmbx.Operations.{op_step, run, Op}
use openprot.Swmbx.Invariant.{Inv}
use openprot.Swmbx.{new_fifo, new_with_regions, SwmbxCtrl}
pub mod Configured
pub mod Accessed
use openprot.Prelude.{◌∷◌, [], arith, ◌∷◌, List, ℕ}
use openprot.Swmbx.Setup
use openprot.Swmbx.Access
use openprot.Swmbx.Operations.{Host}

module _ (room : ℕ) where
  op_step-Inv : (op : Op) (s : SwmbxCtrl) → Inv room s → Inv room (op_step room op s)
  op_step-Inv (Op.update_notify port addr enable) s inv =
      update_notify-Inv room s port addr enable inv
  op_step-Inv (Op.update_protect port addr enable) s inv =
      update_protect-Inv room s port addr enable inv
  op_step-Inv (Op.apply_protect port bitmap start_idx) s inv =
      apply_protect-Inv room s port bitmap start_idx inv
  op_step-Inv (Op.update_fifo index addr depth mask enable) s inv =
      update_fifo-Inv room s index addr depth mask enable inv
  op_step-Inv (Op.flush_fifo index) s inv = flush_fifo-Inv room s index inv
  op_step-Inv (Op.enable_behavior flag enable) s inv = enable_behavior-Inv room s flag enable inv
  op_step-Inv (Op.software_write fifo addr val) s inv = swmbx_write-Inv room s fifo addr val inv
  op_step-Inv (Op.software_read fifo addr) s inv = swmbx_read-Inv room s fifo addr inv
  op_step-Inv (Op.from_host port (Host.start addr)) s inv = send_start-Inv room s port addr inv
  op_step-Inv (Op.from_host port (Host.write addr val)) s inv =
      send_msg-Inv room s port addr val inv
  op_step-Inv (Op.from_host port (Host.read addr)) s inv = get_msg-Inv room s port addr inv
  op_step-Inv (Op.from_host port Host.stop) s inv = send_stop-Inv room s port inv

  run-keeps : (ops : List Op) (s : SwmbxCtrl) → Inv room s → Inv room (run room ops s)
  unfolding run
  run-keeps [] s inv = inv
  run-keeps (op ∷ ops) s inv = run-keeps ops (op_step room op s) (op_step-Inv op s inv)

  -- Whatever the software and the hosts do with a new mailbox, every FIFO has a depth from 1 to 256 and
  -- holds no more than its depth and no more than its queue has room for, its message index lies within
  -- its depth, and every port's FIFO index is one of the array, so that no access is out of bounds.
  pub run-Inv :
      (ops : List Op) (size : ℕ) (buffer : ℕ → ℕ)
      → Inv room (run room ops (new_with_regions size buffer))
  unfolding new_with_regions new_fifo
  run-Inv ops size buffer =
      run-keeps ops (new_with_regions size buffer)
        record { fifos = λ i. omega arith; ports = λ p. omega arith }
