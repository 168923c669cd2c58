-- ===== src/Swmbx/Operations.antt =====
-- target/ast10x0/pfr/swmbx_ctrl.rs: the operations as data, and runs of them. The software configures the
-- mailbox and accesses it; the host behind a port starts, writes, reads and stops.
use openprot.Prelude.{ℕ, Bool, List, [], ◌∷◌}
use openprot.Swmbx.{SwmbxCtrl}
use openprot.Swmbx.Setup
use openprot.Swmbx.Access

pub data Host : Type 0 where
  start : ℕ → Host
  write : ℕ → ℕ → Host
  read : ℕ → Host
  stop : Host

pub data Op : Type 0 where
  update_notify : ℕ → ℕ → Bool → Op
  update_protect : ℕ → ℕ → Bool → Op
  apply_protect : ℕ → List ℕ → ℕ → Op
  update_fifo : ℕ → ℕ → ℕ → ℕ → Bool → Op
  flush_fifo : ℕ → Op
  enable_behavior : ℕ → Bool → Op
  software_write : Bool → ℕ → ℕ → Op
  software_read : Bool → ℕ → Op
  from_host : ℕ → Host → Op

module _ (room : ℕ) where
  -- What a host's access leaves, by its port.
  abbrev pub host_step : ℕ → Host → SwmbxCtrl → SwmbxCtrl
  host_step port (Host.start addr) s = (Access.send_start s port addr).0
  host_step port (Host.write addr val) s = (Access.send_msg room s port addr val).0
  host_step port (Host.read addr) s = (Access.get_msg s port addr).0
  host_step port Host.stop s = (Access.send_stop s port).0

  abbrev pub op_step : Op → SwmbxCtrl → SwmbxCtrl
  op_step (Op.update_notify port addr enable) s = (Setup.update_notify s port addr enable).0
  op_step (Op.update_protect port addr enable) s = (Setup.update_protect s port addr enable).0
  op_step (Op.apply_protect port bitmap start_idx) s =
      (Setup.apply_protect s port bitmap start_idx).0
  op_step (Op.update_fifo index addr depth mask enable) s =
      (Setup.update_fifo s index addr depth mask enable).0
  op_step (Op.flush_fifo index) s = (Setup.flush_fifo s index).0
  op_step (Op.enable_behavior flag enable) s = (Setup.enable_behavior s flag enable).0
  op_step (Op.software_write fifo addr val) s = (Access.swmbx_write room s fifo addr val).0
  op_step (Op.software_read fifo addr) s = (Access.swmbx_read s fifo addr).0
  op_step (Op.from_host port access) s = host_step port access s

  unfoldable pub run : List Op → SwmbxCtrl → SwmbxCtrl
  run [] s = s
  run (op ∷ ops) s = run ops (op_step op s)

  -- The accesses of the host behind one port.
  unfoldable pub host_run : ℕ → List Host → SwmbxCtrl → SwmbxCtrl
  host_run port [] s = s
  host_run port (access ∷ rest) s = host_run port rest (host_step port access s)
