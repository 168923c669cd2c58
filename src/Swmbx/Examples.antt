-- ===== src/Swmbx/Examples.antt =====
-- The mailbox at concrete inputs.
use openprot.Swmbx.Transfer.{read_all-write_all}
use openprot.Swmbx.Reachable.{run-Inv}
use openprot.Swmbx.Invariant.{Inv}
use openprot.Swmbx.Fifo.{IsOpen, read_all, write_all}
use openprot.Swmbx.Ports.{host_run-SamePort, SamePort}
use openprot.Swmbx.Protection.{host_run-Keeps, Keeps}
use openprot.Prelude.{◌≡◌, refl, true, false, ◌&&◌, ◌==◌, if◌then◌else◌, List, [], ◌∷◌, ok, arith}
use openprot.Swmbx.{SwmbxCtrl, new_with_regions}
use openprot.Swmbx.Access.{check_fifo, send_start, position_of}
use openprot.Swmbx.Operations.{Op, Host, run, host_run}

-- FIFO 0 is mapped at 13 with depth 4, node 33 is protected for port 0, everything is switched on.
abbrev a_mailbox : SwmbxCtrl
a_mailbox = record {
  mbx_en = 7;
  node = λ p a. record { notify_flag = false; enabled_flags = if p == 0 && a == 33 then 1 else 2 };
  fifo = λ i. record {
    queue = [];
    notify_flag = 3;
    notify_start = false;
    fifo_write = false;
    fifo_offset = 13;
    enabled = i == 0;
    msg_index = 0;
    max_msg_count = 4;
  };
  mbx_fifo_execute = λ _. false;
  mbx_fifo_addr = λ _. 0;
  mbx_fifo_idx = λ _. 0;
  buffer = λ a. a;
  buffer_size = 256;
}

abbrev some_accesses : List Host
some_accesses =
    Host.start 33 ∷ Host.write 33 200 ∷ Host.stop ∷ Host.start 13 ∷ Host.write 13 1 ∷ Host.stop ∷ []

run-Inv_example : Inv 255 (
    run 255
      (Op.update_fifo 0 13 4 3 true
        ∷ Op.from_host 0 (Host.start 13)
        ∷ Op.from_host 0 (Host.write 13 9)
        ∷ [])
      (new_with_regions 256 (λ _. 0)))
run-Inv_example =
    run-Inv 255
      (Op.update_fifo 0 13 4 3 true
        ∷ Op.from_host 0 (Host.start 13)
        ∷ Op.from_host 0 (Host.write 13 9)
        ∷ [])
      256 (λ _. 0)

host_run-Keeps_example : Keeps 0 33 a_mailbox (host_run 255 0 some_accesses a_mailbox)
host_run-Keeps_example = host_run-Keeps 0 33 255 some_accesses a_mailbox refl refl

host_run-SamePort_example : SamePort 1 a_mailbox (host_run 255 0 some_accesses a_mailbox)
host_run-SamePort_example = host_run-SamePort 0 1 refl 255 some_accesses a_mailbox

read_all-write_all_example :
    let (s1, writes) = write_all 255 0 13 (7 ∷ 8 ∷ 9 ∷ []) (send_start a_mailbox 0 13).0 in
    let (s2, reads) = read_all 0 13 3 s1 in
    (writes ≡ ok tt ∷ ok tt ∷ ok tt ∷ []) × (reads ≡ ok 7 ∷ ok 8 ∷ ok 9 ∷ []) × IsOpen 0 4 [] s2
unfolding check_fifo position_of
read_all-write_all_example =
    read_all-write_all 255 0 13 0 (7 ∷ 8 ∷ 9 ∷ []) a_mailbox refl refl refl refl (omega arith)
      (omega arith)
