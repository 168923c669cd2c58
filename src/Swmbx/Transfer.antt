-- ===== src/Swmbx/Transfer.antt =====
-- target/ast10x0/pfr/swmbx_ctrl.rs: what a host writes in a FIFO transaction, it reads back.
use openprot.Prelude.{
  ℕ, ◌+◌, ◌≤◌, ◌≡◌, refl, sym, subst, true, false, List, [], ◌∷◌, ◌++◌, map, length, length-append,
  append_assoc, append-nil, some, ok, arith, leb, ==_refl,
}
use openprot.Swmbx.{SwmbxCtrl, has, fifo_flag}
use openprot.Swmbx.Access.{send_msg, send_start, check_fifo}
use openprot.Swmbx.Fifo.{IsOpen, write_all, read_all, send_msg-IsOpen, get_msg-IsOpen}

write_all-IsOpen :
    (room port addr depth : ℕ) (queue vs : List ℕ) (s : SwmbxCtrl)
    → IsOpen port depth queue s
    → length queue + length vs ≤ depth
    → length queue + length vs ≤ room
    → let (s', answers) = write_all room port addr vs s in
      (answers ≡ map (λ _. ok tt) vs) × IsOpen port depth (queue ++ vs) s'
unfolding write_all
write_all-IsOpen room port addr depth queue [] s h below fits =
    (refl, subst (λ q. IsOpen port depth q s) (sym (append-nil queue)) h)
write_all-IsOpen room port addr depth queue (v ∷ vs) s h below fits =
    let (r, h') = send_msg-IsOpen room port addr depth queue v s h (omega arith) (omega arith) in
    let (rs, later) =
      write_all-IsOpen room port addr depth (queue ++ (v ∷ [])) vs _ h'
        (omega (arith, length-append queue (v ∷ [])))
        (omega (arith, length-append queue (v ∷ []))) in
    (
      (λ i. r i ∷ rs i),
      subst
          (λ q. IsOpen port depth q (write_all room port addr vs (send_msg room s port addr v).0).0)
          (append_assoc queue (v ∷ []) vs) later,
    )

read_all-IsOpen :
    (port addr depth : ℕ) (vs : List ℕ) (s : SwmbxCtrl)
    → IsOpen port depth vs s
    → let (s', answers) = read_all port addr (length vs) s in
      (answers ≡ map ok vs) × IsOpen port depth [] s'
unfolding read_all
read_all-IsOpen port addr depth [] s h = (refl, h)
read_all-IsOpen port addr depth (v ∷ vs) s h =
    let (r, h') = get_msg-IsOpen port addr depth v vs s h in
    let (rs, later) = read_all-IsOpen port addr depth vs _ h' in ((λ i. r i ∷ rs i), later)

send_start-IsOpen :
    (port addr i : ℕ) (s : SwmbxCtrl)
    → leb 2 port ≡ false
    → check_fifo s addr ≡ some i
    → has s.mbx_en fifo_flag ≡ true
    → (s.fifo i).queue ≡ []
    → IsOpen port (s.fifo i).max_msg_count [] (send_start s port addr).0
unfolding send_start
send_start-IsOpen port addr i s valid found on empty =
    rw (valid, found)
      record {
        port_ok = valid;
        open_fifo = rw (==_refl port, on) refl;
        holds = rw (==_refl port) empty;
        depth_ok = rw (==_refl port) refl;
      }

-- In a transaction on an empty FIFO, every write of up to its depth, and up to what its queue has room
-- for, succeeds, and as many reads give the bytes back in the order of the writes and leave the FIFO
-- empty. FIFOs are switched on, and the address is mapped to the FIFO.
pub read_all-write_all :
    (room port addr i : ℕ) (vs : List ℕ) (s : SwmbxCtrl)
    → leb 2 port ≡ false
    → check_fifo s addr ≡ some i
    → has s.mbx_en fifo_flag ≡ true
    → (s.fifo i).queue ≡ []
    → length vs ≤ (s.fifo i).max_msg_count
    → length vs ≤ room
    → let (s1, writes) = write_all room port addr vs (send_start s port addr).0 in
      let (s2, reads) = read_all port addr (length vs) s1 in
      (writes ≡ map (λ _. ok tt) vs)
      × (reads ≡ map ok vs)
      × IsOpen port (s.fifo i).max_msg_count [] s2
read_all-write_all room port addr i vs s valid found on empty below fits =
    let depth = (s.fifo i).max_msg_count in
    let opened = send_start-IsOpen port addr i s valid found on empty in
    let (writes, full) =
      write_all-IsOpen room port addr depth [] vs _ opened (omega arith) (omega arith) in
    let (reads, emptied) = read_all-IsOpen port addr depth vs _ full in (writes, reads, emptied)
