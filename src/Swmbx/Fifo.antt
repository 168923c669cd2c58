-- ===== src/Swmbx/Fifo.antt =====
-- target/ast10x0/pfr/swmbx_ctrl.rs: a transaction on a mapped FIFO moves bytes in order.
use openprot.Prelude.{
  ℕ, zero, suc, ◌<◌, ◌≡◌, refl, ap, ◌∙◌, inl, inr, true, false, Bool-cases, ◌==◌, ==_refl, leb, ltb,
  List, [], ◌∷◌, ◌++◌, length, Result, ok, err, arith,
}
use openprot.Swmbx.{SwmbxCtrl, SwmbxFifo, SwmbxError, put, append_write, dequeue, dequeue_from}
use openprot.Swmbx.Access.{in_fifo, taken, noted, wants_start, appended, send_msg, get_msg}

-- A host's writes to an address, and its reads, with what each answers.
unfoldable pub write_all :
    ℕ → ℕ → ℕ → List ℕ → SwmbxCtrl → SwmbxCtrl × List (Result {0, 0} SwmbxError Unit)
write_all room port addr [] s = (s, [])
write_all room port addr (v ∷ vs) s =
    let (s', r) = send_msg room s port addr v in
    let (s'', rs) = write_all room port addr vs s' in (s'', r ∷ rs)

unfoldable pub read_all : ℕ → ℕ → ℕ → SwmbxCtrl → SwmbxCtrl × List (Result {0, 0} SwmbxError ℕ)
read_all port addr zero s = (s, [])
read_all port addr (suc n) s =
    let (s', r) = get_msg s port addr in let (s'', rs) = read_all port addr n s' in (s'', r ∷ rs)

-- A transaction is open on a FIFO, which holds `queue` and has the given depth.
pub record IsOpen (port depth : ℕ) (queue : List ℕ) (s : SwmbxCtrl) : Type 0 where
  pub port_ok : leb 2 port ≡ false
  pub open_fifo : in_fifo s port ≡ true
  pub holds : (s.fifo (s.mbx_fifo_idx port)).queue ≡ queue
  pub depth_ok : (s.fifo (s.mbx_fifo_idx port)).max_msg_count ≡ depth

put_same {ℓ} : {A : Type ℓ} (f : ℕ → A) (i : ℕ) (a : A) → put f i a i ≡ a
put_same f i a = rw (==_refl i) refl

noted-IsOpen :
    (port fifo_addr depth : ℕ) (queue : List ℕ) (f : SwmbxFifo) (s : SwmbxCtrl)
    → leb 2 port ≡ false
    → in_fifo s port ≡ true
    → f.queue ≡ queue
    → f.max_msg_count ≡ depth
    → IsOpen port depth queue (noted s port fifo_addr (s.mbx_fifo_idx port) f)
noted-IsOpen port fifo_addr depth queue f s valid busy q d =
    let i = s.mbx_fifo_idx port in
    let written : SwmbxFifo = record f { fifo_write = true } in
    let notified : SwmbxFifo = record f { notify_start = true; fifo_write = true } in
    elim (Bool-cases (wants_start s port fifo_addr f)) [
      | inl y ↦ rw y record {
        port_ok = valid;
        open_fifo = busy;
        holds = ap SwmbxFifo.queue (put_same s.fifo i notified) ∙ q;
        depth_ok = ap SwmbxFifo.max_msg_count (put_same s.fifo i notified) ∙ d;
      }
      | inr n ↦ rw n record {
        port_ok = valid;
        open_fifo = busy;
        holds = ap SwmbxFifo.queue (put_same s.fifo i written) ∙ q;
        depth_ok = ap SwmbxFifo.max_msg_count (put_same s.fifo i written) ∙ d;
      }
    ]

-- An append to a FIFO that is not full.
append_write_room :
    (room : ℕ) (f : SwmbxFifo) (v : ℕ)
    → length f.queue < f.max_msg_count
    → length f.queue < room
    → let (f', r) = append_write room f v in
      (r ≡ ok tt) × (f'.queue ≡ f.queue ++ (v ∷ [])) × (f'.max_msg_count ≡ f.max_msg_count)
unfolding append_write
append_write_room room f v below fits = rw (some_depth, has_place, has_room) (refl, refl, refl)
  where
    some_depth : (f.max_msg_count == 0) ≡ false
    some_depth = ground arith

    has_place : ltb (length f.queue) f.max_msg_count ≡ true
    has_place = ground arith

    has_room : ltb (length f.queue) room ≡ true
    has_room = ground arith

appended-IsOpen :
    (port addr depth : ℕ) (queue : List ℕ) (x : SwmbxFifo × Result {0, 0} SwmbxError Unit)
    (s : SwmbxCtrl)
    → leb 2 port ≡ false
    → in_fifo s port ≡ true
    → x.1 ≡ ok tt
    → x.0.queue ≡ queue
    → x.0.max_msg_count ≡ depth
    → let (s', r) = appended s port addr x in (r ≡ ok tt) × IsOpen port depth queue s'
appended-IsOpen port addr depth queue (f, ok _) s valid busy e q d =
    (refl, noted-IsOpen port (s.mbx_fifo_addr port) depth queue f s valid busy q d)
appended-IsOpen port addr depth queue (f, err _) s valid busy e q d = cc

pub send_msg-IsOpen :
    (room port addr depth : ℕ) (queue : List ℕ) (v : ℕ) (s : SwmbxCtrl)
    → IsOpen port depth queue s
    → length queue < depth
    → length queue < room
    → let (s', r) = send_msg room s port addr v in
      (r ≡ ok tt) × IsOpen port depth (queue ++ (v ∷ [])) s'
unfolding send_msg
send_msg-IsOpen room port addr depth queue v s h below fits =
    let f = s.fifo (s.mbx_fifo_idx port) in
    let (r, q, d) =
      append_write_room room f v (omega (arith, ap length h.holds, h.depth_ok))
        (omega (arith, ap length h.holds)) in
    rw (h.port_ok, h.open_fifo)
      (appended-IsOpen port addr depth (queue ++ (v ∷ [])) (append_write room f v) s h.port_ok
        h.open_fifo r (q ∙ ap (λ q. q ++ (v ∷ [])) h.holds) (d ∙ h.depth_ok))

taken-IsOpen :
    (port depth : ℕ) (rest : List ℕ) (f : SwmbxFifo) (r : Result {0, 0} SwmbxError ℕ)
    (s : SwmbxCtrl)
    → leb 2 port ≡ false
    → in_fifo s port ≡ true
    → f.queue ≡ rest
    → f.max_msg_count ≡ depth
    → IsOpen port depth rest (taken s (s.mbx_fifo_idx port) (f, r)).0
taken-IsOpen port depth rest f r s valid busy q d =
    let i = s.mbx_fifo_idx port in
    record {
      port_ok = valid;
      open_fifo = busy;
      holds = ap SwmbxFifo.queue (put_same s.fifo i f) ∙ q;
      depth_ok = ap SwmbxFifo.max_msg_count (put_same s.fifo i f) ∙ d;
    }

pub get_msg-IsOpen :
    (port addr depth v : ℕ) (rest : List ℕ) (s : SwmbxCtrl)
    → IsOpen port depth (v ∷ rest) s
    → let (s', r) = get_msg s port addr in (r ≡ ok v) × IsOpen port depth rest s'
unfolding get_msg dequeue
get_msg-IsOpen port addr depth v rest s h =
    let f = s.fifo (s.mbx_fifo_idx port) in
    let left : SwmbxFifo = record f { queue = rest } in
    rw (h.port_ok, h.open_fifo, ap (λ q. dequeue_from q f) h.holds)
      (refl, taken-IsOpen port depth rest left (ok v) s h.port_ok h.open_fifo refl h.depth_ok)
