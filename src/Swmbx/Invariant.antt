-- ===== src/Swmbx/Invariant.antt =====
-- target/ast10x0/pfr/swmbx_ctrl.rs: what holds of the mailbox whatever the software and the hosts do.
use openprot.Prelude.{
  some-injective, ◌⊎◌, All, ℕ, ◌+◌, ◌≤◌, ◌<◌, ◌≡◌, inl, inr, true, false, Bool, Bool-cases, ◌==◌,
  ◌&&◌, ◌||◌, length, List, [], ◌∷◌, length-append, arith, if◌then◌else◌, Option, some, ltb,
}
use native.Mathlib.Nat.{mod-lt}
use openprot.Swmbx.{set_fifo, SwmbxCtrl, SwmbxFifo, put, append_write, dequeue, dequeue_from, flush}
use openprot.Swmbx.Setup.{bound_fifo}
use openprot.Swmbx.Access.{position_of}

-- A FIFO has a depth that its queue was made for, and holds no more than that, nor than the queue holds.
pub record IsSound (room : ℕ) (f : SwmbxFifo) : Type 0 where
  pub positive : 1 ≤ f.max_msg_count
  pub bounded : f.max_msg_count ≤ 256
  pub within_depth : length f.queue ≤ f.max_msg_count
  pub within_queue : length f.queue ≤ room
  pub index : f.msg_index < f.max_msg_count

-- Every FIFO is sound, and every port's FIFO index is one of the array.
pub record Inv (room : ℕ) (s : SwmbxCtrl) : Type 0 where
  pub fifos : (i : ℕ) → IsSound room (s.fifo i)
  pub ports : (p : ℕ) → s.mbx_fifo_idx p < 4

pub put_keeps {ℓ κ} :
    {A : Type ℓ} (P : A → Type κ) (f : ℕ → A) (i : ℕ) (a : A)
    → ((k : ℕ) → P (f k))
    → P a
    → (k : ℕ) → P (put f i a k)
put_keeps P f i a all one k = elim (Bool-cases (i == k)) [ inl y ↦ rw y one | inr n ↦ rw n (all k) ]

first_or_later :
    (b : Bool) (k i : ℕ) (later : Option ℕ)
    → (if b then some k else later) ≡ some i
    → (k ≡ i) ⊎ (later ≡ some i)
first_or_later true k i later e = inl (some-injective _ _ e)
first_or_later false k i later e = inr e

module _ (room : ℕ) where
  pub append_write-IsSound :
      (f : SwmbxFifo) (value : ℕ) → IsSound room f → IsSound room (append_write room f value).0
  unfolding append_write
  append_write-IsSound f value h = ground (
    arith,
    length-append f.queue (value ∷ []),
    mod-lt (f.msg_index + 1) {m = f.max_msg_count} (omega arith),
  )

  dequeue_from-IsSound :
      (queue : List ℕ) (f : SwmbxFifo)
      → length queue ≤ length f.queue
      → IsSound room f
      → IsSound room (dequeue_from queue f).0
  dequeue_from-IsSound [] f e h = h
  dequeue_from-IsSound (value ∷ rest) f e h = omega arith

  pub dequeue-IsSound : (f : SwmbxFifo) → IsSound room f → IsSound room (dequeue f).0
  unfolding dequeue
  dequeue-IsSound f h = dequeue_from-IsSound f.queue f (omega arith) h

  pub bound_fifo-IsSound :
      (addr depth mask : ℕ) (enable : Bool) (f : SwmbxFifo)
      → (enable && (depth == 0 || ltb 256 depth)) ≡ false
      → IsSound room f
      → IsSound room (bound_fifo addr depth mask enable f)
  bound_fifo-IsSound addr depth mask true f e h = ground (arith, e)
  bound_fifo-IsSound addr depth mask false f e h = ground (arith, e)

  pub flush-IsSound : (f : SwmbxFifo) → IsSound room f → IsSound room (flush f)
  unfolding flush
  flush-IsSound f h = omega arith

  -- A FIFO that is put back sound.
  pub set_fifo-Inv :
      (i : ℕ) (f : SwmbxFifo) (s : SwmbxCtrl)
      → Inv room s
      → IsSound room f
      → Inv room (set_fifo i f s)
  set_fifo-Inv i f s inv h = record {
    fifos = put_keeps (IsSound room) s.fifo i f inv.fifos h;
    ports = inv.ports;
  }

  pub position_of-bound :
      (is : List ℕ) (fifo : ℕ → SwmbxFifo) (addr i : ℕ)
      → All (λ k. k < 4) is
      → position_of is fifo addr ≡ some i
      → i < 4
  unfolding position_of
  position_of-bound [] fifo addr i h e = cc
  position_of-bound (k ∷ is) fifo addr i (h, hs) e =
      elim (first_or_later ((fifo k).fifo_offset == addr && (fifo k).enabled) _ _ _ e) [
        | inl here ↦ omega (arith, here)
        | inr later ↦ position_of-bound is fifo addr i hs later
      ]
