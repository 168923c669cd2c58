-- ===== src/Mctp/Server/Updates.antt =====
-- services/mctp/server/src/server.rs: what `update` does with the receive calls that wait.
pub mod Settling
use openprot.Prelude.{
  suc, ℕ, ◌+◌, ◌≤◌, ◌≡◌, refl, ap, ◌∙◌, sym, inl, inr, Option, none, some, List, [], ◌∷◌, ◌++◌,
  length, length-append, append-nil, append_assoc, arith, if◌then◌else◌, push_within, Bool-cases,
}
use openprot.Mctp.Stack.{Router, LinearMap, MctpMessage}
use openprot.Mctp.Server
use openprot.Mctp.Server.{
  PendingRecv, RecvResult, message, timed_out, metadata, is_due, Server, Sweep, sweep, sweep_one,
}

module _ (rt : Router) where
  -- The answer to one receive call: a message that has come for it, or its timeout.
  abbrev pub answer_of : ℕ → ℕ × PendingRecv → Option MctpMessage → List (ℕ × RecvResult)
  answer_of now e (some msg) = (e.0, message (metadata msg)) ∷ []
  answer_of now e none = if is_due now e.1 then (e.0, timed_out) ∷ [] else []

  -- The answers to receive calls, looked at one after the other.
  unfoldable pub answers : ℕ → List (ℕ × PendingRecv) → rt.S → List (ℕ × RecvResult)
  answers now [] stack = []
  answers now (e ∷ es) stack =
      let (stack', msg) = rt.recv stack e.0 in answer_of now e msg ++ answers now es stack'

module _ (rt : Router) (map : LinearMap PendingRecv) where
  push_room :
      (n : ℕ) (xs : List (ℕ × RecvResult)) (x : ℕ × RecvResult)
      → suc (length xs) ≤ n
      → push_within n xs x ≡ xs ++ (x ∷ [])
  push_room n xs x h = ground arith

  -- One answer more, and the same router, as in `answers`.
  sweep_one-answers :
      (n now : ℕ) (e : ℕ × PendingRecv) (polled : rt.S × Option MctpMessage) (w : Sweep rt map)
      → suc (length w.ready) ≤ n
      → let w' = sweep_one rt map n now e polled w in
        (w'.ready ≡ w.ready ++ answer_of rt now e polled.1) × (w'.stack ≡ polled.0)
  unfolding sweep_one
  sweep_one-answers n now e (stack, some msg) w room =
      (push_room n w.ready (e.0, message (metadata msg)) room, refl)
  sweep_one-answers n now e (stack, none) w room = elim (Bool-cases (is_due now e.1)) [
    | inl y ↦ rw y (push_room n w.ready (e.0, timed_out) room, refl)
    | inr f ↦ rw f (sym (append-nil w.ready), refl)
  ]

  length-answer_of :
      (now : ℕ) (e : ℕ × PendingRecv) (msg : Option MctpMessage)
      → length (answer_of rt now e msg) ≤ 1
  length-answer_of now e (some msg) = omega arith
  length-answer_of now e none = ground arith

  -- The vector of answers has room for all of them.
  pub sweep-answers :
      (n now : ℕ) (es : List (ℕ × PendingRecv)) (w : Sweep rt map)
      → length w.ready + length es ≤ n
      → Sweep.ready (sweep rt map n now es w) ≡ w.ready ++ answers rt now es w.stack
  unfolding sweep answers
  sweep-answers n now [] w room = sym (append-nil w.ready)
  sweep-answers n now (e ∷ es) w room =
      let polled = rt.recv w.stack e.0 in
      let w' = sweep_one rt map n now e polled w in
      let (ready, stack) = sweep_one-answers n now e polled w (omega arith) in
      sweep-answers n now es w' (
        omega (
          arith,
          ap length ready,
          length-append w.ready (answer_of rt now e polled.1),
          length-answer_of now e polled.1,
        ))
      ∙ (λ i. ready i ++ answers rt now es (stack i))
      ∙ append_assoc w.ready (answer_of rt now e polled.1) (answers rt now es polled.0)
