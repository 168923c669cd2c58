-- ===== src/Mctp/Server/Updates/Settling.antt =====
-- services/mctp/server/src/server.rs: which receive calls `update` answers, and which go on waiting.
use openprot.Prelude.{
  ℕ, ◌≡◌, refl, ap, ◌∙◌, subst, inl, inr, true, false, Option, none, some, List, [], ◌∷◌, ◌++◌,
  arith, if◌then◌else◌, Bool-cases, ◌==◌,
}
use openprot.Mctp.Stack.{Router, LinearMap, IsLinearMap, find_key, MctpMessage}
use openprot.Mctp.Server.{PendingRecv, RecvResult, message, timed_out, is_due, Server, update}
use openprot.Mctp.Server.Updates.{answer_of, answers, sweep-answers}

-- What became of a call: it is answered, with a timeout only if it is due; or it has no answer,
-- and is not due.
abbrev pub Settled : ℕ → PendingRecv → Option RecvResult → Type 0
Settled now p (some (message meta)) = Unit
Settled now p (some timed_out) = is_due now p ≡ true
Settled now p none = is_due now p ≡ false

module _ (rt : Router) where
  find-answer_of :
      (now : ℕ) (e : ℕ × PendingRecv) (msg : Option MctpMessage) (rest : List (ℕ × RecvResult))
      (k : ℕ)
      → (e.0 == k) ≡ false
      → find_key (answer_of rt now e msg ++ rest) k ≡ find_key rest k
  unfolding find_key
  find-answer_of now e (some msg) rest k other = rw other refl
  find-answer_of now e none rest k other = elim (Bool-cases (is_due now e.1)) [
    | inl y ↦ rw (y, other) refl
    | inr f ↦ rw f refl
  ]

  -- A handle that no call waits on gets no answer.
  unasked_has_no_answer :
      (now : ℕ) (es : List (ℕ × PendingRecv)) (stack : rt.S) (k : ℕ)
      → find_key es k ≡ none
      → find_key (answers rt now es stack) k ≡ none
  unfolding answers find_key
  unasked_has_no_answer now [] stack k h = refl
  unasked_has_no_answer now (e ∷ es) stack k h = elim (Bool-cases (e.0 == k)) [
    | inl y ↦ absurd (ground (arith, h, y))
    | inr f ↦
        let polled = rt.recv stack e.0 in
        find-answer_of now e polled.1 (answers rt now es polled.0) k f
        ∙ unasked_has_no_answer now es polled.0 k
            (subst (λ b. (if b then some e.1 else find_key es k) ≡ none) f h)
  ]

module _ (rt : Router) (map : LinearMap PendingRecv) (n : ℕ) (laws : IsLinearMap map n) where
  update-answers :
      (s : Server rt map) (now : ℕ) (recv_buf : List ℕ)
      → s.max_outstanding ≡ n
      → (update rt map s now recv_buf).3
        ≡ answers rt now (map.entries s.outstanding) (rt.update s.stack now).0
  unfolding update
  update-answers s now recv_buf cap =
      sweep-answers rt map s.max_outstanding now (map.entries s.outstanding) _
        (omega (arith, cap, IsLinearMap.length-entries laws s.outstanding))

  -- A handle that no call waits on has no answer.
  pub update-silent :
      (s : Server rt map) (now : ℕ) (recv_buf : List ℕ) (k : ℕ)
      → s.max_outstanding ≡ n
      → map.get s.outstanding k ≡ none
      → find_key (update rt map s now recv_buf).3 k ≡ none
  update-silent s now recv_buf k cap absent =
      ap (λ rs. find_key rs k) (update-answers s now recv_buf cap)
      ∙ unasked_has_no_answer rt now _ _ k (IsLinearMap.find-entries laws s.outstanding k ∙ absent)
