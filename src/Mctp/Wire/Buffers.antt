-- ===== src/Mctp/Wire/Buffers.antt =====
-- What an encoder leaves in its buffer (services/mctp/api/src/wire.rs): the bytes in front, the rest as
-- it was, and the same length.
use openprot.Prelude.{
  copy_at, copy_behind, copy_front, length-drop, take-append, ℕ, ◌+◌, ◌≤◌, ◌≡◌, refl, subst, List,
  ◌++◌, length, take, drop, length-append, Result, ok, arith, ltb, false,
}
use openprot.Mctp.Wire.{WireError, header_size, write_header, write_both}

-- The outcome of an encoder that wrote `bytes` into a buffer of length `n`.
abbrev pub Wrote : ℕ → List ℕ → List ℕ × Result {0, 0} WireError ℕ → Type 0
Wrote n bytes (buf, result) =
    (result ≡ ok (length bytes)) × (take (length bytes) buf ≡ bytes) × (length buf ≡ n)

-- Bytes in front of what is left of a buffer.
front-Wrote :
    (n : ℕ) (bytes rest : List ℕ)
    → length bytes + length rest ≡ n
    → Wrote n bytes (bytes ++ rest, ok (length bytes))
front-Wrote n bytes rest h = (refl, take-append bytes rest, omega (arith, length-append bytes rest))

pub write_header-Wrote :
    (buf bytes : List ℕ)
    → length bytes ≡ header_size
    → header_size ≤ length buf
    → Wrote (length buf) bytes (write_header buf bytes)
write_header-Wrote buf bytes e h =
    rw (the_room, copy_front buf bytes)
      (subst (λ k. Wrote (length buf) bytes (bytes ++ drop (length bytes) buf, ok k)) e
        (front-Wrote (length buf) bytes (drop (length bytes) buf)
          (omega (arith, length-drop (length bytes) buf))))
  where
    the_room : ltb (length buf) header_size ≡ false
    the_room = ground arith

pub write_both-Wrote :
    (buf bytes payload : List ℕ)
    → length bytes ≡ header_size
    → header_size + length payload ≤ length buf
    → Wrote (length buf) (bytes ++ payload) (write_both buf bytes payload)
write_both-Wrote buf bytes payload e h =
    rw (the_room, copy_front buf bytes)
      (subst
        (λ k.
          Wrote (length buf) (bytes ++ payload)
            (copy_at (bytes ++ rest) k payload, ok (k + length payload)))
        e
        (rw (copy_behind bytes rest payload, ← length-append bytes payload)
          (front-Wrote (length buf) (bytes ++ payload) (drop (length payload) rest) (
            omega (
              arith,
              length-drop (length bytes) buf,
              length-drop (length payload) rest,
              length-append bytes payload,
            )))))
  where
    rest : List ℕ
    rest = drop (length bytes) buf

    the_room : ltb (length buf) (header_size + length payload) ≡ false
    the_room = ground arith
