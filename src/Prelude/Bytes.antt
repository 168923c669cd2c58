-- ===== src/Prelude/Bytes.antt =====
-- Bytes: numbers in little-endian order, buffers that are written in place, and their lengths.
use Prim.Native.Nat.{ℕ, zero, suc, ◌+◌, ◌-◌, ◌*◌, ◌/◌, ◌%◌, ◌^◌, ◌≤◌, ◌<◌}
use mathlib.Core.Path.{◌≡◌, refl, ap, ◌∙◌}
use mathlib.Core.List.{List, [], ◌∷◌, ◌++◌}
use native.Mathlib.Omega.{arith}
use openprot.Prelude.Lists.{length, take, drop, length-append}

-- `u32::to_le_bytes` and `u32::from_le_bytes`, and those of `u16`.
abbrev pub u32_bytes : ℕ → List ℕ
u32_bytes n = n % 256 ∷ n / 256 % 256 ∷ n / 65536 % 256 ∷ n / 16777216 % 256 ∷ []

abbrev pub u32_from : ℕ → ℕ → ℕ → ℕ → ℕ
u32_from a b c d = a + b * 256 + c * 65536 + d * 16777216

abbrev pub u16_bytes : ℕ → List ℕ
u16_bytes n = n % 256 ∷ n / 256 % 256 ∷ []

abbrev pub u16_from : ℕ → ℕ → ℕ
u16_from a b = a + b * 256

-- `buf[off..off + bytes.len()].copy_from_slice(bytes)`, on a range that the callers have checked.
abbrev pub copy_at : List ℕ → ℕ → List ℕ → List ℕ
copy_at buf off bytes = take off buf ++ bytes ++ drop (off + length bytes) buf

-- `[0u8; n]`
abbrev pub zeros : ℕ → List ℕ
zeros zero = []
zeros (suc n) = 0 ∷ zeros n

pub take-append : (xs ys : List ℕ) → take (length xs) (xs ++ ys) ≡ xs
take-append [] ys = refl
take-append (x ∷ xs) ys = ap (◌∷◌ x) (take-append xs ys)

pub drop-append : (xs ys : List ℕ) → drop (length xs) (xs ++ ys) ≡ ys
drop-append [] ys = refl
drop-append (x ∷ xs) ys = drop-append xs ys

pub length-drop : (n : ℕ) (xs : List ℕ) → length (drop n xs) ≡ length xs - n
length-drop zero xs = omega arith
length-drop (suc n) [] = omega arith
length-drop (suc n) (x ∷ xs) = omega (arith, length-drop n xs)

pub length-zeros : (n : ℕ) → length (zeros n) ≡ n
length-zeros zero = refl
length-zeros (suc n) = ap suc (length-zeros n)

drop-suc : (n m : ℕ) (xs : List ℕ) → drop (suc n + m) xs ≡ drop (suc (n + m)) xs
drop-suc n m xs = ap (λ k. drop k xs) {x = suc n + m} {y = suc (n + m)} (omega arith)

pub drop-add : (n m : ℕ) (xs : List ℕ) → drop (n + m) xs ≡ drop m (drop n xs)
drop-add zero m xs = ap (λ k. drop k xs) {x = 0 + m} {y = m} (omega arith)
drop-add (suc n) zero [] = drop-suc n zero []
drop-add (suc n) (suc m) [] = drop-suc n (suc m) []
drop-add (suc n) m (x ∷ xs) = drop-suc n m (x ∷ xs) ∙ drop-add n m xs

pub copy_front : (buf bytes : List ℕ) → copy_at buf 0 bytes ≡ bytes ++ drop (length bytes) buf
copy_front buf bytes = ap (λ (k : ℕ). bytes ++ drop k buf) (omega arith)

pub length-copy_front :
    (buf bytes : List ℕ) → length bytes ≤ length buf → length (copy_at buf 0 bytes) ≡ length buf
length-copy_front buf bytes h =
    rw (copy_front buf bytes)
      (omega (arith, length-append bytes (drop (length bytes) buf), length-drop (length bytes) buf))

-- A second copy, behind the first.
pub copy_behind :
    (bytes rest payload : List ℕ)
    → copy_at (bytes ++ rest) (length bytes) payload
      ≡ (bytes ++ payload) ++ drop (length payload) rest
copy_behind bytes rest payload =
    ap (λ front. front ++ payload ++ drop (length bytes + length payload) (bytes ++ rest))
      (take-append bytes rest)
    ∙ ap (λ back. bytes ++ payload ++ back)
        (drop-add (length bytes) (length payload) (bytes ++ rest)
          ∙ ap (drop (length payload)) (drop-append bytes rest))

pub u16_from-bytes : (n : ℕ) → n < 2 ^ 16 → u16_from (n % 256) (n / 256 % 256) ≡ n
u16_from-bytes n h = omega arith

pub length-take : (n : ℕ) (xs : List ℕ) → n ≤ length xs → length (take n xs) ≡ n
length-take zero xs h = refl
length-take (suc n) [] h = omega arith
length-take (suc n) (x ∷ xs) h = ap suc (length-take n xs (omega arith))
