-- ===== src/I2c/Passes.antt =====
-- services/i2c/server/src/lib.rs: the two passes of `dispatch` over the operations of any request.
use openprot.Prelude.{
  zero, suc, suc, ℕ, ◌+◌, ◌≤◌, ◌≡◌, refl, ap, Bool, true, false, List, [], ◌∷◌, length, take, drop,
  u16_from, arith, Result, ok, err,
}
use openprot.I2c.{I2cOpKind, kind_from_u8, I2cError}
use openprot.I2c.Server.{scanned, read_total, write_total, build, total_of, scan}

pub length-build :
    (metas : List (Bool × ℕ)) (bytes : List ℕ) → length (build metas bytes) ≡ length metas
unfolding build
length-build [] bytes = refl
length-build ((true, len) ∷ metas) bytes = ap suc (length-build metas bytes)
length-build ((false, len) ∷ metas) bytes = ap suc (length-build metas (drop len bytes))

pub read_total-build :
    (metas : List (Bool × ℕ)) (bytes : List ℕ)
    → read_total (build metas bytes) ≡ total_of true metas
unfolding build read_total total_of
read_total-build [] bytes = refl
read_total-build ((true, len) ∷ metas) bytes = ap (◌+◌ len) (read_total-build metas bytes)
read_total-build ((false, len) ∷ metas) bytes = read_total-build metas (drop len bytes)

pub length-take_bounded : (n : ℕ) (xs : List ℕ) → length (take n xs) ≤ n
length-take_bounded zero xs = omega arith
length-take_bounded (suc n) [] = omega arith
length-take_bounded (suc n) (x ∷ xs) = omega (arith, length-take_bounded n xs)

pub write_total-build :
    (metas : List (Bool × ℕ)) (bytes : List ℕ)
    → write_total (build metas bytes) ≤ total_of false metas
unfolding build write_total total_of
write_total-build [] bytes = omega arith
write_total-build ((true, len) ∷ metas) bytes = write_total-build metas bytes
write_total-build ((false, len) ∷ metas) bytes =
    omega (arith, length-take_bounded len bytes, write_total-build metas (drop len bytes))

-- The first pass finds as many operations as the header counts.
abbrev pub Counts : ℕ → Result {0, 0} I2cError (List (Bool × ℕ)) → Type 0
Counts n (err _) = Unit
Counts n (ok metas) = length metas ≡ n

scanned-Counts :
    (kind : Result {0, 0} I2cError I2cOpKind) (len n : ℕ)
    (rest : Result {0, 0} I2cError (List (Bool × ℕ)))
    → Counts n rest
    → Counts (suc n) (scanned kind len rest)
scanned-Counts (err _) len n rest h = tt
scanned-Counts (ok I2cOpKind.write) len n (err e) h = tt
scanned-Counts (ok I2cOpKind.read) len n (err e) h = tt
scanned-Counts (ok I2cOpKind.write) len n (ok metas) h = ap suc h
scanned-Counts (ok I2cOpKind.read) len n (ok metas) h = ap suc h

pub scan-Counts : (n : ℕ) (bytes : List ℕ) → Counts n (scan n bytes)
unfolding scan
scan-Counts zero bytes = refl
scan-Counts (suc n) (kind ∷ _ ∷ lo ∷ hi ∷ rest) =
    scanned-Counts (kind_from_u8 kind) (u16_from lo hi) n (scan n rest) (scan-Counts n rest)
scan-Counts (suc n) [] = tt
scan-Counts (suc n) (_ ∷ []) = tt
scan-Counts (suc n) (_ ∷ _ ∷ []) = tt
scan-Counts (suc n) (_ ∷ _ ∷ _ ∷ []) = tt
