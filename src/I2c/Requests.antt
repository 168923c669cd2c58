-- ===== src/I2c/Requests.antt =====
-- What the server (services/i2c/server/src/lib.rs) reads from a request that the client
-- (services/i2c/client/src/lib.rs) wrote.
use openprot.Prelude.{
  sym, ℕ, ◌+◌, ◌*◌, ◌≤◌, ◌<◌, ◌^◌, ◌≡◌, refl, ap, ◌∙◌, Bool, true, false, List, [], ◌∷◌, ◌++◌,
  length, drop, take-append, drop-append, drop-add, length-append, u16_from-bytes, arith, ok, some,
}
use openprot.I2c.{
  op_byte, max_payload_size, I2cRequestHeader, max_ops, kind_byte, I2cOp, I2cOpKind, Operation,
  written, reads, new_desc, desc_size, request_size, new_request, request_from_bytes, kind_from_u8,
}
use openprot.I2c.Server.{BusOp, scan, total_of, build, read_total}
use openprot.I2c.Client.{descs, request_of}

-- The operations of a caller, as the bus is to see them.
unfoldable pub bus_ops : List Operation → List BusOp
bus_ops [] = []
bus_ops (Operation.write buf ∷ ops) = BusOp.write buf ∷ bus_ops ops
bus_ops (Operation.read buf ∷ ops) = BusOp.read (length buf) ∷ bus_ops ops

-- The kinds and lengths that the first pass finds.
abbrev pub metas_of : List Operation → List (Bool × ℕ)
metas_of [] = []
metas_of (Operation.write buf ∷ ops) = (false, length buf) ∷ metas_of ops
metas_of (Operation.read buf ∷ ops) = (true, length buf) ∷ metas_of ops

pub length-descs : (ops : List Operation) → length (descs ops) ≡ length ops * desc_size
unfolding descs new_desc
length-descs [] = refl
length-descs (Operation.write buf ∷ ops) = omega (arith, length-descs ops)
length-descs (Operation.read buf ∷ ops) = omega (arith, length-descs ops)

pub total_of-written : (ops : List Operation) → total_of false (metas_of ops) ≡ length (written ops)
unfolding total_of written
total_of-written [] = refl
total_of-written (Operation.write buf ∷ ops) =
    omega (arith, total_of-written ops, length-append buf (written ops))
total_of-written (Operation.read buf ∷ ops) = total_of-written ops

pub total_of-reads : (ops : List Operation) → total_of true (metas_of ops) ≡ length (reads ops)
unfolding total_of reads
total_of-reads [] = refl
total_of-reads (Operation.write buf ∷ ops) = total_of-reads ops
total_of-reads (Operation.read buf ∷ ops) =
    omega (arith, total_of-reads ops, length-append buf (reads ops))

pub read_total-reads : (ops : List Operation) → read_total (bus_ops ops) ≡ length (reads ops)
unfolding read_total bus_ops reads
read_total-reads [] = refl
read_total-reads (Operation.write buf ∷ ops) = read_total-reads ops
read_total-reads (Operation.read buf ∷ ops) =
    omega (arith, read_total-reads ops, length-append buf (reads ops))

kind_from_u8-byte : (kind : I2cOpKind) → kind_from_u8 (kind_byte kind) ≡ ok kind
unfolding kind_from_u8 kind_byte
kind_from_u8-byte I2cOpKind.write = refl
kind_from_u8-byte I2cOpKind.read = refl

-- The first pass reads back every descriptor.
pub scan-descs :
    (ops : List Operation) (rest : List ℕ)
    → length (written ops) < 2 ^ 16
    → length (reads ops) < 2 ^ 16
    → scan (length ops) (descs ops ++ rest) ≡ ok (metas_of ops)
unfolding scan descs new_desc written reads
scan-descs [] rest w r = refl
scan-descs (Operation.write buf ∷ ops) rest w r =
    rw
      (
        kind_from_u8-byte I2cOpKind.write,
        u16_from-bytes (length buf) (omega (arith, length-append buf (written ops))),
        scan-descs ops rest (omega (arith, length-append buf (written ops))) r,
      )
      refl
scan-descs (Operation.read buf ∷ ops) rest w r =
    rw
      (
        kind_from_u8-byte I2cOpKind.read,
        u16_from-bytes (length buf) (omega (arith, length-append buf (reads ops))),
        scan-descs ops rest w (omega (arith, length-append buf (reads ops))),
      )
      refl

-- The second pass cuts the payload as the client put it together.
pub build-written : (ops : List Operation) → build (metas_of ops) (written ops) ≡ bus_ops ops
unfolding build written bus_ops
build-written [] = refl
build-written (Operation.write buf ∷ ops) =
    rw (take-append buf (written ops), drop-append buf (written ops), build-written ops) refl
build-written (Operation.read buf ∷ ops) = ap (◌∷◌ (BusOp.read (length buf))) (build-written ops)

-- The bounds that the client puts on a transaction.
abbrev pub Fits : List Operation → Type 0
Fits ops =
    (length ops ≤ max_ops)
    × (length (written ops) ≤ max_payload_size)
    × (length (reads ops) ≤ max_payload_size)

module _ (address : ℕ) (ops : List Operation) where
  abbrev payload_len : ℕ
  payload_len = length ops * desc_size + length (written ops)

  -- The header of a request.
  abbrev pub header_of : I2cRequestHeader
  header_of = record {
    op_code = op_byte I2cOp.transaction;
    flags = 0;
    address = address;
    op_count = length ops;
    payload_len = payload_len;
  }

  pub request_from_bytes-request :
      address < 128 → Fits ops → request_from_bytes (request_of address ops) ≡ some header_of
  unfolding request_from_bytes request_of new_request
  request_from_bytes-request small (count, w, r) =
      rw
        (
          u16_from-bytes address (omega arith),
          u16_from-bytes (length ops) (omega arith),
          u16_from-bytes payload_len (omega arith),
        )
        refl

  pub drop-request : drop request_size (request_of address ops) ≡ descs ops ++ written ops
  unfolding request_of new_request
  drop-request = refl

  pub drop-request_and_descs :
      drop (request_size + length ops * desc_size) (request_of address ops) ≡ written ops
  drop-request_and_descs =
      drop-add request_size (length ops * desc_size) (request_of address ops)
      ∙ ap (drop (length ops * desc_size)) drop-request
      ∙ ap (λ (n : ℕ). drop n (descs ops ++ written ops)) (sym (length-descs ops))
      ∙ drop-append (descs ops) (written ops)

  pub length-request :
      length (request_of address ops) ≡ request_size + length ops * desc_size + length (written ops)
  unfolding request_of new_request
  length-request = omega (arith, length-append (descs ops) (written ops), length-descs ops)
