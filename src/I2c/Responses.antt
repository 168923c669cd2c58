-- ===== src/I2c/Responses.antt =====
-- What the client (services/i2c/client/src/lib.rs) reads from a response that the server
-- (services/i2c/server/src/lib.rs) wrote.
use openprot.Prelude.{
  ℕ, zero, suc, ◌+◌, ◌≤◌, ◌<◌, ◌^◌, ◌≡◌, refl, ap, ◌∙◌, sym, true, false, List, [], ◌∷◌, ◌++◌,
  length, take, drop, take-append, length-take, length-drop, length-append, copy_at, u16_from-bytes,
  arith, ok, err, ltb, ◌==◌,
}
use openprot.I2c.{
  I2cError, Operation, reads, error_byte, error_bytes, error_from_u8, response_size, success_bytes,
}
use openprot.I2c.Client.{ClientError, read_response, scatter}
use openprot.I2c.Server.{BusOp}
use openprot.I2c.Requests.{bus_ops}

none_left : (m : ℕ) → ◌≡◌ {A = List ℕ} [] (take m [])
none_left zero = refl
none_left (suc m) = refl

take-add : (n m : ℕ) (xs : List ℕ) → take (n + m) xs ≡ take n xs ++ take m (drop n xs)
take-add zero m xs = ap (λ (k : ℕ). take k xs) (omega arith)
take-add (suc n) m [] =
    ap (λ (k : ℕ). take k []) {x = suc n + m} {y = suc (n + m)} (omega arith) ∙ none_left m
take-add (suc n) m (x ∷ xs) =
    ap (λ (k : ℕ). take k (x ∷ xs)) {x = suc n + m} {y = suc (n + m)} (omega arith)
    ∙ ap (◌∷◌ x) (take-add n m xs)

-- The reads hold the bytes of the response, in order.
reads-scatter :
    (ops : List Operation) (bytes : List ℕ)
    → length (reads ops) ≤ length bytes
    → reads (scatter ops bytes) ≡ take (length (reads ops)) bytes
unfolding reads scatter
reads-scatter [] bytes h = refl
reads-scatter (Operation.write buf ∷ ops) bytes h = reads-scatter ops bytes h
reads-scatter (Operation.read buf ∷ ops) bytes h =
    ap (λ later. take (length buf) bytes ++ later)
      (reads-scatter ops (drop (length buf) bytes)
        (omega (arith, length-drop (length buf) bytes, length-append buf (reads ops))))
    ∙ sym (take-add (length buf) (length (reads ops)) bytes)
    ∙ ap (λ n. take n bytes) (sym (length-append buf (reads ops)))

-- The writes, and the lengths, are as they were.
bus_ops-scatter :
    (ops : List Operation) (bytes : List ℕ)
    → length (reads ops) ≤ length bytes
    → bus_ops (scatter ops bytes) ≡ bus_ops ops
unfolding reads scatter bus_ops
bus_ops-scatter [] bytes h = refl
bus_ops-scatter (Operation.write buf ∷ ops) bytes h =
    ap (◌∷◌ (BusOp.write buf)) (bus_ops-scatter ops bytes h)
bus_ops-scatter (Operation.read buf ∷ ops) bytes h =
    rw
      (
        length-take (length buf) bytes (omega (arith, length-append buf (reads ops))),
        bus_ops-scatter ops (drop (length buf) bytes)
            (omega (arith, length-drop (length buf) bytes, length-append buf (reads ops))),
      )
      refl

error_from_u8-byte : (e : I2cError) → error_from_u8 (error_byte e) ≡ e
unfolding error_from_u8 error_byte
error_from_u8-byte I2cError.invalid_operation = refl
error_from_u8-byte I2cError.buffer_too_small = refl
error_from_u8-byte I2cError.too_many_operations = refl
error_from_u8-byte I2cError.address_nack = refl
error_from_u8-byte I2cError.data_nack = refl
error_from_u8-byte I2cError.nack = refl
error_from_u8-byte I2cError.arbitration_loss = refl
error_from_u8-byte I2cError.bus = refl
error_from_u8-byte I2cError.overrun = refl
error_from_u8-byte I2cError.timeout = refl
error_from_u8-byte I2cError.no_data = refl
error_from_u8-byte I2cError.internal_error = refl

error_is_marked : (e : I2cError) → (error_byte e == 0) ≡ false
unfolding error_byte
error_is_marked I2cError.invalid_operation = refl
error_is_marked I2cError.buffer_too_small = refl
error_is_marked I2cError.too_many_operations = refl
error_is_marked I2cError.address_nack = refl
error_is_marked I2cError.data_nack = refl
error_is_marked I2cError.nack = refl
error_is_marked I2cError.arbitration_loss = refl
error_is_marked I2cError.bus = refl
error_is_marked I2cError.overrun = refl
error_is_marked I2cError.timeout = refl
error_is_marked I2cError.no_data = refl
error_is_marked I2cError.internal_error = refl

module _ (ops : List Operation) (response : List ℕ) where
  pub read_response-error :
      (e : I2cError)
      → read_response ops response_size (copy_at response 0 (error_bytes e))
        ≡ (ops, err (ClientError.server_error e))
  unfolding read_response error_bytes
  read_response-error e = rw (error_is_marked e, error_from_u8-byte e) refl

  -- What stands behind the response in the buffer.
  abbrev pub tail_of : ℕ → List ℕ
  tail_of n = drop (response_size + n) (copy_at response 0 (success_bytes (length (reads ops))))

  -- The response to a transaction that succeeded, where `total` is what the reads hold together.
  pub read_response-success :
      (bytes : List ℕ)
      → length bytes ≡ length (reads ops)
      → length (reads ops) < 2 ^ 16
      → read_response ops
          (response_size + length (reads ops))
          (copy_at (copy_at response 0 (success_bytes (length (reads ops)))) response_size bytes)
        ≡ (scatter ops (bytes ++ tail_of (length bytes)), ok tt)
  unfolding read_response success_bytes
  read_response-success bytes e small =
      rw (u16_from-bytes (length (reads ops)) small, same, whole) refl
    where
      same : (length (reads ops) == length (reads ops)) ≡ true
      same = ground arith

      whole : ltb (response_size + length (reads ops)) (response_size + length (reads ops)) ≡ false
      whole = ground arith

  pub scatter-Serves :
      (bytes rest : List ℕ)
      → length bytes ≡ length (reads ops)
      → (reads (scatter ops (bytes ++ rest)) ≡ bytes)
        × (bus_ops (scatter ops (bytes ++ rest)) ≡ bus_ops ops)
  scatter-Serves bytes rest e = (
    reads-scatter ops (bytes ++ rest) enough
        ∙ ap (λ n. take n (bytes ++ rest)) (sym e)
        ∙ take-append bytes rest,
    bus_ops-scatter ops (bytes ++ rest) enough,
  )
    where
      enough : length (reads ops) ≤ length (bytes ++ rest)
      enough = omega (arith, length-append bytes rest)
