-- ===== src/I2c/Answers.antt =====
-- services/i2c/server/src/lib.rs: what `dispatch` does with a request of any bytes.
use openprot.Prelude.{
  length-take, length-take, ◌/◌, ℕ, ◌+◌, ◌*◌, ◌%◌, ◌≤◌, ◌<◌, ◌≡◌, refl, ap, ◌∙◌, sym, ◌⊎◌, inl, inr,
  Bool, true, false, Bool-cases, List, [], ◌∷◌, ◌++◌, length, take, drop, length-append,
  length-drop, length-copy_front, copy_at, u16_from, u16_from-bytes, arith, Option, none, some,
  Result, ok, err, ltb,
}
use openprot.I2c.{
  op_from_u8, request_from_bytes, error_byte, I2cOp, I2cError, I2cRequestHeader, error_bytes,
  success_bytes, response_size, max_ops, max_payload_size, request_size, desc_size,
}
use openprot.I2c.Server.{
  exceeds, selected, kind_to_wire, Bus, BusOp, Outcome, Answer, read_total, write_total,
  encode_error, settled, dispatch, build, total_of, run_ops, run_request, decoded, scan,
}
use openprot.I2c.Passes.{Counts, length-build, read_total-build, write_total-build, scan-Counts}

-- A response of `n` bytes at the front of a buffer: the header, which counts the bytes behind it.
pub record IsResponse (resp : List ℕ) (n : ℕ) : Type 0 where
  pub fits : n ≤ length resp
  pub status : ℕ
  pub low : ℕ
  pub high : ℕ
  pub header : take response_size resp ≡ status ∷ 0 ∷ low ∷ high ∷ []
  pub counts : n ≡ response_size + u16_from low high

-- One transaction on the bus, within the bounds of the protocol.
pub record Transacted (bus : Bus) (s s' : bus.State) : Type 0 where
  pub address : ℕ
  pub ops : List BusOp
  pub seven_bits : address < 256
  pub few : length ops ≤ max_ops
  pub writes : write_total ops ≤ max_payload_size
  pub reads : read_total ops ≤ max_payload_size
  pub after : s' ≡ (bus.transaction s address ops).0

-- A response of the length that is returned, in a buffer as long as before, and the bus not used, or
-- used for one transaction.
abbrev pub Answers : (bus : Bus) → bus.State → ℕ → Answer bus.State → Type 0
Answers bus s room (s', resp, n) =
    (length resp ≡ room) × IsResponse resp n × ((s' ≡ s) ⊎ Transacted bus s s')

module _ (bus : Bus) (s : bus.State) (response : List ℕ)
    (room : response_size ≤ length response) where
  encode_error-Answers :
      (s' : bus.State) (e : I2cError)
      → (s' ≡ s) ⊎ Transacted bus s s'
      → Answers bus s (length response) (encode_error s' response e)
  unfolding encode_error error_bytes
  encode_error-Answers s' e used = (
    length-copy_front response (error_bytes e) room,
    record {
      fits = rw (length-copy_front response (error_bytes e) room) room;
      status = error_byte e;
      low = 0;
      high = 0;
      header = refl;
      counts = omega arith;
    },
    used,
  )

  refused : (e : I2cError) → Answers bus s (length response) (encode_error s response e)
  refused e = encode_error-Answers s e (inl refl)

  -- A response with `total` bytes behind the header.
  length-response :
      (header bytes : List ℕ)
      → length header ≡ response_size
      → response_size + length bytes ≤ length response
      → length (copy_at (copy_at response 0 header) response_size bytes) ≡ length response
  length-response header bytes four enough = omega (
    arith,
    length-append (take response_size front ++ bytes) (drop (response_size + length bytes) front),
    length-append (take response_size front) bytes,
    length-take response_size front (omega (arith, same)),
    length-drop (response_size + length bytes) front,
    same,
  )
    where
      front : List ℕ
      front = copy_at response 0 header

      same : length front ≡ length response
      same = length-copy_front response header (omega arith)

  settled-Answers :
      (total : ℕ) (o : Outcome bus.State)
      → response_size + total ≤ length response
      → total ≤ max_payload_size
      → ((s' : bus.State) (bytes : List ℕ) → o ≡ (s', ok bytes) → length bytes ≡ total)
      → Transacted bus s o.0
      → Answers bus s (length response) (settled response total o)
  unfolding success_bytes
  settled-Answers total (s', err k) enough small fills used =
      encode_error-Answers s' (kind_to_wire k) (inr used)
  settled-Answers total (s', ok bytes) enough small fills used = (
    same_length,
    record {
      fits = rw same_length enough;
      status = 0;
      low = total % 256;
      high = total / 256 % 256;
      header = refl;
      counts = ap (◌+◌ response_size) (sym (u16_from-bytes total (omega arith)));
    },
    inr used,
  )
    where
      same_length :
          length (copy_at (copy_at response 0 (success_bytes total)) response_size bytes)
          ≡ length response
      same_length =
          length-response (success_bytes total) bytes refl (omega (arith, fills s' bytes refl))

  run_ops-Answers :
      (address write_base n : ℕ) (request : List ℕ) (r : Result {0, 0} I2cError (List (Bool × ℕ)))
      → address < 256
      → n ≤ max_ops
      → Counts n r
      → Answers bus s (length response) (run_ops bus s address write_base request response r)
  run_ops-Answers address write_base n request (err e) small few counted = refused e
  run_ops-Answers address write_base n request (ok metas) small few counted =
      elim (Bool-cases (exceeds request write_base response metas)) [
        | inl y ↦ rw y (refused I2cError.buffer_too_small)
        | inr within ↦
            let few_written : total_of false metas ≤ max_payload_size = ground arith in
            let few_read : total_of true metas ≤ max_payload_size = ground arith in
            rw within (
              settled-Answers reads_of (bus.transaction s address ops_of) (ground arith)
                (ground arith)
                (λ s' bytes e.
                  bus.fills s s' address ops_of bytes e ∙ read_total-build metas payload)
                record {
                  address = address;
                  ops = ops_of;
                  seven_bits = small;
                  few = omega (arith, length-build metas payload);
                  writes = omega (arith, write_total-build metas payload, few_written);
                  reads = omega (arith, read_total-build metas payload, few_read);
                  after = refl;
                })
      ]
    where
      payload : List ℕ
      payload = drop write_base request

      ops_of : List BusOp
      ops_of = build metas payload

      reads_of : ℕ
      reads_of = total_of true metas

  run_request-Answers :
      (hdr : I2cRequestHeader) (request : List ℕ)
      → Answers bus s (length response) (run_request bus s hdr request response)
  run_request-Answers hdr request = elim (Bool-cases (ltb max_ops hdr.op_count)) [
    | inl many ↦ rw many (refused I2cError.too_many_operations)
    | inr few ↦ elim (Bool-cases (ltb (length request) (request_size + hdr.op_count * desc_size))) [
      | inl short ↦ rw (few, short) (refused I2cError.buffer_too_small)
      | inr long ↦
          rw (few, long)
            (run_ops-Answers (hdr.address % 256) (request_size + hdr.op_count * desc_size)
              hdr.op_count request (scan hdr.op_count (drop request_size request)) (omega arith)
              (ground arith) (scan-Counts hdr.op_count (drop request_size request)))
    ]
  ]

  selected-Answers :
      (op : Result {0, 0} I2cError I2cOp) (hdr : I2cRequestHeader) (request : List ℕ)
      → Answers bus s (length response) (selected bus s op hdr request response)
  selected-Answers (err e) hdr request = refused I2cError.invalid_operation
  selected-Answers (ok I2cOp.transaction) hdr request = run_request-Answers hdr request
  selected-Answers (ok I2cOp.configure_slave) hdr request = refused I2cError.invalid_operation
  selected-Answers (ok I2cOp.enable_slave) hdr request = refused I2cError.invalid_operation
  selected-Answers (ok I2cOp.disable_slave) hdr request = refused I2cError.invalid_operation
  selected-Answers (ok I2cOp.enable_slave_notification) hdr request =
      refused I2cError.invalid_operation
  selected-Answers (ok I2cOp.disable_slave_notification) hdr request =
      refused I2cError.invalid_operation
  selected-Answers (ok I2cOp.slave_receive) hdr request = refused I2cError.invalid_operation
  selected-Answers (ok I2cOp.slave_set_response) hdr request = refused I2cError.invalid_operation

  decoded-Answers :
      (header : Option I2cRequestHeader) (request : List ℕ)
      → Answers bus s (length response) (decoded bus s header request response)
  decoded-Answers none request = refused I2cError.invalid_operation
  decoded-Answers (some hdr) request = selected-Answers (op_from_u8 hdr.op_code) hdr request

  -- Whatever bytes a request has, and for a response buffer with room for a header, the server answers:
  -- what it leaves in the buffer is a header that counts the bytes behind it, of the length it returns,
  -- and within the buffer. The bus has not been used, or has run one transaction, of at most 16
  -- operations that write and read at most 256 bytes each in all.
  pub dispatch-Answers :
      (request : List ℕ) → Answers bus s (length response) (dispatch bus s request response)
  unfolding dispatch
  dispatch-Answers request = elim (Bool-cases (ltb (length request) request_size)) [
    | inl short ↦ rw short (refused I2cError.invalid_operation)
    | inr long ↦ rw long (decoded-Answers (request_from_bytes request) request)
  ]
