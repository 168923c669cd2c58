-- ===== src/I2c/Loopback.antt =====
-- services/i2c/server/src/loopback.rs, the transport that runs the server in the client's process, and
-- what a client on it does: it runs its transaction on the bus.
use openprot.I2c.Responses.{tail_of, scatter-Serves, read_response-success, read_response-error}
use openprot.Prelude.{
  some, false, ◌∙◌, ap, length-zeros, ◌%◌, arith, ◌||◌, ltb, refl, ℕ, ◌+◌, ◌*◌, ◌≤◌, ◌<◌, ◌≡◌, List,
  length, zeros, Result, ok, err,
}
use openprot.I2c.{
  NoAcknowledgeSource, error_kind, response_size, op_byte, desc_size, op_from_u8, request_size,
  Operation, ErrorKind, max_ops, max_payload_size, written, reads,
}
use openprot.I2c.Server.{
  encode_error, decoded, run_request, run_ops, Bus, Outcome, Answer, kind_to_wire, dispatch,
  settled,
}
use openprot.I2c.Client.{
  too_large, received, Transport, TransportError, ClientError, Called, kind, transact, request_of,
}
use openprot.I2c.Requests.{
  read_total-reads, scan-descs, drop-request, header_of, build-written, drop-request_and_descs,
  total_of-reads, total_of-written, request_from_bytes-request, length-request, metas_of, Fits,
  bus_ops,
}

abbrev pub answered : {S : Type 0} → Answer S → S × List ℕ × Result {0, 0} TransportError ℕ
answered (s, resp, n) = (s, resp, ok n)

-- `LoopbackTransport::transact`
unfoldable pub loopback : (bus : Bus) → Transport bus.State
loopback bus s req resp = answered (dispatch bus s req resp)

-- What a caller sees of a transaction that the bus has carried out or has failed: the state of the bus
-- is what it left; on success the reads hold what the bus read, in order, the writes and all lengths
-- are as they were; on failure the operations are as they were, and the error is of the kind that the
-- bus reported.
abbrev pub Serves : {S : Type 0} → List Operation → Outcome S → S × Called → Type 0
Serves ops (s, ok bytes) (s', (ops', result)) =
    (s' ≡ s) × (result ≡ ok tt) × (reads ops' ≡ bytes) × (bus_ops ops' ≡ bus_ops ops)
Serves {S = S} ops (s, err k) out =
    (out ≡ (s, (ops, err (ClientError.server_error (kind_to_wire k)))))
    × (kind (ClientError.server_error (kind_to_wire k)) ≡ k)

module _ (bus : Bus) (s : bus.State) (address : ℕ) (ops : List Operation) (response : List ℕ) where
  abbrev request : List ℕ
  request = request_of address ops

  abbrev write_base : ℕ
  write_base = request_size + length ops * desc_size

  -- The bounds that the server tests hold of a request that the client sends.
  run_ops-settled :
      Fits ops
      → response_size + length (reads ops) ≤ length response
      → run_ops bus s address write_base request response (ok (metas_of ops))
        ≡ settled response (length (reads ops)) (bus.transaction s address (bus_ops ops))
  run_ops-settled (count, w, r) room =
      rw
        (
          total_of-written ops,
          total_of-reads ops,
          length-request address ops,
          drop-request_and_descs address ops,
          build-written ops,
          within,
        )
        refl
    where
      within :
          (ltb max_payload_size (length (written ops))
            || ltb max_payload_size (length (reads ops))
            || ltb (write_base + length (written ops)) (write_base + length (written ops))
            || ltb (length response) (response_size + length (reads ops)))
          ≡ false
      within = ground arith

  decoded-run :
      decoded bus s (some (header_of address ops)) request response
      ≡ run_request bus s (header_of address ops) request response
  unfolding op_from_u8 op_byte
  decoded-run = refl

  run_request-settled :
      address < 128
      → Fits ops
      → response_size + length (reads ops) ≤ length response
      → run_request bus s (header_of address ops) request response
        ≡ settled response (length (reads ops)) (bus.transaction s address (bus_ops ops))
  run_request-settled small (count, w, r) room =
      rw
        (
          few,
          described,
          same_address,
          drop-request address ops,
          scan-descs ops (written ops) (omega arith) (omega arith),
        )
        (run_ops-settled (count, w, r) room)
    where
      few : ltb max_ops (length ops) ≡ false
      few = ground arith

      described : ltb (length request) write_base ≡ false
      described = rw (length-request address ops) (ground arith)

      same_address : address % 256 ≡ address
      same_address = omega arith

  dispatch-request :
      address < 128
      → Fits ops
      → response_size + length (reads ops) ≤ length response
      → dispatch bus s request response
        ≡ settled response (length (reads ops)) (bus.transaction s address (bus_ops ops))
  unfolding dispatch
  dispatch-request small fits room =
      rw (long_enough, request_from_bytes-request address ops small fits, decoded-run)
        (run_request-settled small fits room)
    where
      long_enough : ltb (length request) request_size ≡ false
      long_enough = rw (length-request address ops) (ground arith)

kind_back : (k : ErrorKind) → error_kind (kind_to_wire k) ≡ k
unfolding error_kind kind_to_wire
kind_back (ErrorKind.no_acknowledge NoAcknowledgeSource.address) = refl
kind_back (ErrorKind.no_acknowledge NoAcknowledgeSource.data_byte) = refl
kind_back (ErrorKind.no_acknowledge NoAcknowledgeSource.unknown) = refl
kind_back ErrorKind.arbitration_loss = refl
kind_back ErrorKind.bus = refl
kind_back ErrorKind.overrun = refl
kind_back ErrorKind.other = refl

-- What the client makes of the server's response.
received-Serves :
    {S : Type 0} (ops : List Operation) (response : List ℕ) (o : Outcome S)
    → length (reads ops) ≤ max_payload_size
    → ((s : S) (bytes : List ℕ) → o ≡ (s, ok bytes) → length bytes ≡ length (reads ops))
    → Serves ops o (received ops (answered (settled response (length (reads ops)) o)))
unfolding encode_error kind
received-Serves ops response (s, err k) small fills =
    (ap (λ called. (s, called)) (read_response-error ops response (kind_to_wire k)), kind_back k)
received-Serves ops response (s, ok bytes) small fills =
    let e = fills s bytes refl in
    let arrives = read_response-success ops response bytes e (omega arith) in
    let both = scatter-Serves ops response bytes (tail_of ops response (length bytes)) e in
    rw (arrives, whole) (refl, refl, both.0, both.1)
  where
    whole : ltb (response_size + length (reads ops)) response_size ≡ false
    whole = ground arith

transact-dispatch :
    {S : Type 0} (send : Transport S) (s : S) (address : ℕ) (ops : List Operation)
    → Fits ops
    → transact send s address ops ≡ received ops (send s (request_of address ops) (zeros 512))
unfolding transact
transact-dispatch send s address ops (count, w, r) = rw (few, small) refl
  where
    few : ltb max_ops (length ops) ≡ false
    few = ground arith

    small : too_large ops ≡ false
    small = ground arith

-- A transaction with a 7-bit address that has at most 16 operations, and at most 256 bytes to write and
-- 256 to read, serves the caller of a client on the in-process transport as the bus itself would: the
-- bus carries out the caller's operations in one transaction, and of its state, the bytes that it read
-- and the kind of its error nothing is lost on the way through the wire format.
pub transact-Serves :
    (bus : Bus) (s : bus.State) (address : ℕ) (ops : List Operation)
    → address < 128
    → Fits ops
    → Serves ops (bus.transaction s address (bus_ops ops)) (transact (loopback bus) s address ops)
unfolding loopback
transact-Serves bus s address ops small fits =
    rw
      (
        transact-dispatch (loopback bus) s address ops fits,
        dispatch-request bus s address ops (zeros 512) small fits room,
      )
      (received-Serves ops (zeros 512) (bus.transaction s address (bus_ops ops)) fits.2
        (λ s' bytes e. bus.fills s s' address (bus_ops ops) bytes e ∙ read_total-reads ops))
  where
    room : response_size + length (reads ops) ≤ length (zeros 512)
    room = omega (arith, fits.2, length-zeros 512)
