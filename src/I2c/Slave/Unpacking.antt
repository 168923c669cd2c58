-- ===== src/I2c/Slave/Unpacking.antt =====
-- What the client (services/i2c/client/src/lib.rs) makes of the response that the server
-- (services/i2c/server-runtime/src/lib.rs) puts together for `SlaveReceive`.
use openprot.Prelude.{
  subst, append_assoc, ◌^◌, ℕ, suc, ◌+◌, ◌-◌, ◌%◌, ◌/◌, ◌≤◌, ◌<◌, ◌≡◌, refl, ap, ◌∙◌, sym, false,
  ltb, List, [], ◌∷◌, ◌++◌, length, take, drop, take-append, drop-append, length-take, min, copy_at,
  ok, some, u16_from-bytes, arith,
}
use openprot.I2c.{response_size, success_bytes}
use openprot.I2c.Runtime.{SlaveEvent, event_byte, event_from_u8}
use openprot.I2c.Slave.{copied, checked, unpacked, Fetched, payload_of}

-- Bytes at the front of the caller's buffer, none of which is said to be left out.
abbrev pub outcome : List ℕ → List ℕ → SlaveEvent → ℕ → Fetched
outcome buf bytes kind data_len =
    (copy_at buf 0 bytes, ok record { kind = kind; data_len = data_len; truncated = false })

-- What `SlaveReceive` leaves at the front of the response buffer.
behind :
    (response payload : List ℕ)
    → response_size ≤ length response
    → drop response_size (copy_at response response_size payload)
      ≡ payload ++ drop (response_size + length payload) response
behind response payload room =
    ap (λ (n : ℕ). drop n (copy_at response response_size payload))
      (sym (length-take response_size response room))
    ∙ ap (drop (length front)) (append_assoc front payload rest)
    ∙ drop-append front (payload ++ rest)
  where
    front : List ℕ
    front = take response_size response

    rest : List ℕ
    rest = drop (response_size + length payload) response

take-response :
    (response payload : List ℕ) (status reserved low high : ℕ)
    → response_size ≤ length response
    → take
        (response_size + length payload)
        (copy_at (copy_at response response_size payload) 0 (status ∷ reserved ∷ low ∷ high ∷ []))
      ≡ status ∷ reserved ∷ low ∷ high ∷ payload
take-response response payload status reserved low high room =
    ap
      (λ (n : ℕ).
        take n (
          copy_at (copy_at response response_size payload) 0 (status ∷ reserved ∷ low ∷ high ∷ [])))
      {x = response_size + length payload} {y = suc (suc (suc (suc (length payload))))}
      (omega arith)
    ∙ ap (λ bytes. status ∷ reserved ∷ low ∷ high ∷ take (length payload) bytes)
        (behind response payload room)
    ∙ ap (λ bytes. status ∷ reserved ∷ low ∷ high ∷ bytes)
        (take-append payload (drop (response_size + length payload) response))

event_from_u8-byte : (kind : SlaveEvent) → event_from_u8 (event_byte kind) ≡ some kind
unfolding event_from_u8 event_byte
event_from_u8-byte SlaveEvent.data_received = refl
event_from_u8-byte SlaveEvent.read_request = refl
event_from_u8-byte SlaveEvent.stop = refl

copied-all :
    (buf rest bytes : List ℕ) (kind : SlaveEvent) (n : ℕ)
    → length bytes ≤ length buf
    → n ≡ length bytes
    → copied buf n (bytes ++ rest) (some kind) ≡ outcome buf bytes kind (length bytes)
copied-all buf rest bytes kind n fits e = rw (e, all_of_it, whole, take-append bytes rest) refl
  where
    all_of_it : min (length bytes) (length buf) ≡ length bytes
    all_of_it = omega arith

    whole : ltb (length bytes) (length bytes) ≡ false
    whole = ground arith

-- What the client makes of the response.
unpacked-response :
    (buf rest bytes : List ℕ) (kind : SlaveEvent)
    → length bytes ≤ length buf
    → length bytes < 2 ^ 15
    → unpacked buf (
        checked
          (0
              ∷ 0
              ∷ (1 + length bytes) % 256
              ∷ (1 + length bytes) / 256 % 256
              ∷ event_byte kind
              ∷ bytes
            ++ rest)
          (ok (response_size + (1 + length bytes))))
      ≡ outcome buf bytes kind (length bytes)
unfolding payload_of
unpacked-response buf rest bytes kind fits small =
    rw
      (
        u16_from-bytes (1 + length bytes) (omega arith),
        whole,
        headed,
        marked,
        event_from_u8-byte kind,
      )
      (copied-all buf rest bytes kind (1 + length bytes - 1) fits (omega arith))
  where
    headed : ltb (response_size + (1 + length bytes)) response_size ≡ false
    headed = ground arith

    marked : ltb (1 + length bytes) 1 ≡ false
    marked = ground arith

    whole : ltb (response_size + (1 + length bytes)) (response_size + (1 + length bytes)) ≡ false
    whole = ground arith

-- A response that the server has put together, in the client's buffer.
unpacked-fetched :
    (buf resp response bytes : List ℕ) (kind : SlaveEvent)
    → length bytes ≤ length buf
    → length bytes < 2 ^ 15
    → response_size ≤ length response
    → let total = response_size + (1 + length bytes) in
      let left = copy_at response response_size (event_byte kind ∷ bytes) in
      unpacked buf (
        checked
          (copy_at resp 0 (take total (copy_at left 0 (success_bytes (1 + length bytes)))))
          (ok total))
      ≡ outcome buf bytes kind (length bytes)
unfolding success_bytes
unpacked-fetched buf resp response bytes kind fits small room =
    ap (λ front. unpacked buf (checked (copy_at resp 0 front) (ok total)))
      (ap (λ (n : ℕ). take n (copy_at left 0 header)) {x = total}
          {y = response_size + length (event_byte kind ∷ bytes)} (omega arith)
        ∙ take-response response (event_byte kind ∷ bytes) 0 0 ((1 + length bytes) % 256)
            ((1 + length bytes) / 256 % 256) room)
    ∙ unpacked-response buf (drop (0 + length (header ++ event_byte kind ∷ bytes)) resp) bytes kind
        fits small
  where
    total : ℕ
    total = response_size + (1 + length bytes)

    left : List ℕ
    left = copy_at response response_size (event_byte kind ∷ bytes)

    header : List ℕ
    header = 0 ∷ 0 ∷ (1 + length bytes) % 256 ∷ (1 + length bytes) / 256 % 256 ∷ []

-- The same for so many of the bytes of a latch.
pub unpacked-latched :
    (buf resp response rx : List ℕ) (kind : SlaveEvent) (n : ℕ)
    → n ≤ length rx
    → n ≤ length buf
    → n < 2 ^ 15
    → response_size ≤ length response
    → let left = copy_at response response_size (event_byte kind ∷ take n rx) in
      let total = response_size + (1 + n) in
      unpacked buf
        (checked (copy_at resp 0 (take total (copy_at left 0 (success_bytes (1 + n))))) (ok total))
      ≡ outcome buf (take n rx) kind n
unpacked-latched buf resp response rx kind n within fits small room =
    subst
      (λ k.
        let left = copy_at response response_size (event_byte kind ∷ take n rx) in
        let total = response_size + (1 + k) in
        unpacked buf (
          checked (copy_at resp 0 (take total (copy_at left 0 (success_bytes (1 + k))))) (ok total))
        ≡ outcome buf (take n rx) kind k)
      as_long
      (unpacked-fetched buf resp response (take n rx) kind (omega (arith, as_long))
        (omega (arith, as_long)) room)
  where
    as_long : length (take n rx) ≡ n
    as_long = length-take n rx within
