-- ===== src/I2c/Slave/Fetching.antt =====
-- services/i2c/client/src/lib.rs over services/i2c/server-runtime/src/lib.rs: what a client fetches of
-- the bytes that an interrupt has latched.
use openprot.Prelude.{
  subst, ℕ, ◌+◌, ◌-◌, ◌≤◌, ◌<◌, ◌≡◌, refl, ap, ◌∙◌, false, ◌==◌, ltb, List, length, take,
  length-zeros, min, zeros, copy_at, ok, u16_from-bytes, arith,
}
use openprot.I2c.{
  I2cOp, op_byte, new_request, op_from_u8, request_from_bytes, response_size, max_payload_size,
}
use openprot.I2c.Client.{Transport}
use openprot.I2c.Runtime.{Driver, Slot, Handled, fetched, handle_request}
use openprot.I2c.Slave.{checked, unpacked, max_of, slave_receive}
use openprot.I2c.Slave.Unpacking.{outcome, unpacked-latched}

-- A request of `slave_receive`.
abbrev request : ℕ → List ℕ
request max_len = new_request I2cOp.slave_receive 0 max_len 0

module _ (driver : Driver) where
  -- How the channel hands a request to the server and its response, if the client has room for it, to
  -- the client.
  pub record Delivers (send : Transport (Slot driver × List ℕ)) : Type 0 where
    pub delivers :
        (slot : Slot driver) (response req resp : List ℕ)
        → (handle_request driver slot req response).2 ≤ length resp
        → let handled = handle_request driver slot req response in
          send (slot, response) req resp
          ≡ ((handled.0, handled.1), copy_at resp 0 (take handled.2 handled.1), ok handled.2)

  request-fetched :
      (slot : Slot driver) (response : List ℕ) (max_len : ℕ)
      → max_len ≤ max_payload_size
      → 0 < slot.rx_len
      → length response ≡ 512
      → handle_request driver slot (request max_len) response
        ≡ fetched driver max_len (record slot { user_signal = false }) response
  unfolding handle_request request_from_bytes new_request op_from_u8 op_byte
  request-fetched slot response max_len small some_bytes long =
      rw (u16_from-bytes max_len (omega arith), latched, roomy) refl
    where
      latched : (slot.rx_len == 0) ≡ false
      latched = ground arith

      roomy : ltb (length response - response_size) 1 ≡ false
      roomy = ground arith

  -- The channel delivers a response that the server is known to give.
  delivered :
      (send : Transport (Slot driver × List ℕ)) (slot : Slot driver) (response req resp : List ℕ)
      (h : Handled driver)
      → Delivers send
      → handle_request driver slot req response ≡ h
      → h.2 ≤ length resp
      → send (slot, response) req resp ≡ ((h.0, h.1), copy_at resp 0 (take h.2 h.1), ok h.2)
  delivered send slot response req resp h channel e =
      subst
        (λ (h : Handled driver).
          h.2 ≤ length resp
          → send (slot, response) req resp ≡ ((h.0, h.1), copy_at resp 0 (take h.2 h.1), ok h.2))
        e (channel.delivers slot response req resp)

  -- How much of the latched bytes the client gets.
  abbrev got : Slot driver → List ℕ → ℕ
  got slot buf = min slot.rx_len (max_of buf)

  -- Over a channel that delivers requests and responses, a client that fetches from a latch that is not
  -- empty gets the kind of the event and, from the first on, as many of the bytes as its buffer has room
  -- for less one. The latch is empty then, and the result never says that bytes were left out. The
  -- buffers of the latch and of the server are as long as `run` makes them, and at most 255 bytes are
  -- fetched, for which the client's response buffer has room.
  pub slave_receive-latched :
      (send : Transport (Slot driver × List ℕ)) (slot : Slot driver) (response buf : List ℕ)
      → Delivers send
      → length response ≡ 512
      → length slot.rx ≡ max_payload_size
      → 0 < slot.rx_len
      → got slot buf < max_payload_size
      → let out = slave_receive send (slot, response) buf in
        (out.0.0 ≡ record slot { rx_len = 0; user_signal = false })
        × (out.1 ≡ outcome buf (take (got slot buf) slot.rx) slot.rx_event_kind (got slot buf))
  unfolding slave_receive
  slave_receive-latched send slot response buf channel long wide some_bytes short = (
    ap (λ x. x.0.0) sent,
    ap (λ x. unpacked buf (checked x.1 x.2)) sent
        ∙ unpacked-latched buf resp response slot.rx slot.rx_event_kind n (omega arith)
            (omega arith) (omega arith) (omega arith)
        ∙ ap (λ k. outcome buf (take k slot.rx) slot.rx_event_kind k) same,
  )
    where
      resp : List ℕ
      resp = zeros (response_size + max_payload_size)

      n : ℕ
      n = min (min slot.rx_len (max_of buf)) (length response - response_size - 1)

      same : n ≡ got slot buf
      same = omega arith

      f : Handled driver
      f = fetched driver (max_of buf) (record slot { user_signal = false }) response

      sent :
          send (slot, response) (request (max_of buf)) resp
          ≡ ((f.0, f.1), copy_at resp 0 (take f.2 f.1), ok f.2)
      sent =
          delivered send slot response (request (max_of buf)) resp f channel
            (request-fetched slot response (max_of buf) (omega arith) some_bytes long)
            (omega (arith, length-zeros (response_size + max_payload_size)))
