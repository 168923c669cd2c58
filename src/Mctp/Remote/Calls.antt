-- ===== src/Mctp/Remote/Calls.antt =====
-- services/mctp/client-ipc and services/mctp/server: a client's calls over the channel, beside the
-- server's methods called directly. `recv`, which may wait, has a module of its own.
use openprot.Mctp.Remote.Replies.{dispatch-bytes, sends}
use openprot.Mctp.Wire.RoundTrip.{length-response_bytes}
use openprot.Prelude.{
  copy_at, length-copy_front, ◌∙◌, ℕ, ◌^◌, ◌≤◌, ◌<◌, ◌≡◌, refl, ap, Bool, Option, none, some, List,
  [], Result, length, arith,
}
use openprot.Mctp.{op_from_u8, MctpOp, MctpError}
use openprot.Mctp.Wire.{
  write_header, request_bytes, MctpRequestHeader, WireError, MctpResponseHeader, response_bytes,
}
use openprot.Mctp.Wire.Buffers.{write_header-Wrote, Wrote}
use openprot.Mctp.Stack.{Router, LinearMap}
use openprot.Mctp.Server
use openprot.Mctp.Server.{PendingRecv, Server}
use openprot.Mctp.Server.Dispatch.{dispatch_op, dispatch_mctp_op, replied}
use openprot.Mctp.Client
use openprot.Mctp.Client.{IpcMctpClient, request}
use openprot.Mctp.Remote.{World, channel}
use openprot.Mctp.Remote.Exchange.{exchange, header_result, Fits}

pub data Call : Type 0 where
  set_eid : ℕ → Call
  get_eid : Call
  listener : ℕ → Call
  req : ℕ → Call
  send : Option ℕ → ℕ → Option ℕ → Option ℕ → Bool → List ℕ → Call
  drop_handle : ℕ → Call

abbrev pub Answer : Call → Type 0
Answer (Call.set_eid _) = Result {0, 0} MctpError Unit
Answer Call.get_eid = ℕ
Answer (Call.listener _) = Result {0, 0} MctpError ℕ
Answer (Call.req _) = Result {0, 0} MctpError ℕ
Answer (Call.send _ _ _ _ _ _) = Result {0, 0} MctpError ℕ
Answer (Call.drop_handle _) = Unit

-- A handle of 32 bits, and a payload that a message may have.
abbrev pub IsSendable : Call → Type 0
IsSendable (Call.send none _ _ _ _ payload) = length payload ≤ 1023
IsSendable (Call.send (some handle) _ _ _ _ payload) = (handle < 2 ^ 32) × (length payload ≤ 1023)
IsSendable (Call.drop_handle handle) = handle < 2 ^ 32
IsSendable _ = Unit

module _ (rt : Router) (map : LinearMap PendingRecv) where
  -- The call through the client.
  abbrev pub remote :
      (call : Call) → IpcMctpClient → World rt map → IpcMctpClient × World rt map × Answer call
  remote (Call.set_eid eid) c w = Client.set_eid (channel rt map) c w eid
  remote Call.get_eid c w = Client.get_eid (channel rt map) c w
  remote (Call.listener typ) c w = Client.listener (channel rt map) c w typ
  remote (Call.req eid) c w = Client.req (channel rt map) c w eid
  remote (Call.send handle typ eid tag ic payload) c w =
      Client.send (channel rt map) c w handle typ eid tag ic payload
  remote (Call.drop_handle handle) c w =
      let (c', w') = Client.drop_handle (channel rt map) c w handle in (c', w', tt)

  -- The server's own method.
  abbrev pub local : (call : Call) → Server rt map → Server rt map × Answer call
  local (Call.set_eid eid) s = Server.set_eid rt map s eid
  local Call.get_eid s = (s, Server.get_eid rt map s)
  local (Call.listener typ) s = Server.listener rt map s typ
  local (Call.req eid) s = Server.req rt map s eid
  local (Call.send handle typ eid tag ic payload) s =
      Server.send rt map s handle typ eid tag ic payload
  local (Call.drop_handle handle) s = ((Server.unbind rt map s handle).0, tt)

  -- The buffers have the lengths that `IpcMctpClient::new` and the server's process give them.
  abbrev pub IsReady : IpcMctpClient → World rt map → Type 0
  IsReady c w =
      (length c.request_buf ≡ 1035) × (length c.response_buf ≡ 1035) × (length w.response ≡ 1035)

  length-copy_header :
      (buf : List ℕ) (h : MctpResponseHeader)
      → length buf ≡ 1035
      → length (copy_at buf 0 (response_bytes h)) ≡ 1035
  length-copy_header buf h e =
      length-copy_front buf (response_bytes h) (omega (arith, length-response_bytes h)) ∙ e

  -- What a request leaves when the dispatch answers it with a header.
  pub through :
      (c : IpcMctpClient) (w : World rt map) (enc : List ℕ × Result {0, 0} WireError ℕ)
      (bytes : List ℕ) (s : Server rt map) (h : MctpResponseHeader)
      → IsReady c w
      → Wrote (length c.request_buf) bytes enc
      → length bytes ≤ 1035
      → Fits h
      → dispatch_mctp_op rt map bytes w.response w.server w.recv_buf w.now
        ≡ some (replied rt map s w.recv_buf (copy_at w.response 0 (response_bytes h), 12))
      → let (c', w', r) = request (channel rt map) c w enc in
        (w'.server ≡ s) × (r ≡ header_result h) × IsReady c' w'
  through c w enc bytes s h ready wrote small fits served =
      rw (exchange rt map c w enc bytes s h wrote small fits served) (
        refl,
        refl,
        (
          omega (arith, wrote.2, ready.0),
          length-copy_header c.response_buf h ready.1,
          length-copy_header w.response h ready.2,
        ),
      )

  -- The same for a request that is a header, through the arm of its operation.
  pub header_through :
      (c : IpcMctpClient) (w : World rt map) (op : MctpOp) (q : MctpRequestHeader)
      (s : Server rt map) (h : MctpResponseHeader)
      → IsReady c w
      → op_from_u8 q.op ≡ some op
      → q.handle < 2 ^ 32
      → Fits h
      → dispatch_op rt map op (request_bytes q) q w.response w.server w.recv_buf w.now
        ≡ some (replied rt map s w.recv_buf (sends w.response h))
      → let (c', w', r) =
          request (channel rt map) c w (write_header c.request_buf (request_bytes q)) in
        (w'.server ≡ s) × (r ≡ header_result h) × IsReady c' w'
  unfolding request_bytes
  header_through c w op q s h ready e fits_q fits served =
      through c w (write_header c.request_buf (request_bytes q)) (request_bytes q) s h ready
        (write_header-Wrote c.request_buf (request_bytes q) refl (omega (arith, ready.0)))
        (omega arith) fits
        (dispatch-bytes rt map op q [] w.response w.server w.recv_buf w.now e fits_q ∙ served)

  pub conclude :
      {R : Type 0} (f : Result {0, 0} MctpError (MctpResponseHeader × ℕ) → R) {s' s : Server rt map}
      {r : Result {0, 0} MctpError (MctpResponseHeader × ℕ)} (h : MctpResponseHeader) {a : R}
      → s' ≡ s
      → r ≡ header_result h
      → f (header_result h) ≡ a
      → ◌≡◌ {A = Server rt map × R} (s', f r) (s, a)
  conclude f h es er ea = λ i. (es i, (ap f er ∙ ea) i)
