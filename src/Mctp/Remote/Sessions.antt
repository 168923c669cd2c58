-- ===== src/Mctp/Remote/Sessions.antt =====
-- services/mctp/client-ipc and services/mctp/server: each call over the channel answers as the
-- server's method does.
use openprot.Mctp.Remote.Replies.{reply_unit-sends, op_from_u8-byte, unit_header, unit-arrives}
use openprot.Mctp.Wire.Requests.{
  encode_get_eid, encode_listener, encode_req, encode_unbind, encode_set_eid,
}
use openprot.Prelude.{ℕ, ◌^◌, ◌<◌, ◌≡◌, refl, ap, some, arith}
use openprot.Mctp.{code_byte, MctpOp}
use openprot.Mctp.Wire.{success_header, MctpResponseHeader}
use openprot.Mctp.Stack.{Router, LinearMap}
use openprot.Mctp.Server
use openprot.Mctp.Server.{PendingRecv, Server}
use openprot.Mctp.Server.Dispatch.{dispatch_op, replied}
use openprot.Mctp.Client
use openprot.Mctp.Client.{ok_or_default, is_success, map_ok, IpcMctpClient}
use openprot.Mctp.Remote.{World}
use openprot.Mctp.Remote.Calls.{Call, remote, local, IsReady, header_through, conclude}
use openprot.Mctp.Remote.Replies.{
  reply_eid-sends, eid_header, handle-arrives, handle_header, reply_handle-sends,
}

module _ (rt : Router) (map : LinearMap PendingRecv) where
  pub set_eid-local :
      (eid : ℕ) (c : IpcMctpClient) (w : World rt map)
      → IsReady rt map c w
      → let (c', w', a) = remote rt map (Call.set_eid eid) c w in
        ((w'.server, a) ≡ local rt map (Call.set_eid eid) w.server) × IsReady rt map c' w'
  unfolding Client.set_eid Server.set_eid encode_set_eid dispatch_op
  set_eid-local eid c w ready =
      let (s, r) = Server.set_eid rt map w.server eid in
      let arrives = unit-arrives (rt.set_eid w.server.stack eid).1 in
      let (es, er, ready') =
        header_through rt map c w MctpOp.set_eid _ s (unit_header r) ready
          (op_from_u8-byte MctpOp.set_eid) (omega arith) arrives.1
          (ap (λ x. some (replied rt map s w.recv_buf x))
            (reply_unit-sends w.response r (omega (arith, ready.2)))) in
      (conclude rt map (map_ok (λ _. tt)) (unit_header r) es er arrives.0, ready')

  pub get_eid-local :
      (c : IpcMctpClient) (w : World rt map)
      → IsReady rt map c w
      → let (c', w', a) = remote rt map Call.get_eid c w in
        ((w'.server, a) ≡ local rt map Call.get_eid w.server) × IsReady rt map c' w'
  unfolding Client.get_eid encode_get_eid dispatch_op is_success success_header code_byte
  get_eid-local c w ready =
      let eid = Server.get_eid rt map w.server in
      let (es, er, ready') =
        header_through rt map c w MctpOp.get_eid _ w.server (eid_header eid) ready
          (op_from_u8-byte MctpOp.get_eid) (omega arith) (omega arith)
          (ap (λ x. some (replied rt map w.server w.recv_buf x))
            (reply_eid-sends w.response eid (omega (arith, ready.2)))) in
      (
        conclude rt map (λ r. ok_or_default 0 (map_ok (λ a. MctpResponseHeader.eid a.0) r))
            (eid_header eid) es er refl,
        ready',
      )

  pub listener-local :
      (typ : ℕ) (c : IpcMctpClient) (w : World rt map)
      → IsReady rt map c w
      → let (c', w', a) = remote rt map (Call.listener typ) c w in
        ((w'.server, a) ≡ local rt map (Call.listener typ) w.server) × IsReady rt map c' w'
  unfolding Client.listener Server.listener encode_listener dispatch_op
  listener-local typ c w ready =
      let (s, r) = Server.listener rt map w.server typ in
      let arrives = handle-arrives (rt.listener w.server.stack typ).1 in
      let (es, er, ready') =
        header_through rt map c w MctpOp.listener _ s (handle_header r) ready
          (op_from_u8-byte MctpOp.listener) (omega arith) arrives.1
          (ap (λ x. some (replied rt map s w.recv_buf x))
            (reply_handle-sends w.response r (omega (arith, ready.2)))) in
      (
        conclude rt map (map_ok (λ a. MctpResponseHeader.handle a.0)) (handle_header r) es er
            arrives.0,
        ready',
      )

  pub req-local :
      (eid : ℕ) (c : IpcMctpClient) (w : World rt map)
      → IsReady rt map c w
      → let (c', w', a) = remote rt map (Call.req eid) c w in
        ((w'.server, a) ≡ local rt map (Call.req eid) w.server) × IsReady rt map c' w'
  unfolding Client.req Server.req encode_req dispatch_op
  req-local eid c w ready =
      let (s, r) = Server.req rt map w.server eid in
      let arrives = handle-arrives (rt.req w.server.stack eid).1 in
      let (es, er, ready') =
        header_through rt map c w MctpOp.req _ s (handle_header r) ready
          (op_from_u8-byte MctpOp.req) (omega arith) arrives.1
          (ap (λ x. some (replied rt map s w.recv_buf x))
            (reply_handle-sends w.response r (omega (arith, ready.2)))) in
      (
        conclude rt map (map_ok (λ a. MctpResponseHeader.handle a.0)) (handle_header r) es er
            arrives.0,
        ready',
      )

  pub drop_handle-local :
      (handle : ℕ) (c : IpcMctpClient) (w : World rt map)
      → IsReady rt map c w
      → handle < 2 ^ 32
      → let (c', w', a) = remote rt map (Call.drop_handle handle) c w in
        ((w'.server, a) ≡ local rt map (Call.drop_handle handle) w.server) × IsReady rt map c' w'
  unfolding Client.drop_handle Server.unbind encode_unbind dispatch_op success_header
  drop_handle-local handle c w ready fits =
      let (s, r) = Server.unbind rt map w.server handle in
      let (es, er, ready') =
        header_through rt map c w MctpOp.unbind _ s (unit_header r) ready
          (op_from_u8-byte MctpOp.unbind) fits (omega arith)
          (ap (λ x. some (replied rt map s w.recv_buf x))
            (reply_unit-sends w.response r (omega (arith, ready.2)))) in
      (conclude rt map (λ _. tt) (unit_header r) es er refl, ready')
