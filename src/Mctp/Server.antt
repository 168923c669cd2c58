-- ===== src/Mctp/Server.antt =====
-- services/mctp/server/src/server.rs: the server, over a router and over the map of the receive calls
-- that wait. A method returns the new server; one that fills the receive buffer returns that too.
pub mod Dispatch
pub mod Updates
pub mod Waiting
use openprot.Prelude.{
  copy_at, ℕ, ◌+◌, ◌%◌, ◌^◌, Bool, Option, none, some, List, [], ◌∷◌, ltb, leb, ◌==◌, ◌&&◌, not,
  if◌then◌else◌, Result, ok, err, length, is_some, push_within,
}
use mathlib.Core.Option
use openprot.Mctp.{ResponseCode, MctpError}
use openprot.Mctp.Stack.{StackError, Tag, owned, unowned, tag_value, MctpMessage, Router, LinearMap}

abbrev pub max_payload : ℕ
max_payload = 1023

pub record PendingRecv : Type 0 where
  pub deadline : ℕ

-- `RecvMetadata` of services/mctp/api/src/types.rs
pub record RecvMetadata : Type 0 where
  pub msg_type : ℕ
  pub msg_ic : Bool
  pub msg_tag : ℕ
  pub remote_eid : ℕ
  pub payload_size : ℕ

pub data RecvResult : Type 0 where
  message : RecvMetadata → RecvResult
  timed_out : RecvResult

-- `mctp_error_to_server_error`
unfoldable pub server_error : StackError → MctpError
server_error StackError.internal_error = record { code = ResponseCode.internal_error }
server_error StackError.no_space = record { code = ResponseCode.no_space }
server_error StackError.addr_in_use = record { code = ResponseCode.addr_in_use }
server_error StackError.timed_out = record { code = ResponseCode.timed_out }
server_error StackError.bad_argument = record { code = ResponseCode.bad_argument }
server_error StackError.other = record { code = ResponseCode.internal_error }

-- `map_err(mctp_error_to_server_error)`, with what a success becomes.
abbrev pub map_result : {A B : Type 0} → (A → B) → Result StackError A → Result MctpError B
map_result f (ok a) = ok (f a)
map_result f (err e) = err (server_error e)

-- The metadata of a message, and the copy of its payload where it fits the buffer.
unfoldable pub metadata : MctpMessage → RecvMetadata
metadata msg = record {
  msg_type = msg.typ;
  msg_ic = msg.ic;
  msg_tag = tag_value msg.tag;
  remote_eid = msg.source;
  payload_size = length msg.payload;
}

unfoldable pub copy_payload : List ℕ → MctpMessage → List ℕ
copy_payload buf msg =
    if leb (length msg.payload) (length buf) then copy_at buf 0 msg.payload else buf

-- `pending.deadline != 0 && now_millis >= pending.deadline`
abbrev pub is_due : ℕ → PendingRecv → Bool
is_due now pending = not (pending.deadline == 0) && leb pending.deadline now

module _ (rt : Router) (map : LinearMap PendingRecv) where
  -- `Server<S, OUTSTANDING>`
  pub record Server : Type 0 where
    pub stack : rt.S
    pub outstanding : map.M
    pub max_outstanding : ℕ

  -- `Server::new`, with the router that it makes as an argument.
  unfoldable pub new : rt.S → ℕ → Server
  new stack n = record { stack = stack; outstanding = map.empty; max_outstanding = n }

  -- `Server::req`
  unfoldable pub req : Server → ℕ → Server × Result {0, 0} MctpError ℕ
  req s eid =
      let (stack, result) = rt.req s.stack eid in
      (record s { stack = stack }, map_result (λ cookie. cookie % 2 ^ 32) result)

  -- `Server::listener`
  unfoldable pub listener : Server → ℕ → Server × Result {0, 0} MctpError ℕ
  listener s typ =
      let (stack, result) = rt.listener s.stack typ in
      (record s { stack = stack }, map_result (λ cookie. cookie % 2 ^ 32) result)

  -- `Server::get_eid`
  unfoldable pub get_eid : Server → ℕ
  get_eid s = rt.get_eid s.stack

  -- `Server::set_eid`
  unfoldable pub set_eid : Server → ℕ → Server × Result {0, 0} MctpError Unit
  set_eid s eid =
      let (stack, result) = rt.set_eid s.stack eid in
      (record s { stack = stack }, map_result (λ u. u) result)

  -- `Server::try_recv`
  unfoldable pub try_recv : Server → ℕ → List ℕ → Server × List ℕ × Option RecvMetadata
  try_recv s handle buf =
      let (stack, msg) = rt.recv s.stack handle in
      (
        record s { stack = stack },
        Option.get_or (Option.map (copy_payload buf) msg) buf,
        Option.map metadata msg,
      )

  -- The result of `LinearMap::insert`, as `register_recv` returns it.
  abbrev pub inserted :
      Server → map.M × Result {0, 0} PendingRecv Unit → Server × Result {0, 0} MctpError Unit
  inserted s (m, ok u) = (record s { outstanding = m }, ok u)
  inserted s (m, err v) =
      (record s { outstanding = m }, err record { code = ResponseCode.no_space })

  -- `Server::register_recv`
  unfoldable pub register_recv : Server → ℕ → ℕ → ℕ → Server × Result {0, 0} MctpError Unit
  register_recv s handle timeout_millis now_millis =
      let deadline =
        if not (timeout_millis == 0) then (now_millis + timeout_millis) % 2 ^ 64 else 0 in
      if is_some (map.get s.outstanding handle)
      then (s, ok tt)
      else inserted s (map.insert s.outstanding handle record { deadline = deadline })

  -- Requests own their tag, responses do not.
  unfoldable pub send_tag : Option ℕ → Option ℕ → Option Tag
  send_tag handle tag = if is_some handle then Option.map owned tag else Option.map unowned tag

  -- `Server::send`
  unfoldable pub send :
      Server
      → Option ℕ
      → ℕ
      → Option ℕ
      → Option ℕ
      → Bool
      → List ℕ
      → Server × Result {0, 0} MctpError ℕ
  send s handle typ eid tag ic buf =
      if ltb max_payload (length buf)
      then (s, err record { code = ResponseCode.no_space })
      else let (stack, result) =
          rt.send s.stack eid typ (send_tag handle tag) ic (Option.get_or handle 255) buf in
        (record s { stack = stack }, map_result tag_value result)

  -- What the loop of `Server::update` changes.
  pub record Sweep : Type 0 where
    pub stack : rt.S
    pub recv_buf : List ℕ
    pub ready : List (ℕ × RecvResult)

  -- A message, or none, for one receive call that waits.
  unfoldable pub sweep_one : ℕ → ℕ → ℕ × PendingRecv → rt.S × Option MctpMessage → Sweep → Sweep
  sweep_one n now (handle, pending) (stack, some msg) w = record {
    stack = stack;
    recv_buf = copy_payload w.recv_buf msg;
    ready = push_within n w.ready (handle, message (metadata msg));
  }
  sweep_one n now (handle, pending) (stack, none) w = record {
    stack = stack;
    recv_buf = w.recv_buf;
    ready = if is_due now pending then push_within n w.ready (handle, timed_out) else w.ready;
  }

  unfoldable pub sweep : ℕ → ℕ → List (ℕ × PendingRecv) → Sweep → Sweep
  sweep n now [] w = w
  sweep n now (e ∷ es) w = sweep n now es (sweep_one n now e (rt.recv w.stack e.0) w)

  -- `for (handle, _) in &ready { self.outstanding.remove(&handle.0); }`
  unfoldable pub remove_ready : List (ℕ × RecvResult) → map.M → map.M
  remove_ready [] m = m
  remove_ready (r ∷ rs) m = remove_ready rs (map.remove m r.0)

  -- `unwrap_or(60_000) as u32`
  abbrev stack_timeout : Result StackError ℕ → ℕ
  stack_timeout (ok millis) = millis % 2 ^ 32
  stack_timeout (err _) = 60000

  -- `Server::update`
  unfoldable pub update : Server → ℕ → List ℕ → Server × List ℕ × ℕ × List (ℕ × RecvResult)
  update s now_millis recv_buf =
      let (stack, timeout) = rt.update s.stack now_millis in
      let w =
        sweep s.max_outstanding now_millis (map.entries s.outstanding)
          record { stack = stack; recv_buf = recv_buf; ready = [] } in
      (
        record s { stack = w.stack; outstanding = remove_ready w.ready s.outstanding },
        w.recv_buf,
        stack_timeout timeout,
        w.ready,
      )

  -- `Server::unbind`
  unfoldable pub unbind : Server → ℕ → Server × Result {0, 0} MctpError Unit
  unbind s handle =
      let (stack, _) = rt.unbind s.stack handle in
      (record s { stack = stack; outstanding = map.remove s.outstanding handle }, ok tt)

  -- `Server::inbound`
  unfoldable pub inbound : Server → List ℕ → Server × Result {0, 0} MctpError Unit
  inbound s pkt =
      let (stack, result) = rt.inbound s.stack pkt in
      (record s { stack = stack }, map_result (λ _. tt) result)
