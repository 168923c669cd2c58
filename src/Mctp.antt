-- ===== src/Mctp.antt =====
-- The MCTP service (services/mctp): its wire format, the server over a router, and the dispatch of
-- requests. This file is services/mctp/api/src/error.rs and the operation codes of wire.rs.
pub mod Wire
pub mod Stack
pub mod Server
pub mod Client
pub mod Remote
mod Examples
use openprot.Prelude.{ℕ, Option, none, some, ◌==◌, if◌then◌else◌}

pub data ResponseCode : Type 0 where
  success : ResponseCode
  internal_error : ResponseCode
  no_space : ResponseCode
  addr_in_use : ResponseCode
  timed_out : ResponseCode
  bad_argument : ResponseCode
  server_restarted : ResponseCode

-- `code as u8`
unfoldable pub code_byte : ResponseCode → ℕ
code_byte ResponseCode.success = 0
code_byte ResponseCode.internal_error = 1
code_byte ResponseCode.no_space = 2
code_byte ResponseCode.addr_in_use = 3
code_byte ResponseCode.timed_out = 4
code_byte ResponseCode.bad_argument = 5
code_byte ResponseCode.server_restarted = 6

-- `ResponseCode::from_u8`
unfoldable pub code_from_u8 : ℕ → Option ResponseCode
code_from_u8 val =
    if val == 0
    then some ResponseCode.success
    else if val == 1
    then some ResponseCode.internal_error
    else if val == 2
    then some ResponseCode.no_space
    else if val == 3
    then some ResponseCode.addr_in_use
    else if val == 4
    then some ResponseCode.timed_out
    else if val == 5
    then some ResponseCode.bad_argument
    else if val == 6
    then some ResponseCode.server_restarted
    else none

pub data MctpOp : Type 0 where
  set_eid : MctpOp
  get_eid : MctpOp
  listener : MctpOp
  req : MctpOp
  recv : MctpOp
  send : MctpOp
  unbind : MctpOp

-- `op as u8`
unfoldable pub op_byte : MctpOp → ℕ
op_byte MctpOp.set_eid = 0
op_byte MctpOp.get_eid = 1
op_byte MctpOp.listener = 2
op_byte MctpOp.req = 3
op_byte MctpOp.recv = 4
op_byte MctpOp.send = 5
op_byte MctpOp.unbind = 6

-- `MctpOp::from_u8`
unfoldable pub op_from_u8 : ℕ → Option MctpOp
op_from_u8 val =
    if val == 0
    then some MctpOp.set_eid
    else if val == 1
    then some MctpOp.get_eid
    else if val == 2
    then some MctpOp.listener
    else if val == 3
    then some MctpOp.req
    else if val == 4
    then some MctpOp.recv
    else if val == 5
    then some MctpOp.send
    else if val == 6
    then some MctpOp.unbind
    else none

-- `MctpError`
pub record MctpError : Type 0 where
  pub code : ResponseCode
