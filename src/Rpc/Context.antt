-- ===== src/Rpc/Context.antt =====
-- The state of one RPC call: include/rpc/rpc_context.h. The addresses are shared pointers that the
-- context hands on.
use mcoro_rpc.Common.{[], Bool, true, false, Option, none, if◌then◌else◌, Bytes, ℤ, pos}

pub record RpcContext (Addr : Type 0) : Type 0 where
  pub err_code : ℤ
  pub err_info : Bytes
  pub msg_id : Bytes
  pub is_failed : Bool
  pub is_cancelled : Bool
  pub is_finished : Bool
  pub local_addr : Option Addr
  pub peer_addr : Option Addr
  pub timeout_ms : ℤ

module _ {Addr : Type 0} where
  pub new_context : RpcContext Addr
  new_context = record {
    err_code = pos 0;
    err_info = [];
    msg_id = [];
    is_failed = false;
    is_cancelled = false;
    is_finished = false;
    local_addr = none;
    peer_addr = none;
    timeout_ms = pos 3000;
  }

  pub reset : RpcContext Addr → RpcContext Addr
  reset ctx = record ctx {
    err_code = pos 0;
    err_info = [];
    msg_id = [];
    is_failed = false;
    is_cancelled = false;
    is_finished = false;
    local_addr = none;
    peer_addr = none;
    timeout_ms = pos 3000;
  }

  abbrev pub set_failed : ℤ → Bytes → RpcContext Addr → RpcContext Addr
  set_failed code info ctx = record ctx { err_code = code; err_info = info; is_failed = true }

  abbrev pub set_cancelled : Bool → RpcContext Addr → RpcContext Addr
  set_cancelled value ctx = record ctx {
    is_cancelled = value;
    is_failed = if value then true else ctx.is_failed;
  }

  abbrev pub start_cancel : RpcContext Addr → RpcContext Addr
  start_cancel ctx = record ctx { is_cancelled = true; is_failed = true; is_finished = true }

  abbrev pub set_msg_id : Bytes → RpcContext Addr → RpcContext Addr
  set_msg_id id ctx = record ctx { msg_id = id }

  abbrev pub set_err_code : ℤ → RpcContext Addr → RpcContext Addr
  set_err_code code ctx = record ctx { err_code = code }

  abbrev pub set_finished : Bool → RpcContext Addr → RpcContext Addr
  set_finished value ctx = record ctx { is_finished = value }

  abbrev pub set_local_addr : Option Addr → RpcContext Addr → RpcContext Addr
  set_local_addr addr ctx = record ctx { local_addr = addr }

  abbrev pub set_peer_addr : Option Addr → RpcContext Addr → RpcContext Addr
  set_peer_addr addr ctx = record ctx { peer_addr = addr }
