-- ===== src/Rpc/Controller.antt =====
-- The client's state of one call: `RpcController` of include/rpc/rpc_channel.hpp and
-- include/rpc/rpc_channel.inl. A closure is known by a number.
use mcoro_rpc.Common.{ℕ, [], ◌∷◌, List, Bool, true, false, Option, none, some, Bytes, ℤ, pos}

pub record RpcController : Type 0 where
  pub failed : Bool
  pub error_text : Bytes
  pub error_code : ℤ
  pub canceled : Bool
  pub timeout_ms : ℤ
  pub msg_id : Bytes
  pub finished : Bool
  pub cancel_callback : Option ℕ

unfoldable pub new_controller : RpcController
new_controller = record {
  failed = false;
  error_text = [];
  error_code = pos 0;
  canceled = false;
  timeout_ms = pos 3000;
  msg_id = [];
  finished = false;
  cancel_callback = none;
}

-- `Reset`, which leaves the time limit, the id and the callback.
unfoldable pub reset : RpcController → RpcController
reset ctrl = record ctrl {
  failed = false;
  error_text = [];
  error_code = pos 0;
  canceled = false;
  finished = false;
}

abbrev pub set_failed : Bytes → RpcController → RpcController
set_failed reason ctrl = record ctrl { failed = true; error_text = reason }

abbrev pub set_error_code : ℤ → RpcController → RpcController
set_error_code err_code ctrl = record ctrl { error_code = err_code }

abbrev pub notify_on_cancel : Option ℕ → RpcController → RpcController
notify_on_cancel callback ctrl = record ctrl { cancel_callback = callback }

abbrev pub set_timeout : ℤ → RpcController → RpcController
set_timeout timeout_ms ctrl = record ctrl { timeout_ms = timeout_ms }

abbrev pub set_msg_id : Bytes → RpcController → RpcController
set_msg_id msg_id ctrl = record ctrl { msg_id = msg_id }

abbrev pub set_finished : Bool → RpcController → RpcController
set_finished finished ctrl = record ctrl { finished = finished }

-- `StartCancel`, with the closures that it runs.
pub start_cancel : RpcController → RpcController × List ℕ
start_cancel ctrl = elim ctrl.cancel_callback [
  | none ↦ (record ctrl { canceled = true }, [])
  | some callback ↦ (record ctrl { canceled = true; cancel_callback = none }, callback ∷ [])
]
