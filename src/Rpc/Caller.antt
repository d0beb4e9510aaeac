-- ===== src/Rpc/Caller.antt =====
-- The client's end of a connection: `RpcChannel` of include/rpc/rpc_channel.hpp and
-- include/rpc/rpc_channel.inl, with `CallMethod`. Protobuf is a parameter: what
-- `SerializeToString` makes of a request comes with the call, and `parse` is the response's
-- `ParseFromString`, which answers whether it succeeded and what it leaves in the message. The time
-- limit of an operation comes as `late`: whether it passes before the operation ends.
pub mod Async
pub mod Worker
pub mod Connection
use mcoro_rpc.Common.{
  ℕ, ◌≡◌, ◌/◌, suc, List, [], ◌∷◌, ◌++◌, Bool, true, false, Option, none, some, Bytes, codes, ℤ,
  pos, negsuc, ltb_ℤ, ◌==◌, if◌then◌else◌, sub_ℕ,
}
use mcoro_rpc.Buffer.{TcpBuffer, create, contents}
use mcoro_rpc.Channel.{create as create_channel, Channel, Wake, done as queue_done, send_sync}
use mcoro_rpc.Stream.{Socket, End, done, thrown, more}
use mcoro_rpc.Stream.Tcp.{TcpStream, read_stream, write_stream}
use mcoro_rpc.WaitFor.{WaitForResult, fires, returns, throws, wait_for, wait_for_lem}
use mcoro_rpc.Codec.{TinyPbProtocol, encode, new_protocol}
use mcoro_rpc.Codec.Decode.{decode, returned, threw, faulted, out_of_fuel}
use mcoro_rpc.Rpc.Controller.{RpcController, set_failed, set_error_code, set_finished, set_timeout}
use mcoro_rpc.Rpc.Pool.{ObjectPool, get_protocol, recycle_protocol}

-- A queued request, with the response and the controller that its pointers lead to.
pub record RpcRequest (Rsp D : Type 0) : Type 0 where
  pub req : TinyPbProtocol
  pub response : Rsp
  pub controller : RpcController
  pub done : Option D

-- `K` is the kernel's state of the socket, `D` the closures.
pub record RpcChannel (K Rsp D : Type 0) : Type 0 where
  pub stream : Option (TcpStream K)
  pub connected : Bool
  pub timeout_ms : ℤ
  pub request_chan : Channel (RpcRequest Rsp D)
  pub worker_running : Bool
  pub stopped : Bool
  pub reconnect_retry : ℕ

-- What the caller hands over: the method's full name, what `SerializeToString` answers and writes
-- for the request, and the closure.
pub record Call (D : Type 0) : Type 0 where
  pub full_name : Bytes
  pub request : Bool × Bytes
  pub done : Option D

-- What a call works on: the channel, the caller's controller and response, the pool of protocols,
-- and the closures run so far.
pub record Calling (K Rsp D : Type 0) : Type 0 where
  pub channel : RpcChannel K Rsp D
  pub controller : RpcController
  pub response : Rsp
  pub protocols : ObjectPool TinyPbProtocol
  pub ran : List D

-- How it ends: it returns, or an exception leaves it; or it returns at once and has touched nothing.
pub data Called (K Rsp D : Type 0) : Type 0 where
  returns_with raises_with : Calling K Rsp D → Called K Rsp D
  returns_at_once call_fault no_fuel : Called K Rsp D

-- `if (done) done->Run();`
abbrev pub run_done : {D : Type 0} → Option D → List D
run_done none = []
run_done (some closure) = closure ∷ []

abbrev pub is_zero : ℤ → Bool
is_zero (pos n) = n == 0
is_zero (negsuc n) = false

-- Division of an `int` by 1000, towards 0.
abbrev pub thousandth : ℤ → ℤ
thousandth (pos n) = pos (n / 1000)
thousandth (negsuc n) = sub_ℕ 0 (suc n / 1000)

-- `!m_stream || m_stream->fd() < 0` is `none`.
abbrev pub usable : {K : Type 0} → Option (TcpStream K) → Option (TcpStream K)
usable none = none
usable (some s) = elim s.fd [ none ↦ none | some _ ↦ some s ]

-- `wait_for` on a task that ends so; `none` is a task that needs more rounds.
unfoldable pub timed : Bool → End → Option WaitForResult
timed is_late more = none
timed is_late done = wait_for (if is_late then fires ∷ returns ∷ [] else returns ∷ [])
timed is_late thrown = wait_for (if is_late then fires ∷ throws ∷ [] else throws ∷ [])

pub timed_done :
    (is_late : Bool) → timed is_late done ≡ some (record { ok = true; is_timeout = is_late })
unfolding timed
timed_done true = (wait_for_lem 1 true []).1
timed_done false = (wait_for_lem 0 true []).1

pub timed_thrown :
    (is_late : Bool) → timed is_late thrown ≡ some (record { ok = false; is_timeout = is_late })
unfolding timed
timed_thrown true = (wait_for_lem 1 false []).1
timed_thrown false = (wait_for_lem 0 false []).1

abbrev pub request_of : {D : Type 0} → Call D → RpcController → TinyPbProtocol → TinyPbProtocol
request_of call ctrl fresh = record fresh {
  method_name = call.full_name;
  msg_id = ctrl.msg_id;
  pb_data = call.request.1;
}

module _ {K Rsp D : Type 0} where
  pub new_channel : RpcChannel K Rsp D
  new_channel = record {
    stream = none;
    connected = false;
    timeout_ms = pos 3000;
    request_chan = create_channel 100;
    worker_running = false;
    stopped = false;
    reconnect_retry = 0;
  }

  abbrev pub set_channel_timeout : ℤ → RpcChannel K Rsp D → RpcChannel K Rsp D
  set_channel_timeout timeout_ms ch = record ch { timeout_ms = timeout_ms }

  -- `!m_connected.load() || !m_stream || m_stream->fd() < 0` is `none`.
  abbrev pub connected_stream : RpcChannel K Rsp D → Option (TcpStream K)
  connected_stream ch = if ch.connected then usable ch.stream else none

  unfoldable pub init_controller : RpcChannel K Rsp D → RpcController → RpcController
  init_controller ch ctrl =
      if ltb_ℤ (pos 0) ctrl.timeout_ms then ctrl else set_timeout ch.timeout_ms ctrl

  -- `ctrl->SetFailed(…); if (done) done->Run();`
  abbrev pub fail_call : Option D → Bytes → Calling K Rsp D → Calling K Rsp D
  fail_call closure reason c = record c {
    controller = set_failed reason c.controller;
    ran = c.ran ++ run_done closure;
  }

  abbrev pub give_back : TinyPbProtocol → Calling K Rsp D → Calling K Rsp D
  give_back m c = record c { protocols = recycle_protocol (some m) c.protocols }

  abbrev pub calling :
      RpcController → Rsp → ObjectPool TinyPbProtocol → RpcChannel K Rsp D → Calling K Rsp D
  calling ctrl response protocols ch = record {
    channel = ch;
    controller = ctrl;
    response = response;
    protocols = protocols;
    ran = [];
  }

  -- `sendSync` and what `CallMethod` does behind it.
  unfoldable pub queue_request :
      RpcRequest Rsp D → Calling K Rsp D → Calling K Rsp D × List (Wake (RpcRequest Rsp D))
  queue_request rpc_req c =
      let (request_chan, wakes, answer) = send_sync rpc_req c.channel.request_chan in
      elim answer [
        | queue_done ok ↦
            if ok
            then (record c { channel = record c.channel { request_chan = request_chan } }, wakes)
            else (fail_call rpc_req.done (codes "channel closed") c, wakes)
        | _ ↦ (c, wakes)
      ]

  -- `CallMethod`, with the coroutines that the queue wakes.
  unfoldable pub call_method :
      Call D
      → RpcController
      → Rsp
      → ObjectPool TinyPbProtocol
      → RpcChannel K Rsp D
      → Calling K Rsp D × List (Wake (RpcRequest Rsp D))
  unfolding init_controller queue_request
  call_method call controller response protocols ch =
      let ctrl = init_controller ch controller in
      let c = calling ctrl response protocols ch in
      let rpc_req : RpcRequest Rsp D = record {
        req = request_of call ctrl new_protocol;
        response = response;
        controller = ctrl;
        done = call.done;
      } in
      let queued = queue_request rpc_req c in
      let unserialized : Calling K Rsp D × List (Wake (RpcRequest Rsp D)) =
        (fail_call call.done (codes "serialize request failed") c, []) in
      if ch.connected
      then (if call.request.0 then queued else unserialized)
      else (fail_call call.done (codes "not connected") c, [])
