-- ===== src/Rpc/Caller/Async.antt =====
-- `RpcChannel::CallMethodAsync` of include/rpc/rpc_channel.inl: one request written and its response
-- read on the caller's own coroutine.
pub mod Responses
pub mod Settled
use mcoro_rpc.Common.{
  ℕ, ◌/◌, suc, List, [], ◌∷◌, ◌++◌, Bool, true, false, Option, none, some, Bytes, codes, ℤ, pos,
  negsuc, ltb_ℤ, ◌==◌, if◌then◌else◌, sub_ℕ,
}
use mcoro_rpc.Buffer.{TcpBuffer, create, contents, read_able}
use mcoro_rpc.Channel.{create as create_channel, Channel, Wake, done as queue_done, send_sync}
use mcoro_rpc.Stream.{Socket, End, done, thrown, more}
use mcoro_rpc.Stream.Tcp.{TcpStream, read_stream, write_stream}
use mcoro_rpc.WaitFor.{WaitForResult, fires, returns, throws, wait_for}
use mcoro_rpc.Codec.{TinyPbProtocol, encode, new_protocol}
use mcoro_rpc.Codec.Decode.{decode, returned, threw, faulted, out_of_fuel}
use mcoro_rpc.Rpc.Controller.{RpcController, set_failed, set_error_code, set_finished, set_timeout}
use mcoro_rpc.Rpc.Pool.{ObjectPool, get_protocol, recycle_protocol}
use mcoro_rpc.Rpc.Caller.{
  RpcChannel, Call, Calling, Called, returns_with, returns_at_once, raises_with, call_fault,
  no_fuel, run_done, is_zero, thousandth, connected_stream, timed, calling, init_controller,
  request_of, fail_call, give_back,
}

module _ {K : Type 0} (socket : Socket K) where
  -- The awaited lambda of `CallMethodAsync`: the request is written, and the buffer read.
  unfoldable pub exchange : ℕ → Bytes → TcpStream K → Option (End × TcpStream K)
  exchange fuel text stream = elim (write_stream socket fuel text stream) [
    | none ↦ none
    | some (end, s) ↦ elim end [
      | done ↦ elim (read_stream socket fuel s) [
        | none ↦ none
        | some (last, _, s') ↦ some (last, s')
      ]
      | thrown ↦ some (thrown, s)
      | more ↦ some (more, s)
    ]
  ]

module _ {K Rsp D : Type 0} (socket : Socket K) (parse : Bytes → Rsp → Bool × Rsp)
    (late : ℤ → Bool) where
  -- The part behind the decoded response.
  unfoldable pub take_response :
      Option D → TinyPbProtocol → TinyPbProtocol → Calling K Rsp D → Calling K Rsp D
  take_response closure req rsp c =
      let answered : Calling K Rsp D =
        if is_zero rsp.err_code
        then record c { response = (parse rsp.pb_data c.response).1 }
        else record c {
          controller = set_failed rsp.err_info (set_error_code rsp.err_code c.controller);
        } in
      give_back rsp (
        give_back req (record answered {
          controller = set_finished true answered.controller;
          ran = answered.ran ++ run_done closure;
        }))

  -- The part behind the exchange.
  unfoldable pub read_response :
      ℕ → Option D → TinyPbProtocol → TcpStream K → Calling K Rsp D → Called K Rsp D
  read_response fuel closure req s c =
      let left : TcpBuffer → Calling K Rsp D = λ b. record c {
        channel = record c.channel { stream = some (record s { read_buffer = b }) };
      } in
      elim (decode fuel [] s.read_buffer) [
        | out_of_fuel ↦ no_fuel
        | faulted ↦ call_fault
        | threw _ b ↦ raises_with (left b)
        | returned msgs b ↦ elim msgs [
          | [] ↦
              returns_with
                (give_back req (fail_call closure (codes "decode response failed") (left b)))
          | rsp ∷ _ ↦ returns_with (take_response closure req rsp (left b))
        ]
      ]

  -- The request behind its serialization, with the time limit in `std::chrono::milliseconds` as the
  -- code computes it.
  unfoldable pub call_over :
      ℕ → Option D → TinyPbProtocol → TcpStream K → Calling K Rsp D → Called K Rsp D
  call_over fuel closure req s c = elim (encode (req ∷ []) (create 1024)) [
    | none ↦ call_fault
    | some (msgs, out_buf) ↦
        let req' : TinyPbProtocol = elim msgs [ [] ↦ req | m ∷ _ ↦ m ] in
        let is_late = late (thousandth c.controller.timeout_ms) in
        elim (exchange socket fuel (contents out_buf) s) [
          | none ↦ call_fault
          | some (end, s') ↦
              let after : Calling K Rsp D = record c {
                channel = record c.channel { stream = some s' };
              } in
              let failed : Bytes → Called K Rsp D =
                λ reason. returns_with (give_back req' (fail_call closure reason after)) in
              elim (timed is_late end) [
                | none ↦ no_fuel
                | some io_result ↦
                    if io_result.is_timeout
                    then failed (codes "rpc timeout")
                    else if io_result.ok
                    then read_response fuel closure req' s' after
                    else failed (codes "rpc io error")
              ]
        ]
  ]

  -- With the controller as its `dynamic_cast` to `RpcController` gives it; `none` is a null pointer.
  unfoldable pub call_method_async :
      ℕ
      → Call D
      → Option RpcController
      → Rsp
      → ObjectPool TinyPbProtocol
      → RpcChannel K Rsp D
      → Called K Rsp D
  call_method_async fuel call none response protocols ch = returns_at_once
  call_method_async fuel call (some controller) response protocols ch =
      let ctrl = init_controller ch controller in
      let c = calling ctrl response protocols ch in
      let (fresh, rest) = get_protocol protocols in
      let req = request_of call ctrl fresh in
      let c' : Calling K Rsp D = record c { protocols = rest } in
      elim (connected_stream ch) [
        | none ↦ returns_with (fail_call call.done (codes "not connected") c)
        | some s ↦
            if call.request.0
            then call_over fuel call.done req s c'
            else returns_with
                (give_back req (fail_call call.done (codes "serialize request failed") c'))
      ]
