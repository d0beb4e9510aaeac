-- ===== src/Rpc/Caller/Worker.antt =====
-- A round of `RpcChannel::workerLoop` of include/rpc/rpc_channel.inl behind its `recv`: one request
-- of the queue written and its response read. The limits of the two operations come as `late_write`
-- and `late_read`; `what` is the text of an exception.
pub mod Discards
use mcoro_rpc.Common.{
  ℕ, ◌/◌, suc, List, [], ◌∷◌, ◌++◌, Bool, true, false, Option, none, some, Bytes, codes, ℤ, pos,
  negsuc, ltb_ℤ, ◌==◌, if◌then◌else◌, sub_ℕ,
}
use mcoro_rpc.Buffer.{TcpBuffer, create, contents, read_able}
use mcoro_rpc.Channel.{create as create_channel, Channel, Wake, done as queue_done, send_sync}
use mcoro_rpc.Stream.{Socket, End, done, thrown, more}
use mcoro_rpc.Stream.Tcp.{TcpStream, read_stream, write_stream}
use mcoro_rpc.WaitFor.{WaitForResult, fires, returns, throws, wait_for}
use mcoro_rpc.Codec.{TinyPbProtocol, encode, new_protocol}
use mcoro_rpc.Codec.Decode.{decode, returned, threw, faulted, out_of_fuel}
use mcoro_rpc.Rpc.Controller.{RpcController, set_failed, set_error_code, set_finished, set_timeout}
use mcoro_rpc.Rpc.Pool.{ObjectPool, get_protocol, recycle_protocol}
use mcoro_rpc.Rpc.Caller.{
  RpcRequest, RpcChannel, Calling, Called, returns_with, call_fault, no_fuel, run_done, is_zero,
  usable, timed, calling, fail_call,
}

module _ {K Rsp D : Type 0} (parse : Bytes → Rsp → Bool × Rsp) (what : Bytes) where
  -- The part behind the second decoding.
  unfoldable pub worker_response : Option D → TinyPbProtocol → Calling K Rsp D → Calling K Rsp D
  worker_response closure rsp c =
      let (parsed, response) = parse rsp.pb_data c.response in
      let c' : Calling K Rsp D = record c { response = response } in
      let refused : Calling K Rsp D = record c' {
        controller = set_failed rsp.err_info (set_error_code rsp.err_code c'.controller);
        ran = c'.ran ++ run_done closure;
      } in
      let accepted : Calling K Rsp D = record c' {
        controller = set_finished true c'.controller;
        ran = c'.ran ++ run_done closure;
      } in
      if parsed
      then (if is_zero rsp.err_code then accepted else refused)
      else fail_call closure (codes "parse response failed") c'

  abbrev with_stream : Option (TcpStream K) → Calling K Rsp D → Calling K Rsp D
  with_stream s c = record c { channel = record c.channel { stream = s } }

  -- `m_connected.store(false)`, and the end of the request.
  abbrev drops : Option D → Bytes → Calling K Rsp D → Called K Rsp D
  drops closure reason c =
      returns_with
        (fail_call closure reason (record c { channel = record c.channel { connected = false } }))

  -- One `coder.decode(rsp_msgs, in_buf)` inside the `try`, and what follows it.
  unfoldable pub decode_then :
      ℕ
      → Option D
      → TcpStream K
      → Calling K Rsp D
      → (List TinyPbProtocol → TcpStream K → Called K Rsp D)
      → Called K Rsp D
  decode_then fuel closure s c next = elim (decode fuel [] s.read_buffer) [
    | out_of_fuel ↦ no_fuel
    | faulted ↦ call_fault
    | threw _ b ↦
        drops closure (codes "rpc error: " ++ what)
          (with_stream (some (record s { read_buffer = b })) c)
    | returned msgs b ↦ next msgs (record s { read_buffer = b })
  ]

  -- The part behind the tests of the read's result.
  unfoldable pub second_decode : ℕ → Option D → TcpStream K → Calling K Rsp D → Called K Rsp D
  second_decode fuel closure s c = decode_then fuel closure s c (λ msgs s'. elim msgs [
    | [] ↦
        returns_with (fail_call closure (codes "decode response failed") (with_stream (some s') c))
    | rsp ∷ _ ↦ returns_with (worker_response closure rsp (with_stream (some s') c))
  ])

  -- The part behind the read, which decodes into a vector of its own first.
  unfoldable pub worker_read :
      ℕ → Option D → WaitForResult → TcpStream K → Calling K Rsp D → Called K Rsp D
  worker_read fuel closure read_result s c =
      let tested = decode_then fuel closure s c (λ _ s'. second_decode fuel closure s' c) in
      if read_result.ok
      then (if read_result.is_timeout
          then drops closure (codes "rpc read timeout, connection closed") (with_stream none c)
          else (if ltb_ℤ (pos 0) (read_able s.read_buffer)
              then tested
              else second_decode fuel closure s c))
      else drops closure (codes "rpc read error") (with_stream (some s) c)

  module _ (socket : Socket K) (late_write late_read : ℤ → Bool) where
    unfoldable pub serve_stream :
        ℕ → RpcRequest Rsp D → TcpStream K → Calling K Rsp D → Called K Rsp D
    serve_stream fuel rpc_req s c = elim (encode (rpc_req.req ∷ []) (create 1024)) [
      | none ↦ call_fault
      | some (_, out_buf) ↦ elim (write_stream socket fuel (contents out_buf) s) [
        | none ↦ call_fault
        | some (end, s1) ↦ elim (timed (late_write rpc_req.controller.timeout_ms) end) [
          | none ↦ no_fuel
          | some write_result ↦
              let reading : Called K Rsp D = elim (read_stream socket fuel s1) [
                | none ↦ call_fault
                | some (end', _, s2) ↦ elim (timed (late_read rpc_req.controller.timeout_ms) end') [
                  | none ↦ no_fuel
                  | some read_result ↦ worker_read fuel rpc_req.done read_result s2 c
                ]
              ] in
              if write_result.ok
              then (if write_result.is_timeout
                  then drops rpc_req.done (codes "rpc write timeout, connection closed")
                      (with_stream none c)
                  else reading)
              else drops rpc_req.done (codes "rpc write error") (with_stream (some s1) c)
        ]
      ]
    ]

    -- The request as it comes from the queue: what it leaves of the channel, its controller and its
    -- response.
    unfoldable pub serve_request :
        ℕ → RpcRequest Rsp D → ObjectPool TinyPbProtocol → RpcChannel K Rsp D → Called K Rsp D
    serve_request fuel rpc_req protocols ch =
        let c = calling rpc_req.controller rpc_req.response protocols ch in
        elim (usable ch.stream) [
          | none ↦ returns_with (fail_call rpc_req.done (codes "connection closed") c)
          | some s ↦ serve_stream fuel rpc_req s c
        ]
