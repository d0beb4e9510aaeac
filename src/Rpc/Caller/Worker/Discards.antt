-- ===== src/Rpc/Caller/Worker/Discards.antt =====
-- What the worker makes of a response.
use mcoro_rpc.Common.{
  ℕ, suc, ◌^◌, ◌<◌, ◌≡◌, refl, List, [], ◌∷◌, true, false, some, Bytes, codes, length, arith, ℤ,
  Bool, ltb_ℤ, pos,
}
use mcoro_rpc.Buffer.{TcpBuffer, read_able}
use mcoro_rpc.Buffer.Holds.{Holds, read_able_of_Holds}
use mcoro_rpc.Stream.{Socket, done}
use mcoro_rpc.Stream.Tcp.{TcpStream, read_stream, write_stream}
use mcoro_rpc.Codec.{TinyPbProtocol, packet}
use mcoro_rpc.Codec.Decode.RoundTrip.{packets, AllSendable, decode-packets, decode-empty, with_id}
use mcoro_rpc.Rpc.Controller.{set_failed}
use mcoro_rpc.Rpc.Pool.{ObjectPool}
use mcoro_rpc.Rpc.Provider.Answers.{encode_one}
use mcoro_rpc.Rpc.Caller.{RpcRequest, RpcChannel, returns_with, run_done, usable, timed_done}
use mcoro_rpc.Rpc.Caller.Worker.{
  serve_request, serve_stream, worker_read, second_decode, decode_then,
}

module _ {K Rsp D : Type 0} (parse : Bytes → Rsp → Bool × Rsp) (what : Bytes) (socket : Socket K)
    (late_write late_read : ℤ → Bool) where
  -- A request whose response the worker reads in time, alone or with further packets, is failed all
  -- the same: the packets are decoded into a vector that is thrown away, the second decoding finds
  -- none, and the response message is not touched. The packets are such as the decoder can take,
  -- the request's is shorter than 2 ^ 31 bytes, and the decoder is given more rounds than there are
  -- packets.
  pub serve_request_discards :
      (fuel : ℕ) (rpc_req : RpcRequest Rsp D) (protocols : ObjectPool TinyPbProtocol)
      (ch : RpcChannel K Rsp D) (s s1 s2 : TcpStream K) (count : ℕ) (m : TinyPbProtocol)
      (ms : List TinyPbProtocol)
      → usable ch.stream ≡ some s
      → length (packet (with_id rpc_req.req)) < 2 ^ 31
      → write_stream socket (suc fuel) (packet (with_id rpc_req.req)) s ≡ some (done, s1)
      → late_write rpc_req.controller.timeout_ms ≡ false
      → read_stream socket (suc fuel) s1 ≡ some (done, count, s2)
      → late_read rpc_req.controller.timeout_ms ≡ false
      → AllSendable (m ∷ ms)
      → Holds s2.read_buffer (packets (m ∷ ms))
      → s2.read_buffer.write_index < 2 ^ 31
      → length (m ∷ ms) < suc fuel
      → (left : TcpBuffer) × (serve_request parse what socket late_write late_read
            (suc fuel)
            rpc_req
            protocols
            ch
          ≡ returns_with (record {
            channel = record ch { stream = some (record s2 { read_buffer = left }) };
            controller = set_failed (codes "decode response failed") rpc_req.controller;
            response = rpc_req.response;
            protocols = protocols;
            ran = run_done rpc_req.done;
          }))
  unfolding serve_request serve_stream worker_read second_decode decode_then
  serve_request_discards fuel rpc_req protocols ch s s1 s2 count m ms stream small wrote in_time got
        on_time v h low enough =
      let (b, e, shown) = encode_one rpc_req.req small in
      let (left, f, h') = decode-packets (m ∷ ms) (suc fuel) [] v h low enough in
      let some_bytes : ltb_ℤ (pos 0) (read_able s2.read_buffer) ≡ true =
        rw (read_able_of_Holds (packets (m ∷ ms)) h) (ground arith) in
      (
        left,
        rw
            (
              stream,
              e,
              shown,
              wrote,
              timed_done,
              in_time,
              got,
              timed_done,
              on_time,
              some_bytes,
              f,
              decode-empty fuel [] h',
              serve_request,
              serve_stream,
              worker_read,
              decode_then,
              second_decode,
            )
            refl,
      )
