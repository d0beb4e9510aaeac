-- ===== src/Rpc/Caller/Async/Responses.antt =====
-- Calls whose response arrives: what the caller of `CallMethodAsync` finds.
use mcoro_rpc.Common.{
  ℕ, ◌^◌, ◌<◌, ◌≡◌, refl, sym, subst, List, [], ◌∷◌, ◌++◌, Bool, true, false, Option, some, Bytes,
  length, ℤ, if◌then◌else◌, Bool-cases, inl, inr,
}
use mcoro_rpc.Buffer.{TcpBuffer}
use mcoro_rpc.Buffer.Holds.{Holds}
use mcoro_rpc.Stream.{Socket, done}
use mcoro_rpc.Stream.Tcp.{TcpStream}
use mcoro_rpc.Codec.{TinyPbProtocol, packet}
use mcoro_rpc.Codec.Decode.Packet.{arrived}
use mcoro_rpc.Codec.Decode.RoundTrip.{packets, AllSendable, decode-packets, with_id, sent}
use mcoro_rpc.Rpc.Controller.{RpcController, set_failed, set_error_code, set_finished}
use mcoro_rpc.Rpc.Pool.{ObjectPool, get_protocol}
use mcoro_rpc.Rpc.Provider.Answers.{encode_one}
use mcoro_rpc.Rpc.Caller.{
  RpcChannel, Call, Calling, Called, returns_with, run_done, is_zero, thousandth, connected_stream,
  timed_done, init_controller, calling, request_of,
}
use mcoro_rpc.Rpc.Caller.Async.{
  exchange, take_response, read_response, call_over, call_method_async,
}

-- What a response leaves of the controller and of the response message.
abbrev pub concluded : TinyPbProtocol → RpcController → RpcController
concluded m ctrl =
    set_finished true
      (if is_zero m.err_code then ctrl else set_failed m.err_info (set_error_code m.err_code ctrl))

abbrev pub taken : {Rsp : Type 0} → (Bytes → Rsp → Bool × Rsp) → TinyPbProtocol → Rsp → Rsp
taken parse m response = if is_zero m.err_code then (parse m.pb_data response).1 else response

-- How a call over `s` that began as `c` ends with the response `m`.
pub record Answered {K Rsp D : Type 0} (parse : Bytes → Rsp → Bool × Rsp) (closure : Option D)
    (m : TinyPbProtocol) (s : TcpStream K) (c : Calling K Rsp D) (result : Called K Rsp D)
    : Type 0 where
  pub left : TcpBuffer
  pub after : Calling K Rsp D
  pub returns : result ≡ returns_with after
  pub emptied : Holds left []
  pub channel : after.channel ≡ record c.channel { stream = some (record s { read_buffer = left }) }
  pub ran : after.ran ≡ c.ran ++ run_done closure
  pub controller : after.controller ≡ concluded m c.controller
  pub response : after.response ≡ taken parse m c.response

module _ {K Rsp D : Type 0} (socket : Socket K) (parse : Bytes → Rsp → Bool × Rsp)
    (late : ℤ → Bool) where
  take_response_Answered :
      (closure : Option D) (req m : TinyPbProtocol) (s : TcpStream K) (left : TcpBuffer)
      (c c' : Calling K Rsp D)
      → Holds left []
      → c' ≡ record c {
        channel = record c.channel { stream = some (record s { read_buffer = left }) };
      }
      → Answered parse closure m s c
          (returns_with (take_response socket parse late closure req (arrived m) c'))
  unfolding take_response
  take_response_Answered closure req m s left c c' h e = elim (Bool-cases (is_zero m.err_code)) [
    | inl z ↦ record {
      left = left;
      after = take_response socket parse late closure req (arrived m) c';
      returns = refl;
      emptied = h;
      channel = rw (z, e) refl;
      ran = rw (z, e) refl;
      controller = rw (z, e) refl;
      response = rw (z, e) refl;
    }
    | inr z ↦ record {
      left = left;
      after = take_response socket parse late closure req (arrived m) c';
      returns = refl;
      emptied = h;
      channel = rw (z, e) refl;
      ran = rw (z, e) refl;
      controller = rw (z, e) refl;
      response = rw (z, e) refl;
    }
  ]

  -- The part behind an exchange that returned in time.
  read_response_Answered :
      (fuel : ℕ) (closure : Option D) (req m : TinyPbProtocol) (ms : List TinyPbProtocol)
      (s : TcpStream K) (c : Calling K Rsp D)
      → AllSendable (m ∷ ms)
      → Holds s.read_buffer (packets (m ∷ ms))
      → s.read_buffer.write_index < 2 ^ 31
      → length (m ∷ ms) < fuel
      → Answered parse closure m s c (read_response socket parse late fuel closure req s c)
  unfolding read_response
  read_response_Answered fuel closure req m ms s c v h low enough =
      let (left, e, h') = decode-packets (m ∷ ms) fuel [] v h low enough in
      rw (e, read_response) (take_response_Answered closure req m s left c _ h' refl)

  call_over_Answered :
      (fuel : ℕ) (closure : Option D) (req m : TinyPbProtocol) (ms : List TinyPbProtocol)
      (s s' : TcpStream K) (c : Calling K Rsp D)
      → length (packet (with_id req)) < 2 ^ 31
      → exchange socket fuel (packet (with_id req)) s ≡ some (done, s')
      → late (thousandth c.controller.timeout_ms) ≡ false
      → AllSendable (m ∷ ms)
      → Holds s'.read_buffer (packets (m ∷ ms))
      → s'.read_buffer.write_index < 2 ^ 31
      → length (m ∷ ms) < fuel
      → Answered parse closure m s' c (call_over socket parse late fuel closure req s c)
  unfolding call_over
  call_over_Answered fuel closure req m ms s s' c small io on_time v h low enough =
      let (b, e, shown) = encode_one req small in
      let c' : Calling K Rsp D = record c { channel = record c.channel { stream = some s' } } in
      let a = read_response_Answered fuel closure (sent req) m ms s' c' v h low enough in
      rw (e, shown, io, timed_done, on_time, call_over)
        (record {
          left = a.left;
          after = a.after;
          returns = a.returns;
          emptied = a.emptied;
          channel = a.channel;
          ran = a.ran;
          controller = a.controller;
          response = a.response;
        })

  -- A call on a connected stream whose exchange returns in time takes the first packet that the
  -- read buffer then holds for its response, whatever that packet's id is, and throws the other
  -- packets away: it runs its closure once, counts as finished, gets the error of that packet or
  -- else has its data parsed. The packets are such as the decoder can take, the request's is
  -- shorter than 2 ^ 31 bytes, and the decoder is given more rounds than there are packets.
  pub call_method_async-Answered :
      (fuel : ℕ) (call : Call D) (controller : RpcController) (response : Rsp)
      (protocols : ObjectPool TinyPbProtocol) (ch : RpcChannel K Rsp D) (s s' : TcpStream K)
      (m : TinyPbProtocol) (ms : List TinyPbProtocol)
      → let ctrl = init_controller ch controller in
        let text = packet (with_id (request_of call ctrl (get_protocol protocols).0)) in
        connected_stream ch ≡ some s
        → call.request.0 ≡ true
        → length text < 2 ^ 31
        → exchange socket fuel text s ≡ some (done, s')
        → late (thousandth ctrl.timeout_ms) ≡ false
        → AllSendable (m ∷ ms)
        → Holds s'.read_buffer (packets (m ∷ ms))
        → s'.read_buffer.write_index < 2 ^ 31
        → length (m ∷ ms) < fuel
        → Answered parse call.done m s'
            (record (calling ctrl response protocols ch) { protocols = (get_protocol protocols).1 })
            (call_method_async socket parse late fuel call (some controller) response protocols ch)
  unfolding call_method_async
  call_method_async-Answered fuel call controller response protocols ch s s' m ms stream ok small io
        on_time v h low enough =
      let ctrl = init_controller ch controller in
      let req = request_of call ctrl (get_protocol protocols).0 in
      let c : Calling K Rsp D = record (calling ctrl response protocols ch) {
        protocols = (get_protocol protocols).1;
      } in
      let e : call_method_async socket parse late fuel call (some controller) response protocols ch
          ≡ call_over socket parse late fuel call.done req s c =
        simp (stream, ok, call_method_async) in
      subst (Answered parse call.done m s' c) (sym e)
        (call_over_Answered fuel call.done req m ms s s' c small io on_time v h low enough)
