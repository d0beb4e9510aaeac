-- ===== src/Rpc/Client/Store/Answers.antt =====
-- A call of the client over channels as they are.
use mcoro_rpc.Common.{
  ℕ, ◌^◌, ◌<◌, ◌≡◌, refl, sym, ap, ◌∙◌, List, ◌∷◌, ◌++◌, Bool, true, false, Option, some, Bytes, ℤ,
  arith, length, append-nil, Bool-cases, inl, inr, if_true, if_false,
}
use mcoro_rpc.Common.Names.{at_name, names_without}
use mcoro_rpc.Buffer.Holds.{Holds}
use mcoro_rpc.Stream.{Socket, done}
use mcoro_rpc.Stream.Tcp.{TcpStream}
use mcoro_rpc.Codec.{TinyPbProtocol, packet}
use mcoro_rpc.Codec.Decode.RoundTrip.{packets, AllSendable, with_id}
use mcoro_rpc.Rpc.Controller.{RpcController, set_finished}
use mcoro_rpc.Rpc.Pool.{get_protocol}
use mcoro_rpc.Rpc.Caller.{
  RpcChannel, is_zero, thousandth, connected_stream, init_controller, request_of,
}
use mcoro_rpc.Rpc.Caller.Async.{exchange}
use mcoro_rpc.Rpc.Caller.Async.Settled.{init_controller_failed}
use mcoro_rpc.Rpc.Caller.Async.Responses.{call_method_async-Answered}
use mcoro_rpc.Rpc.Client.{
  RpcClient, Channels, call_returns, has_some, get_or_create_channel, cached_channel,
}
use mcoro_rpc.Rpc.Client.Calls.{answered, Work, call_method_async, call_address, call_channel}
use mcoro_rpc.Rpc.Client.Store.{
  Store, Invocation, without_closure, rpc_channels, call_on, conclude, after_call,
}

connected_of_stream :
    {K Rsp D : Type 0} (ch : RpcChannel K Rsp D) (s : TcpStream K)
    → connected_stream ch ≡ some s
    → ch.connected ≡ true
connected_of_stream ch s e = elim (Bool-cases ch.connected) [
  | inl on ↦ on
  | inr off ↦ absurd (ground (arith, sym (if_false _ _ off) ∙ e))
]

-- A call on a channel of the cache that answers at once, over any channels.
module _ {L H C : Type 0} (io : Channels H C) (others : RpcClient L → H → RpcClient L × H)
    (stoi : Bytes → Option ℤ) (stoi_what : Bytes) (choose : List Bytes → L → Bytes × L) where
  answers_first :
      (call : C) (w : Work L H) (n : ℕ) (ctrl : RpcController) (h : H)
      → let available = names_without w.client.instances w.client.failed_addrs in
        has_some w.client.instances ≡ true
        → has_some available ≡ true
        → at_name (choose available w.client.balancer).0 w.client.channels ≡ some n
        → io.is_connected n w.store ≡ true
        → io.call n call w.controller w.store ≡ (call_returns, ctrl, h)
        → ctrl.failed ≡ false
        → call_method_async io others stoi stoi_what choose call w ≡ (
          answered true,
          record {
            client = record w.client { balancer = (choose available w.client.balancer).1 };
            controller = ctrl;
            store = h;
          },
        )
  unfolding call_method_async call_address call_channel get_or_create_channel cached_channel
  answers_first call w n ctrl h some_instance some_left cached live called fine = simp (
    some_instance, some_left, cached, live, called, fine, call_method_async, call_address,
    call_channel, get_or_create_channel, cached_channel,
  )

module _ {K Rsp D L : Type 0} (socket : Socket K) (parse : Bytes → Rsp → Bool × Rsp)
    (late : ℤ → Bool) (fuel : ℕ) (dial : Bytes → ℤ → Option (TcpStream K)) (slow : ℕ → Bool)
    (running : ℕ → Bool) (what : Bytes) (stoi : Bytes → Option ℤ) (stoi_what : Bytes)
    (choose : List Bytes → L → Bytes × L)
    (others : RpcClient L → Store K Rsp D → RpcClient L × Store K Rsp D) where
  -- A call of the client for which the load balancer chooses an instance with a connected channel in
  -- the cache, whose exchange returns in time with a packet that has no error: it answers that it
  -- succeeded, on the first attempt. No closure is run, as the client hands over none;
  -- the controller is finished and not
  -- failed, the data of the packet is parsed into the response, and of the client only the load
  -- balancer has moved. The packets are such as the decoder can take, the request's is shorter than
  -- 2 ^ 31 bytes, and the decoder is given more rounds than there are packets.
  pub client_call_answers :
      (call : Invocation) (w : Work L (Store K Rsp D)) (n : ℕ) (s s' : TcpStream K)
      (m : TinyPbProtocol) (ms : List TinyPbProtocol)
      → let io = rpc_channels socket parse late fuel dial slow running what in
        let available = names_without w.client.instances w.client.failed_addrs in
        let ch = w.store.channels n in
        let ctrl = init_controller ch w.controller in
        let text = packet (
          with_id
            (request_of {D = D} (without_closure call) ctrl (get_protocol w.store.protocols).0)) in
        has_some w.client.instances ≡ true
        → has_some available ≡ true
        → at_name (choose available w.client.balancer).0 w.client.channels ≡ some n
        → connected_stream ch ≡ some s
        → w.controller.failed ≡ false
        → is_zero m.err_code ≡ true
        → call.request.0 ≡ true
        → length text < 2 ^ 31
        → exchange socket fuel text s ≡ some (done, s')
        → late (thousandth ctrl.timeout_ms) ≡ false
        → AllSendable (m ∷ ms)
        → Holds s'.read_buffer (packets (m ∷ ms))
        → s'.read_buffer.write_index < 2 ^ 31
        → length (m ∷ ms) < fuel
        → (w' : Work L (Store K Rsp D)) × (call_method_async io others stoi stoi_what choose call w
            ≡ (answered true, w'))
          × (w'.controller ≡ set_finished true ctrl)
          × (w'.store.ran ≡ w.store.ran)
          × (w'.store.response ≡ (parse m.pb_data w.store.response).1)
          × (w'.client ≡ record w.client { balancer = (choose available w.client.balancer).1 })
  unfolding call_on conclude
  client_call_answers call w n s s' m ms some_instance some_left cached stream unfailed plain ok
        small io_ok on_time v h low enough =
      let io = rpc_channels socket parse late fuel dial slow running what in
      let a =
        call_method_async-Answered socket parse late fuel (without_closure call) w.controller
          w.store.response w.store.protocols (w.store.channels n) s s' m ms stream ok small io_ok
          on_time v h low enough in
      let live = connected_of_stream (w.store.channels n) s stream in
      let ctrl = init_controller (w.store.channels n) w.controller in
      let h' = after_call n a.after w.store in
      let called : io.call n call w.controller w.store ≡ (call_returns, a.after.controller, h') =
        ap (conclude what n w.controller w.store) a.returns in
      let concludes : a.after.controller ≡ set_finished true ctrl =
        a.controller ∙ ap (set_finished true) (if_true _ _ plain) in
      let fine : a.after.controller.failed ≡ false =
        ap (λ (k : RpcController). k.failed) concludes
        ∙ sym (init_controller_failed (w.store.channels n) w.controller)
        ∙ unfailed in
      (
        record {
          client = record w.client {
            balancer =
                (choose (names_without w.client.instances w.client.failed_addrs)
                  w.client.balancer).1;
          };
          controller = a.after.controller;
          store = h';
        },
        answers_first io others stoi stoi_what choose call w n a.after.controller h' some_instance
            some_left cached live called fine,
        concludes,
        ap (λ l. w.store.ran ++ l) a.ran ∙ append-nil w.store.ran,
        a.response ∙ if_true _ _ plain,
        refl,
      )
