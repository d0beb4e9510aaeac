-- ===== src/Rpc/EndToEnd/Clients.antt =====
-- A call of an `RpcClient`, from `callMethodAsync` of src/rpc_client_impl.cc to the service's method
-- and back.
use mcoro_rpc.Common.{
  ℕ, suc, ◌^◌, ◌<◌, ◌≡◌, refl, [], ◌∷◌, ◌++◌, Bool, true, false, some, Option, Bytes, length, arith,
  ℤ, List,
}
use mcoro_rpc.Common.Names.{at_name, names_without}
use mcoro_rpc.Buffer.{TcpBuffer}
use mcoro_rpc.Buffer.Holds.{Holds}
use mcoro_rpc.Stream.{Socket, done}
use mcoro_rpc.Stream.Tcp.{TcpStream}
use mcoro_rpc.Codec.{packet}
use mcoro_rpc.Codec.Decode.Packet.{arrived, IsSendable}
use mcoro_rpc.Codec.Decode.RoundTrip.{packets, with_id}
use mcoro_rpc.Rpc.Controller.{set_finished}
use mcoro_rpc.Rpc.Pool.{get_protocol, IsSound}
use mcoro_rpc.Rpc.Dispatcher.{Service, Services, register_service, dot}
use mcoro_rpc.Rpc.Dispatcher.Names.{Lacks}
use mcoro_rpc.Rpc.Provider.{Provider, handle_round, answered as wrote}
use mcoro_rpc.Rpc.Caller.{thousandth, connected_stream, init_controller, request_of}
use mcoro_rpc.Rpc.Caller.Async.{exchange}
use mcoro_rpc.Rpc.Client.{RpcClient, has_some}
use mcoro_rpc.Rpc.Client.Calls.{Work, answered, call_method_async}
use mcoro_rpc.Rpc.Client.Store.{Store, Invocation, without_closure, rpc_channels}
use mcoro_rpc.Rpc.Client.Store.Answers.{client_call_answers}
use mcoro_rpc.Rpc.EndToEnd.{Works, reply, call_computes}

module _ {K Rsp D L Msg S Addr : Type 0} (socket : Socket K) (parse : Bytes → Rsp → Bool × Rsp)
    (late : ℤ → Bool) (fuel : ℕ) (dial : Bytes → ℤ → Option (TcpStream K)) (slow : ℕ → Bool)
    (running : ℕ → Bool) (what : Bytes) (stoi : Bytes → Option ℤ) (stoi_what : Bytes)
    (choose : List Bytes → L → Bytes × L)
    (meanwhile : RpcClient L → Store K Rsp D → RpcClient L × Store K Rsp D) where
  -- A call of a client to a method of a service that a provider has registered does what the method
  -- does. The load balancer chooses an instance with a connected channel in the cache; the
  -- provider's buffer holds the request as that channel sent it, and the channel's buffer, behind an
  -- exchange that returns in time, the packet that the provider then writes. The provider writes
  -- just the response with the method's text, and its service is left in the method's state; the
  -- client answers on the first attempt that the call succeeded, no closure is run, as the client
  -- hands over none, the controller is finished and not failed, and that text is parsed into the
  -- response. Both messages are such as the decoder can take, their packets and the write indices
  -- are below 2 ^ 31, and the provider's pool holds clear objects.
  pub client_call_computes :
      (n bound : ℕ) (v : Service Msg S) (others : Services Msg S) (provider : Provider Msg S Addr)
      (call : Invocation) (w : Work L (Store K Rsp D)) (s s' : TcpStream K) (method text : Bytes)
      (last : S) {b : TcpBuffer}
      → let io = rpc_channels socket parse late (suc (suc fuel)) dial slow running what in
        let available = names_without w.client.instances w.client.failed_addrs in
        let ctrl = init_controller (w.store.channels n) w.controller in
        let req =
          with_id
            (request_of {D = D} (without_closure call) ctrl (get_protocol w.store.protocols).0) in
        let rsp = with_id (reply (arrived req) text) in
        has_some w.client.instances ≡ true
        → has_some available ≡ true
        → at_name (choose available w.client.balancer).0 w.client.channels ≡ some n
        → w.controller.failed ≡ false
        → provider.services ≡ register_service v others
        → call.full_name ≡ v.full_name ++ (dot ∷ method)
        → Lacks dot method
        → Works v method call.request.1 text provider.state last
        → connected_stream (w.store.channels n) ≡ some s
        → call.request.0 ≡ true
        → IsSendable req
        → length (packet req) < 2 ^ 31
        → Holds b (packets (req ∷ []))
        → b.write_index < 2 ^ 31
        → IsSound bound provider.protocols
        → IsSendable rsp
        → length (packet rsp) < 2 ^ 31
        → exchange socket (suc (suc fuel)) (packet req) s ≡ some (done, s')
        → late (thousandth ctrl.timeout_ms) ≡ false
        → Holds s'.read_buffer (packets (rsp ∷ []))
        → s'.read_buffer.write_index < 2 ^ 31
        → (b' : TcpBuffer) × (after : Provider Msg S Addr) × (w' : Work L (Store K Rsp D))
          × (handle_round (suc (suc fuel)) provider b ≡ wrote (packet rsp ∷ []) b' after)
          × (after.state ≡ last)
          × (call_method_async io meanwhile stoi stoi_what choose call w ≡ (answered true, w'))
          × (w'.controller ≡ set_finished true ctrl)
          × (w'.store.ran ≡ w.store.ran)
          × (w'.store.response ≡ (parse text w.store.response).1)
  client_call_computes n bound v others provider call w s s' method text last {b} some_instance
        some_left cached unfailed services named plain works stream ok sendable small h low sound
        sendable' small' io on_time h' low' =
      let ctrl = init_controller (w.store.channels n) w.controller in
      let req =
        with_id
          (request_of {D = D} (without_closure call) ctrl (get_protocol w.store.protocols).0) in
      let rsp = with_id (reply (arrived req) text) in
      let (b', _, after, _, round, state, _, _, _, _) =
        call_computes socket parse late fuel bound v others provider (without_closure call)
          w.controller w.store.response w.store.protocols (w.store.channels n) s s' method text last
          services named plain works stream ok sendable small h low sound sendable' small' io
          on_time h' low' in
      let (w', called, concludes, ran, response, _) =
        client_call_answers socket parse late (suc (suc fuel)) dial slow running what stoi stoi_what
          choose meanwhile call w n s s' rsp [] some_instance some_left cached stream unfailed refl
          ok small io on_time (sendable', tt) h' low' (omega arith) in
      (b', after, w', round, state, called, concludes, ran, response)
