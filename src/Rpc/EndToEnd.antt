-- ===== src/Rpc/EndToEnd.antt =====
-- A call from the client's `CallMethodAsync` of include/rpc/rpc_channel.inl through the provider's
-- `handleClient` of src/rpc_provider.cc to the service's method and back.
pub mod Clients
use mcoro_rpc.Common.{
  ℕ, suc, ◌^◌, ◌<◌, ◌≡◌, refl, sym, ap, ◌∙◌, subst, [], ◌∷◌, ◌++◌, map, Bool, true, false, none,
  some, Bytes, same_refl, if_true, length, arith, ℤ, pos,
}
use mcoro_rpc.Buffer.{TcpBuffer}
use mcoro_rpc.Buffer.Holds.{Holds}
use mcoro_rpc.Stream.{Socket, done}
use mcoro_rpc.Stream.Tcp.{TcpStream}
use mcoro_rpc.Codec.{TinyPbProtocol, packet, new_protocol}
use mcoro_rpc.Codec.Decode.Packet.{arrived, IsSendable}
use mcoro_rpc.Codec.Decode.RoundTrip.{packets, with_id}
use mcoro_rpc.Rpc.Controller.{RpcController, set_finished}
use mcoro_rpc.Rpc.Pool.{ObjectPool, get_protocol, IsSound}
use mcoro_rpc.Rpc.Dispatcher.{Service, Services, register_service, dispatch_to, dot}
use mcoro_rpc.Rpc.Dispatcher.Names.{Lacks}
use mcoro_rpc.Rpc.Dispatcher.Routes.{addressed, dispatch-register_service}
use mcoro_rpc.Rpc.Provider.{Provider, handle_round, answered}
use mcoro_rpc.Rpc.Provider.Answers.{AllFit, answer, answers, handle_round_lem}
use mcoro_rpc.Rpc.Caller.{
  RpcChannel, Call, Calling, returns_with, run_done, thousandth, connected_stream, init_controller,
  request_of,
}
use mcoro_rpc.Rpc.Caller.Async.{exchange, call_method_async}
use mcoro_rpc.Rpc.Caller.Async.Responses.{call_method_async-Answered}

-- The service's method answers `text` to the request `asked`, and leaves the state `last`.
pub record Works {Msg S : Type 0} (v : Service Msg S) (method data_in text : Bytes) (s last : S)
    : Type 0 where
  pub finds : v.find_method method ≡ true
  pub asked : Msg
  pub parses : v.parse_request method data_in ≡ some asked
  pub serializes : v.serialize method (v.call_method method asked s).0 [] ≡ (true, text)
  pub leaves : (v.call_method method asked s).1 ≡ last

-- The response that goes back.
abbrev pub reply : TinyPbProtocol → Bytes → TinyPbProtocol
reply req text = record (addressed req new_protocol) { pb_data = text; err_code = pos 0 }

answer-Works :
    {Msg S : Type 0} (v : Service Msg S) (others : Services Msg S) (req : TinyPbProtocol)
    (method text : Bytes) (s last : S)
    → req.method_name ≡ v.full_name ++ (dot ∷ method)
    → Lacks dot method
    → Works v method req.pb_data text s last
    → answer (register_service v others) req s ≡ (reply req text, last)
unfolding new_protocol dispatch_to
answer-Works v others req method text s last named plain w =
    let e =
      dispatch-register_service {Addr = Unit {0}} v others req new_protocol none s v.full_name
        method named plain in
    ap (λ r. (r.0, r.2)) (e ∙ if_true _ _ (same_refl v.full_name))
    ∙ rw (w.finds, w.parses, w.serializes, w.leaves, dispatch_to) refl

module _ {K Rsp D Msg S Addr : Type 0} (socket : Socket K) (parse : Bytes → Rsp → Bool × Rsp)
    (late : ℤ → Bool) where
  -- A call to a method of a service that the provider has registered does what the method does:
  -- where the provider's buffer holds the request as the client sent it and the client's buffer,
  -- behind an exchange that returns in time, the packet that the provider then writes, the provider
  -- writes just the response with the method's text, its service is left in the method's state, and
  -- the client's call runs its closure once, finishes without a failure of its own, and has that
  -- text parsed into its response. Both messages are such as the decoder can take, their packets
  -- and the write indices are below 2 ^ 31, and the provider's pool holds clear objects.
  pub call_computes :
      (fuel n : ℕ) (v : Service Msg S) (others : Services Msg S) (provider : Provider Msg S Addr)
      (call : Call D) (controller : RpcController) (response : Rsp)
      (protocols : ObjectPool TinyPbProtocol) (ch : RpcChannel K Rsp D) (s s' : TcpStream K)
      (method text : Bytes) (last : S) {b : TcpBuffer}
      → let ctrl = init_controller ch controller in
        let req = with_id (request_of call ctrl (get_protocol protocols).0) in
        let rsp = with_id (reply (arrived req) text) in
        provider.services ≡ register_service v others
        → call.full_name ≡ v.full_name ++ (dot ∷ method)
        → Lacks dot method
        → Works v method call.request.1 text provider.state last
        → connected_stream ch ≡ some s
        → call.request.0 ≡ true
        → IsSendable req
        → length (packet req) < 2 ^ 31
        → Holds b (packets (req ∷ []))
        → b.write_index < 2 ^ 31
        → IsSound n provider.protocols
        → IsSendable rsp
        → length (packet rsp) < 2 ^ 31
        → exchange socket (suc (suc fuel)) (packet req) s ≡ some (done, s')
        → late (thousandth ctrl.timeout_ms) ≡ false
        → Holds s'.read_buffer (packets (rsp ∷ []))
        → s'.read_buffer.write_index < 2 ^ 31
        → (b' left : TcpBuffer) × (after : Provider Msg S Addr) × (e : Calling K Rsp D)
          × (handle_round (suc (suc fuel)) provider b ≡ answered (packet rsp ∷ []) b' after)
          × (after.state ≡ last)
          × (call_method_async socket parse late
                (suc (suc fuel))
                call
                (some controller)
                response
                protocols
                ch
              ≡ returns_with e)
          × (e.ran ≡ run_done call.done)
          × (e.controller ≡ set_finished true ctrl)
          × (e.response ≡ (parse text response).1)
  call_computes fuel n v others provider call controller response protocols ch s s' method text last
        {b} services named plain works stream ok sendable small h low sound sendable' small' io
        on_time h' low' =
      let ctrl = init_controller ch controller in
      let req = with_id (request_of call ctrl (get_protocol protocols).0) in
      let rsp = with_id (reply (arrived req) text) in
      let given : answers provider.services (arrived req ∷ []) provider.state
          ≡ (reply (arrived req) text ∷ [], last) =
        ap (λ v'. answers v' (arrived req ∷ []) provider.state) services
        ∙ ap (λ r. (r.0 ∷ [], r.1))
            (answer-Works v others (arrived req) method text provider.state last named plain
              works) in
      let (b', after, e, _, state) =
        handle_round_lem (req ∷ []) n (suc (suc fuel)) provider (λ z. cc) (sendable, tt) h low
          (omega arith) sound (subst (λ r. AllFit r.0) (sym given) (small', tt)) in
      let a =
        call_method_async-Answered socket parse late (suc (suc fuel)) call controller response
          protocols ch s s' rsp [] stream ok small io on_time (sendable', tt) h' low'
          (omega arith) in
      (
        b',
        a.left,
        after,
        a.after,
        e ∙ ap (λ r. answered (map (λ m. packet (with_id m)) r.0) b' after) given,
        state ∙ ap (λ r. r.1) given,
        a.returns,
        a.ran,
        a.controller,
        a.response,
      )
