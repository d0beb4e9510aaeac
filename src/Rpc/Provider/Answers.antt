-- ===== src/Rpc/Provider/Answers.antt =====
-- What the provider answers to the requests of a round.
use mcoro_rpc.Common.{
  ℕ, suc, ◌+◌, ◌^◌, ◌<◌, ◌≡◌, ◌≢◌, refl, sym, ap, subst, ◌∙◌, List, [], ◌∷◌, ◌++◌, append-nil, map,
  Option, none, some, Bytes, length, length-append, arith, drop_all, false, ◌==◌,
}
use mcoro_rpc.Buffer.{TcpBuffer, create, contents}
use mcoro_rpc.Buffer.Holds.{
  Holds, Holds_bounds, create-Holds, contents_of_Holds, read_able_of_Holds, read_index-create,
}
use mcoro_rpc.Buffer.Fifo.{move_read_index-Leaves}
use mcoro_rpc.Codec.{TinyPbProtocol, encode, packet, new_protocol, pb_start}
use mcoro_rpc.Wire.{net_bytes}
use mcoro_rpc.Codec.Decode.Stray.{NoStart}
use mcoro_rpc.Codec.Decode.Partial.{decode-partial}
use mcoro_rpc.Codec.Decode.Packet.{arrived}
use mcoro_rpc.Codec.Decode.RoundTrip.{
  packets, AllSendable, decode-packets, encode-Holds, with_id, sent,
}
use mcoro_rpc.Rpc.Context.{RpcContext}
use mcoro_rpc.Rpc.Pool.{IsClear, get_protocol, get_context, IsSound, get_protocol-IsClear}
use mcoro_rpc.Rpc.Dispatcher.{Services, dispatch}
use mcoro_rpc.Rpc.Dispatcher.Texts.{SameText, dispatch-Agree, packet-SameText}
use mcoro_rpc.Rpc.Provider.{
  Provider, answered, handle_message, handle_messages, handle_round, recycle_outer, with_addresses,
}

-- Every answer fits one packet.
abbrev pub AllFit : List TinyPbProtocol → Type 0
AllFit [] = Unit {0}
AllFit (m ∷ ms) = (length (packet (with_id m)) < 2 ^ 31) × AllFit ms

pub encode_one :
    (m : TinyPbProtocol)
    → length (packet (with_id m)) < 2 ^ 31
    → (b : TcpBuffer) × (encode (m ∷ []) (create 1024) ≡ some (sent m ∷ [], b))
      × (contents b ≡ packet (with_id m))
encode_one m small =
    let (b, e, h, z) =
      encode-Holds (m ∷ []) [] (create-Holds 1024) (read_index-create 1024)
        (omega (arith, length-append (packet (with_id m)) [])) in
    (b, e, contents_of_Holds h ∙ append-nil (packet (with_id m)))

like_new : {m : TinyPbProtocol} → IsClear m → SameText m new_protocol
unfolding new_protocol
like_new c = record {
  same_id = c.no_id;
  same_method = c.no_method;
  same_code = c.no_code;
  same_info = c.no_info;
  same_data = c.no_data;
}

module _ {Msg S : Type 0} where
  -- The answer of the services to a request, into a new response and without a context, and the
  -- state that the call leaves.
  abbrev pub answer : Services Msg S → TinyPbProtocol → S → TinyPbProtocol × S
  answer services request s =
      let (response, _, s') = dispatch {Addr = Unit {0}} services request new_protocol none s in
      (response, s')

  -- The answers to requests in order.
  abbrev pub answers : Services Msg S → List TinyPbProtocol → S → List TinyPbProtocol × S
  answers services [] s = ([], s)
  answers services (m ∷ ms) s =
      let (response, s') = answer services m s in
      let (later, last) = answers services ms s' in (response ∷ later, last)

pub packets-pos : (ms : List TinyPbProtocol) → ms ≢ [] → 0 < length (packets ms)
packets-pos [] d = absurd (d refl)
packets-pos (m ∷ ms) d = omega arith

module _ {Msg S Addr : Type 0} where
  pub handle_message_lem :
      (n : ℕ) (provider : Provider Msg S Addr) (m : TinyPbProtocol)
      → IsSound n provider.protocols
      → length (packet (with_id (answer provider.services m provider.state).0)) < 2 ^ 31
      → (after : Provider Msg S Addr) × (handle_message provider m
          ≡ some (packet (with_id (answer provider.services m provider.state).0), after))
        × (after.state ≡ (answer provider.services m provider.state).1)
        × (after.services ≡ provider.services)
        × IsSound n after.protocols
  unfolding handle_message
  handle_message_lem n provider m s small =
      let nobody : Option (RpcContext (Unit {0})) = none in
      let (clear, s') = get_protocol-IsClear n provider.protocols s in
      let (same, state) =
        dispatch-Agree provider.services m (get_protocol provider.protocols).0 new_protocol
          (some (with_addresses provider (get_context provider.contexts).0)) nobody provider.state
          (like_new clear) in
      let text = packet-SameText same in
      let end =
        dispatch provider.services m (get_protocol provider.protocols).0
          (some (with_addresses provider (get_context provider.contexts).0)) provider.state in
      let after : Provider Msg S Addr = record provider {
        state = end.2;
        protocols = (get_protocol provider.protocols).1;
        contexts = (get_context provider.contexts).1;
      } in
      let (b, e, shown) = encode_one end.0 (subst (λ t. length t < 2 ^ 31) (sym text) small) in
      (after, rw (e, handle_message) (ap (λ t. some (t, after)) (shown ∙ text)), state, refl, s')

  handle_messages_lem :
      (n : ℕ) (provider : Provider Msg S Addr) (ms : List TinyPbProtocol)
      → IsSound n provider.protocols
      → AllFit (answers provider.services ms provider.state).0
      → (after : Provider Msg S Addr) × (handle_messages provider ms
          ≡ some (
            map (λ r. packet (with_id r)) (answers provider.services ms provider.state).0,
            after,
          ))
        × (after.state ≡ (answers provider.services ms provider.state).1)
  unfolding handle_messages
  handle_messages_lem n provider [] s small = (provider, refl, refl)
  handle_messages_lem n provider (m ∷ ms) s small =
      let (next, e, state, services, s') = handle_message_lem n provider m s small.0 in
      let (_, first) = answer provider.services m provider.state in
      let go : answers next.services ms next.state ≡ answers provider.services ms first =
        rw (services, state) refl in
      let (last, e', end) =
        handle_messages_lem n next ms s' (subst (λ a. AllFit a.0) (sym go) small.1) in
      (last, rw (e, e', handle_messages, go) refl, end ∙ ap (λ a. a.1) go)

  -- Requests that stand in the buffer, one behind another and each whole, at least one and each
  -- such as the decoder can take, are all answered in one round and in their order: what is written
  -- are the packets of the answers that the services give to them one after the other, the services
  -- are left as they leave them, and the buffer empty. The objects in the pool of protocols are
  -- clear, the write index is below 2 ^ 31, each answer's packet is shorter than that, and the
  -- decoder is given more rounds than there are requests.
  pub handle_round_lem :
      (ms : List TinyPbProtocol) (n fuel : ℕ) (provider : Provider Msg S Addr) {b : TcpBuffer}
      → ms ≢ []
      → AllSendable ms
      → Holds b (packets ms)
      → b.write_index < 2 ^ 31
      → length ms < fuel
      → IsSound n provider.protocols
      → AllFit (answers provider.services (map arrived ms) provider.state).0
      → (b' : TcpBuffer) × (after : Provider Msg S Addr) × (handle_round fuel provider b
          ≡ answered
              (map
                (λ r. packet (with_id r))
                (answers provider.services (map arrived ms) provider.state).0)
              b'
              after)
        × Holds b' []
        × (after.state ≡ (answers provider.services (map arrived ms) provider.state).1)
  unfolding handle_round recycle_outer
  handle_round_lem ms n fuel provider {b} some_left v h low enough s small =
      let (left, e, h1) = decode-packets ms fuel [] v h low enough in
      let (after, e', state) = handle_messages_lem n provider (map arrived ms) s small in
      let (emptied, e'', h2) = move_read_index-Leaves [] 0 h1 (omega arith) in
      let unread : b.write_index == b.read_index ≡ false =
        ground (arith, packets-pos ms some_left, Holds_bounds (packets ms) h) in
      let count = read_able_of_Holds [] h1 in
      (emptied, recycle_outer after, rw (unread, e, e', count, e'', handle_round) refl, h2, state)

  -- A request of which a first part is alone in the buffer, its start byte and length and no
  -- further start byte, and at least two bytes short, is thrown away with nothing answered, where
  -- indices stay below 2 ^ 31.
  pub handle_round_drops :
      (total : ℕ) (t : Bytes) (fuel : ℕ) (provider : Provider Msg S Addr) {b : TcpBuffer}
      → Holds b (pb_start ∷ (net_bytes total ++ t))
      → NoStart (net_bytes total ++ t)
      → 6 + length t < total
      → b.read_index + total < 2 ^ 31
      → (b' : TcpBuffer) × (after : Provider Msg S Addr) × (handle_round (suc fuel) provider b
          ≡ answered [] b' after)
        × Holds b' []
  unfolding handle_round handle_messages
  handle_round_drops total t fuel provider {b} h clean cut small =
      let q = pb_start ∷ (net_bytes total ++ t) in
      let (emptied, e, h') = move_read_index-Leaves q (length q) h (omega arith) in
      let unread : b.write_index == b.read_index ≡ false = ground (arith, Holds_bounds q h) in
      (
        emptied,
        recycle_outer provider,
        rw
            (
              unread,
              decode-partial total t fuel [] h clean cut small,
              read_able_of_Holds q h,
              e,
              handle_round,
            )
            refl,
        rw (drop_all (length q) q (omega arith)) at h',
      )
