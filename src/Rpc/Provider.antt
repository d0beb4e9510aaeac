-- ===== src/Rpc/Provider.antt =====
-- The provider's work on one connection: `RpcProvider::handleClient` of src/rpc_provider.cc,
-- from the bytes that a read left in the buffer to the bytes that are written back.
pub mod Answers
pub mod Serving
pub mod Life
use mcoro_rpc.Common.{
  ℕ, List, [], ◌∷◌, Option, none, some, Bytes, ◌==◌, if◌then◌else◌, ℤ, pos, negsuc, true, false,
}
use mcoro_rpc.Buffer.{TcpBuffer, create, contents, read_able, move_read_index}
use mcoro_rpc.Codec.{TinyPbProtocol, encode}
use mcoro_rpc.Codec.Decode.{decode, returned, threw, faulted, out_of_fuel}
use mcoro_rpc.Rpc.Context.{RpcContext, set_local_addr, set_peer_addr}
use mcoro_rpc.Rpc.Pool.{ObjectPool, get_protocol, get_context, recycle_protocol, recycle_context}
use mcoro_rpc.Rpc.Dispatcher.{Services, dispatch}

-- What the loop reads and changes: the services and their state, the two pools, the address of
-- the provider and that of the client, where the socket gives one.
pub record Provider (Msg S Addr : Type 0) : Type 0 where
  pub services : Services Msg S
  pub state : S
  pub protocols : ObjectPool TinyPbProtocol
  pub contexts : ObjectPool (RpcContext Addr)
  pub local_addr : Addr
  pub peer_addr : Option Addr

-- How a round of the loop ends: the connection is closed, or these texts were written.
pub data Round (Msg S Addr : Type 0) : Type 0 where
  closed fault no_fuel : Round Msg S Addr
  answered : List Bytes → TcpBuffer → Provider Msg S Addr → Round Msg S Addr

module _ {Msg S Addr : Type 0} where
  pub with_addresses : Provider Msg S Addr → RpcContext Addr → RpcContext Addr
  with_addresses provider fresh =
      let ctx = set_local_addr (some provider.local_addr) fresh in
      elim provider.peer_addr [ none ↦ ctx | some addr ↦ set_peer_addr (some addr) ctx ]

  -- One request: the text written back; `none` is a fault of the encoder.
  pub handle_message : Provider Msg S Addr → TinyPbProtocol → Option (Bytes × Provider Msg S Addr)
  handle_message provider request =
      let (response, protocols) = get_protocol provider.protocols in
      let (fresh, contexts) = get_context provider.contexts in
      let ctx = some (with_addresses provider fresh) in
      let (answer, _, state) = dispatch provider.services request response ctx provider.state in
      elim (encode (answer ∷ []) (create 1024)) [
        | none ↦ none
        | some (_, out_buf) ↦ some (
          contents out_buf,
          record provider { state = state; protocols = protocols; contexts = contexts },
        )
      ]

  pub handle_messages :
      Provider Msg S Addr → List TinyPbProtocol → Option (List Bytes × Provider Msg S Addr)
  handle_messages provider [] = some ([], provider)
  handle_messages provider (m ∷ ms) = elim (handle_message provider m) [
    | none ↦ none
    | some (text, provider') ↦ elim (handle_messages provider' ms) [
      | none ↦ none
      | some (texts, last) ↦ some (text ∷ texts, last)
    ]
  ]

  -- The pointers given back to the pools behind the requests are those declared before the loop,
  -- which are null: the ones of a request are other variables of the same names.
  pub recycle_outer : Provider Msg S Addr → Provider Msg S Addr
  recycle_outer provider = record provider {
    protocols = recycle_protocol none provider.protocols;
    contexts = recycle_context none provider.contexts;
  }

  -- The round behind `readToBuffer`, with `fuel` rounds for the loop of `decode`.
  pub handle_round : ℕ → Provider Msg S Addr → TcpBuffer → Round Msg S Addr
  unfolding read_able
  handle_round fuel provider buffer =
      if buffer.write_index == buffer.read_index then closed else elim (decode fuel [] buffer) [
        | out_of_fuel ↦ no_fuel
        | faulted ↦ fault
        | threw _ _ ↦ closed
        | returned msgs left ↦ elim (handle_messages provider msgs) [
          | none ↦ fault
          | some (texts, provider') ↦ elim (move_read_index left (read_able left)) [
            | none ↦ fault
            | some emptied ↦ answered texts emptied (recycle_outer provider')
          ]
        ]
      ]
