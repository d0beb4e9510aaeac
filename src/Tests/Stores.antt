-- ===== src/Tests/Stores.antt =====
-- A client over channels as they are, and one that finds its service.
use mcoro_rpc.Common.{
  ℕ, ◌≡◌, refl, List, [], ◌∷◌, ◌++◌, Bool, true, false, Option, none, some, Bytes, codes, arith, ℤ,
  pos, replicate,
}
use mcoro_rpc.Wire.{net_bytes}
use mcoro_rpc.Codec.{new_protocol}
use mcoro_rpc.Stream.Tcp.{TcpStream}
use mcoro_rpc.ZkClient.{ZkResult, zok, new_zk_client}
use mcoro_rpc.Rpc.Controller.{new_controller, set_finished}
use mcoro_rpc.Rpc.Pool.{get_protocol}
use mcoro_rpc.Rpc.Discovery.{join, AllNames}
use mcoro_rpc.Rpc.Caller.{init_controller}
use mcoro_rpc.Rpc.Client.{RpcClient, has_some}
use mcoro_rpc.Rpc.Client.Cache.{Cached}
use mcoro_rpc.Rpc.Client.Calls.{Work, answered, call_method_async}
use mcoro_rpc.Rpc.Client.Store.{Store, Invocation, rpc_channels}
use mcoro_rpc.Rpc.Client.Discovering.{
  ServiceDiscovery, new_discovery, connect_with_discovery, no_node, connect_with_discovery_lem,
}
use mcoro_rpc.Buffer.{TcpBuffer}
use mcoro_rpc.Codec.{packet}
use mcoro_rpc.Rpc.Provider.{Provider, handle_round, answered as wrote}
use mcoro_rpc.Rpc.EndToEnd.Clients.{client_call_computes}
use mcoro_rpc.Tests.Services.{echo}
use mcoro_rpc.Tests.Remote.{echo_provider, asked, asked-Holds, echo-Works}
use mcoro_rpc.Tests.Calls.{request-IsSendable}
use mcoro_rpc.Tests.Streams.{ready_socket}
use mcoro_rpc.Tests.Calls.{
  call, response, before, behind, exchanged, channel, parse, in_time, empty_pool, behind-Holds,
}
use mcoro_rpc.Tests.Clients.{client, deaf, first, port_80}

-- No host can be dialled anew; the channel of `a:b` is there.
abbrev no_dial : Bytes → ℤ → Option (TcpStream (Bytes × Bytes))
no_dial host port = none

abbrev never : ℕ → Bool
never n = false

-- Nothing else happens while a call waits.
abbrev quiet :
    RpcClient ℕ → Store (Bytes × Bytes) Bytes ℕ → RpcClient ℕ × Store (Bytes × Bytes) Bytes ℕ
quiet c h = (c, h)

abbrev asks : Invocation
asks = record { full_name = call.full_name; request = call.request }

abbrev store : Store (Bytes × Bytes) Bytes ℕ
store = record {
  channels = λ n. channel;
  addresses = λ n. (codes "a", pos 80);
  next = 1;
  response = [];
  protocols = empty_pool;
  ran = [];
  stuck = false;
}

abbrev with_channel : RpcClient ℕ
with_channel = record client { channels = (codes "a:b", 0) ∷ [] }

abbrev work : Work ℕ (Store (Bytes × Bytes) Bytes ℕ)
work = record { client = with_channel; controller = new_controller; store = store }

client_call_computes_example :
    (b' : TcpBuffer) × (after : Provider Bytes ℕ ℕ) × (w' : Work ℕ (Store (Bytes × Bytes) Bytes ℕ))
    × (handle_round 4 echo_provider asked ≡ wrote (packet response ∷ []) b' after)
    × (after.state ≡ 6)
    × (call_method_async
          (rpc_channels ready_socket parse in_time 4 no_dial never never [])
          quiet
          port_80
          []
          first
          asks
          work
        ≡ (answered true, w'))
    × (w'.controller ≡ set_finished true (init_controller channel new_controller))
    × (w'.store.ran ≡ [])
    × (w'.store.response ≡ 7 ∷ 1 ∷ [])
unfolding new_controller init_controller new_protocol net_bytes get_protocol
client_call_computes_example =
    client_call_computes ready_socket parse in_time 2 no_dial never never [] port_80 [] first quiet
      0 1024 echo [] echo_provider asks work before behind (codes "ping") (7 ∷ 1 ∷ []) 6 refl refl
      refl refl refl refl (ground arith) echo-Works refl refl request-IsSendable (omega arith)
      asked-Holds (omega arith) record { all_clear = tt; bounded = omega arith; same_bound = refl }
      (omega arith) (omega arith) exchanged refl behind-Holds (omega arith)

abbrev found_names : List Bytes
found_names = codes "a:1" ∷ codes "b:2" ∷ []

found_names-AllNames : AllNames found_names
found_names-AllNames = ground arith

abbrev answer : ZkResult
answer = record { rc = zok; data_text = join found_names; path = [] }

new_discovery_zk : new_discovery.zk ≡ some new_zk_client
unfolding new_discovery
new_discovery_zk = refl

connect_with_discovery_lem_example :
    let run = λ (answers : List ZkResult).
      connect_with_discovery deaf true [] (codes "S") 6 answers new_discovery client 0 in
    (d' : ServiceDiscovery) × (client' : RpcClient ℕ) × (h' : ℕ) × (run (replicate 3 no_node)
      ≡ none)
    × (run (replicate 3 no_node ++ (answer ∷ [])) ≡ some (d', client', h'))
    × (client'.service_name ≡ codes "S")
    × (client'.instances ≡ found_names)
    × (client'.connected ≡ has_some found_names)
    × (client'.channels ≡ [])
    × Cached client'
connect_with_discovery_lem_example =
    connect_with_discovery_lem deaf true [] (codes "S") [] 6 3 found_names [] new_discovery
      new_zk_client client 0 new_discovery_zk found_names-AllNames
