-- ===== src/Tests/Remote.antt =====
-- A call through a provider, and the channel's own life.
use mcoro_rpc.Common.{
  ℕ, ◌≡◌, refl, [], ◌∷◌, none, true, false, Bool, Bytes, codes, arith, Option, some,
}
use mcoro_rpc.Wire.{net_bytes}
use mcoro_rpc.Buffer.{TcpBuffer}
use mcoro_rpc.Buffer.Holds.{Holds}
use mcoro_rpc.Codec.{packet, new_protocol}
use mcoro_rpc.Codec.Decode.RoundTrip.{packets}
use mcoro_rpc.Stream.Tcp.{TcpStream}
use mcoro_rpc.Rpc.Controller.{new_controller, set_finished}
use mcoro_rpc.Rpc.Pool.{get_protocol}
use mcoro_rpc.Rpc.Dispatcher.{register_service}
use mcoro_rpc.Rpc.Provider.{Provider, handle_round, answered}
use mcoro_rpc.Rpc.Caller.{Calling, returns_with, init_controller}
use mcoro_rpc.Rpc.Caller.Connection.{reconnect}
use mcoro_rpc.Rpc.Caller.Connection.Retries.{Retried, reconnect-Retried}
use mcoro_rpc.Rpc.Caller.Async.{call_method_async}
use mcoro_rpc.Rpc.EndToEnd.{Works, call_computes}
use mcoro_rpc.Tests.Services.{echo}
use mcoro_rpc.Tests.Streams.{ready_socket}
use mcoro_rpc.Tests.Calls.{
  call, request, response, before, behind, channel, parse, in_time, empty_pool, exchanged,
  request-IsSendable, behind-Holds,
}

abbrev pub echo_provider : Provider Bytes ℕ ℕ
echo_provider = record {
  services = register_service echo [];
  state = 5;
  protocols = empty_pool;
  contexts = record { pool = []; max_size = 1024 };
  local_addr = 1;
  peer_addr = none;
}

abbrev pub asked : TcpBuffer
asked = record { read_index = 0; write_index = 42; size = 42; buffer = packet request }

pub asked-Holds : Holds asked (packets (request ∷ []))
unfolding net_bytes new_protocol
asked-Holds = record { pre = []; post = []; layout = refl; at_read = refl; at_write = refl }

pub echo-Works : Works echo (codes "ping") (1 ∷ []) (7 ∷ 1 ∷ []) 5 6
echo-Works = record {
  finds = refl;
  asked = 1 ∷ [];
  parses = refl;
  serializes = refl;
  leaves = refl;
}

call_computes_example :
    (b' left : TcpBuffer) × (after : Provider Bytes ℕ ℕ) × (e : Calling (Bytes × Bytes) Bytes ℕ)
    × (handle_round 4 echo_provider asked ≡ answered (packet response ∷ []) b' after)
    × (after.state ≡ 6)
    × (call_method_async ready_socket parse in_time 4 call
          (some new_controller)
          []
          empty_pool
          channel
        ≡ returns_with e)
    × (e.ran ≡ 4 ∷ [])
    × (e.controller ≡ set_finished true new_controller)
    × (e.response ≡ 7 ∷ 1 ∷ [])
unfolding new_controller init_controller new_protocol net_bytes get_protocol
call_computes_example =
    call_computes ready_socket parse in_time 2 1024 echo [] echo_provider call new_controller []
      empty_pool channel before behind (codes "ping") (7 ∷ 1 ∷ []) 6 refl refl (ground arith)
      echo-Works refl refl request-IsSendable (omega arith) asked-Holds (omega arith)
      record { all_clear = tt; bounded = omega arith; same_bound = refl } (omega arith)
      (omega arith) exchanged refl behind-Holds (omega arith)

-- The same stream behind the write, and a request to the worker.
abbrev written : TcpStream (Bytes × Bytes)
written = record before {
  write_buffer = behind.write_buffer;
  kernel = (packet response, packet request);
}

-- A server that answers nobody.
abbrev silent : ℕ → Option (TcpStream (Bytes × Bytes))
silent n = none

abbrev goes_on : ℕ → Bool
goes_on n = false

reconnect-Retried_example : Retried silent 0 (reconnect true silent goes_on channel)
reconnect-Retried_example = reconnect-Retried silent goes_on channel refl (omega arith)
