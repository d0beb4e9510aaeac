-- ===== src/Tests/Calls.antt =====
-- Calls over a connection.
use mcoro_rpc.Common.{
  none, ℕ, ◌≡◌, refl, [], ◌∷◌, ◌++◌, some, true, false, Bool, Bytes, codes, arith, ℤ, pos,
  replicate, ◌+ℤ◌,
}
use mcoro_rpc.Wire.{net_bytes}
use mcoro_rpc.Buffer.{
  create, contents, read_able, write_able, resize_buffer, adjust_buffer, write_to_buffer,
  move_read_index, move_write_index,
}
use mcoro_rpc.Buffer.Holds.{Holds}
use mcoro_rpc.Channel.{create as create_channel}
use mcoro_rpc.Stream.{done, make_room, take_in, read_to_buffer, write_from_buffer, write}
use mcoro_rpc.Stream.Tcp.{TcpStream, socket_of, read_stream, write_stream}
use mcoro_rpc.Codec.{TinyPbProtocol, packet, new_protocol}
use mcoro_rpc.Codec.Decode.Packet.{arrived, IsSendable}
use mcoro_rpc.Codec.Decode.RoundTrip.{packets}
use mcoro_rpc.Rpc.Controller.{new_controller}
use mcoro_rpc.Rpc.Pool.{ObjectPool, get_protocol}
use mcoro_rpc.Rpc.Caller.{RpcChannel, Call, returns_at_once, calling, init_controller}
use mcoro_rpc.Rpc.Caller.Async.{exchange, call_method_async}
use mcoro_rpc.Rpc.Caller.Async.Responses.{Answered, call_method_async-Answered}
use mcoro_rpc.Rpc.Caller.Async.Settled.{Settled, call_method_async-Settled}
use mcoro_rpc.Tests.Streams.{ready_socket}

abbrev pub empty_pool : ObjectPool TinyPbProtocol
empty_pool = record { pool = []; max_size = 1024 }

-- A request to the method `ping` of the service `S`, with a closure 4.
abbrev pub call : Call ℕ
call = record { full_name = codes "S.ping"; request = (true, 1 ∷ []); done = some 4 }

abbrev pub request : TinyPbProtocol
request = record new_protocol {
  msg_id = codes "123456789";
  method_name = codes "S.ping";
  pb_data = 1 ∷ [];
}

abbrev pub response : TinyPbProtocol
response = record (arrived request) { pb_data = 7 ∷ 1 ∷ [] }

-- A stream whose peer will send the response.
abbrev pub before : TcpStream (Bytes × Bytes)
before = record {
  fd = some 3;
  read_buffer = create 64;
  write_buffer = create 64;
  kernel = (packet response, []);
}

abbrev pub behind : TcpStream (Bytes × Bytes)
behind = record {
  fd = some 3;
  read_buffer = record {
    read_index = 0;
    write_index = 43;
    size = 64;
    buffer = packet response ++ replicate 21 0;
  };
  write_buffer = record {
    read_index = 0;
    write_index = 0;
    size = 64;
    buffer = packet request ++ replicate 22 0;
  };
  kernel = ([], packet request);
}

pub exchanged : exchange ready_socket 4 (packet request) before ≡ some (done, behind)
unfolding exchange read_stream write_stream socket_of write write_from_buffer read_to_buffer
    make_room take_in create contents read_able write_able resize_buffer adjust_buffer
    write_to_buffer move_read_index move_write_index net_bytes new_protocol ◌+ℤ◌
exchanged = refl

abbrev pub channel : RpcChannel (Bytes × Bytes) Bytes ℕ
channel = record {
  stream = some before;
  connected = true;
  timeout_ms = pos 3000;
  request_chan = create_channel 100;
  worker_running = false;
  stopped = false;
  reconnect_retry = 0;
}

abbrev pub parse : Bytes → Bytes → Bool × Bytes
parse text old = (true, text)

abbrev pub in_time : ℤ → Bool
in_time limit = false

pub request-IsSendable : IsSendable request
unfolding new_protocol
request-IsSendable = omega arith

pub response-IsSendable : IsSendable response
unfolding new_protocol
response-IsSendable = omega arith

pub behind-Holds : Holds behind.read_buffer (packets (response ∷ []))
unfolding net_bytes new_protocol
behind-Holds = record {
  pre = [];
  post = replicate 21 0;
  layout = refl;
  at_read = refl;
  at_write = refl;
}

call_method_async-Answered_example :
    Answered parse (some 4) response behind (calling new_controller [] empty_pool channel) (
      call_method_async ready_socket parse in_time 4 call
        (some new_controller)
        []
        empty_pool
        channel)
unfolding new_controller init_controller new_protocol net_bytes get_protocol
call_method_async-Answered_example =
    call_method_async-Answered ready_socket parse in_time 4 call new_controller [] empty_pool
      channel before behind response [] refl refl (omega arith) exchanged refl
      (response-IsSendable, tt) behind-Holds (omega arith) (omega arith)

call_method_async-Settled_example :
    Settled (some 4) (calling new_controller [] empty_pool channel) (
      call_method_async ready_socket parse in_time 4 call
        (some new_controller)
        []
        empty_pool
        channel)
    × (call_method_async ready_socket parse in_time 4 call none [] empty_pool channel
        ≡ returns_at_once)
call_method_async-Settled_example =
    call_method_async-Settled ready_socket parse in_time 4 call new_controller [] empty_pool channel
