-- ===== src/Tests/Serving.antt =====
-- Connections served, and the pool of loops.
use mcoro_rpc.Common.{
  ℕ, ◌≡◌, ap, refl, [], ◌∷◌, ◌++◌, map, some, false, Bool, Bytes, arith, replicate, length, ◌+ℤ◌,
}
use mcoro_rpc.Wire.{net_bytes}
use mcoro_rpc.Buffer.{create, write_able, resize_buffer, adjust_buffer, move_write_index}
use mcoro_rpc.Buffer.Holds.{Holds}
use mcoro_rpc.Codec.{packet, new_protocol}
use mcoro_rpc.Codec.Decode.Packet.{arrived}
use mcoro_rpc.Codec.Decode.RoundTrip.{packets}
use mcoro_rpc.Stream.{done, make_room, take_in, read_to_buffer}
use mcoro_rpc.Stream.Tcp.{TcpStream, socket_of, read_stream}
use mcoro_rpc.Rpc.Provider.{Provider}
use mcoro_rpc.Rpc.Provider.Answers.{answers}
use mcoro_rpc.Rpc.Provider.Serving.{serve_client}
use mcoro_rpc.Rpc.Provider.Serving.Replies.{IsOpen, serve_client-answers}
use mcoro_rpc.Rpc.Provider.Serving.Closed.{Closed, serve_client-Closed}
use mcoro_rpc.Tests.Streams.{ready_socket}
use mcoro_rpc.Tests.Waiting.{ready_socket-IsPatient}
use mcoro_rpc.Tests.Remote.{echo_provider}
use mcoro_rpc.Tests.Services.{services}
use mcoro_rpc.Rpc.Dispatcher.{dispatch, dispatch_to, find, parse_service_full_name, rfind}
use mcoro_rpc.Rpc.Provider.Serving.Replies.{AllWritten}
use mcoro_rpc.Rpc.Provider.Answers.{AllFit}
use mcoro_rpc.Tests.Calls.{request, response, request-IsSendable}

-- A stream whose peer has sent the request, and the stream with the request read.
abbrev arriving : TcpStream (Bytes × Bytes)
arriving = record {
  fd = some 3;
  read_buffer = create 64;
  write_buffer = create 64;
  kernel = (packet request, []);
}

abbrev arrived_stream : TcpStream (Bytes × Bytes)
arrived_stream = record {
  fd = some 3;
  read_buffer = record {
    read_index = 0;
    write_index = 42;
    size = 64;
    buffer = packet request ++ replicate 22 0;
  };
  write_buffer = create 64;
  kernel = ([], []);
}

got : read_stream ready_socket 64 arriving ≡ some (done, 42, arrived_stream)
unfolding read_stream socket_of read_to_buffer make_room take_in create write_able resize_buffer
    move_write_index adjust_buffer net_bytes new_protocol ◌+ℤ◌
got = refl

arrived-Holds : Holds arrived_stream.read_buffer (packets (request ∷ []))
unfolding net_bytes new_protocol
arrived-Holds = record {
  pre = [];
  post = replicate 22 0;
  layout = refl;
  at_read = refl;
  at_write = refl;
}

empty-Holds : Holds (create 64) []
unfolding create
empty-Holds = record {
  pre = [];
  post = replicate 64 0;
  layout = refl;
  at_read = refl;
  at_write = refl;
}

abbrev goes_on : ℕ → Bool
goes_on n = false

abbrev serving : Provider Bytes ℕ ℕ
serving = record echo_provider { services = services }

answers-AllFit : AllFit (answers services (map arrived (request ∷ [])) 5).0
unfolding net_bytes dispatch dispatch_to find parse_service_full_name rfind new_protocol
answers-AllFit = (omega arith, tt)

answers-AllWritten : AllWritten 64 0 (answers services (map arrived (request ∷ [])) 5).0
unfolding net_bytes dispatch dispatch_to find parse_service_full_name rfind new_protocol
answers-AllWritten = (omega arith, tt)

serve_client-answers_example :
    (after : Provider Bytes ℕ ℕ) × (s' : TcpStream (Bytes × Bytes)) × (serve_client ready_socket 64
        goes_on 2 serving arriving
      ≡ serve_client ready_socket 64 goes_on 1 after s')
    × IsOpen s'
    × Holds s'.read_buffer []
    × (after.state ≡ 6)
    × (ready_socket.outgoing s'.kernel ≡ packet response)
unfolding net_bytes dispatch dispatch_to find parse_service_full_name rfind new_protocol
serve_client-answers_example =
    serve_client-answers ready_socket (λ k. 0) (request ∷ []) 1024 64 0 1 42 goes_on serving
      arriving arrived_stream refl got (λ e. ground (arith, ap length e)) (request-IsSendable, tt)
      arrived-Holds (omega arith) (omega arith) ready_socket-IsPatient (λ k. omega arith)
      record { fd = 3; is_fd = refl; written = empty-Holds }
      record { all_clear = tt; bounded = omega arith; same_bound = refl } answers-AllFit
      answers-AllWritten

serve_client-Closed_example :
    Closed arriving.fd (serve_client ready_socket 64 goes_on 2 serving arriving)
serve_client-Closed_example = serve_client-Closed ready_socket 64 2 goes_on serving arriving
