-- ===== src/Tests/Services.antt =====
-- A provider with one service.
use mcoro_rpc.Common.{
  ℕ, suc, ◌≡◌, ◌↔◌, ◌++◌, refl, [], ◌∷◌, some, true, Bytes, codes, same, arith, map,
}
use mcoro_rpc.Wire.{net_bytes}
use mcoro_rpc.Buffer.{TcpBuffer}
use mcoro_rpc.Buffer.Holds.{Holds}
use mcoro_rpc.Codec.{packet, new_protocol}
use mcoro_rpc.Codec.Decode.Packet.{arrived}
use mcoro_rpc.Codec.Decode.RoundTrip.{with_id, packets}
use mcoro_rpc.Rpc.Context.{new_context, set_msg_id}
use mcoro_rpc.Rpc.Dispatcher.{
  Service, Services, register_service, rfind, parse_service_full_name, find, dispatch_to, dispatch,
  dot,
}
use mcoro_rpc.Rpc.Dispatcher.Names.{Lacks, parse_service_full_name_iff}
use mcoro_rpc.Rpc.Dispatcher.Routes.{
  addressed, Reports, dispatch-Reports, dispatch-register_service,
}
use mcoro_rpc.Rpc.Provider.{Provider, handle_round, answered}
use mcoro_rpc.Rpc.Provider.Answers.{answers, AllFit, handle_round_lem}
use mcoro_rpc.Tests.Packets.{ping, ping-IsSendable}

-- It puts a 7 in front of its request, and counts its calls.
abbrev pub echo : Service Bytes ℕ
echo = record {
  full_name = codes "S";
  methods = codes "ping" ∷ [];
  find_method = λ m. same m (codes "ping");
  parse_request = λ m text. some text;
  call_method = λ m req s. (7 ∷ req, suc s);
  serialize = λ m rsp old. (true, rsp);
}

parse_service_full_name_iff_example :
    (parse_service_full_name (codes "a.S.ping") ≡ some (codes "a.S", codes "ping"))
    ↔ ((codes "a.S.ping" ≡ codes "a.S" ++ (dot ∷ codes "ping")) × Lacks dot (codes "ping"))
parse_service_full_name_iff_example =
    parse_service_full_name_iff (codes "a.S.ping") (codes "a.S") (codes "ping")

ping-Lacks : Lacks dot (codes "ping")
ping-Lacks = ground arith

dispatch-register_service_example :
    dispatch (register_service echo []) ping new_protocol (some (new_context {Addr = ℕ})) 5
    ≡ dispatch_to echo
        (codes "ping")
        ping.pb_data
        (addressed ping new_protocol)
        (some (set_msg_id [] new_context))
        5
dispatch-register_service_example =
    dispatch-register_service echo [] ping new_protocol (some new_context) 5 (codes "S")
      (codes "ping") refl ping-Lacks

dispatch-Reports_example :
    Reports ping
      (new_context {Addr = ℕ})
      (dispatch (register_service echo []) ping new_protocol (some new_context) 5)
dispatch-Reports_example =
    dispatch-Reports (register_service echo []) ping new_protocol new_context 5

abbrev pub services : Services Bytes ℕ
services = (codes "S", record { service = echo; service_name = codes "S"; methods = [] }) ∷ []

abbrev provider : Provider Bytes ℕ ℕ
provider = record {
  services = services;
  state = 5;
  protocols = record { pool = []; max_size = 1024 };
  contexts = record { pool = []; max_size = 1024 };
  local_addr = 1;
  peer_addr = some 2;
}

abbrev one_packet : TcpBuffer
one_packet = record {
  read_index = 0;
  write_index = 46;
  size = 46;
  buffer = packets (with_id ping ∷ []);
}

one_packet-Holds : Holds one_packet (packets (with_id ping ∷ []))
unfolding net_bytes
one_packet-Holds = record { pre = []; post = []; layout = refl; at_read = refl; at_write = refl }

one_answer-AllFit : AllFit (answers services (map arrived (with_id ping ∷ [])) 5).0
unfolding net_bytes dispatch dispatch_to find parse_service_full_name rfind new_protocol
one_answer-AllFit = (omega arith, tt)

handle_round_lem_example :
    (b' : TcpBuffer) × (after : Provider Bytes ℕ ℕ) × (handle_round 2 provider one_packet
      ≡ answered
          (map (λ r. packet (with_id r)) (answers services (map arrived (with_id ping ∷ [])) 5).0)
          b'
          after)
    × Holds b' []
    × (after.state ≡ (answers services (map arrived (with_id ping ∷ [])) 5).1)
handle_round_lem_example =
    handle_round_lem (with_id ping ∷ []) 1024 2 provider (λ e. cc) (ping-IsSendable, tt)
      one_packet-Holds (omega arith) (omega arith)
      record { all_clear = tt; bounded = omega arith; same_bound = refl } one_answer-AllFit

-- The first five bytes of a packet of 46.
abbrev part_of_packet : TcpBuffer
part_of_packet = record {
  read_index = 0;
  write_index = 5;
  size = 9;
  buffer = 2 ∷ 0 ∷ 0 ∷ 0 ∷ 46 ∷ 0 ∷ 0 ∷ 0 ∷ 0 ∷ [];
}
