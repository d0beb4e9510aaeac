-- ===== src/Tests/Packets.antt =====
-- The TinyPB coder at small messages.
use mcoro_rpc.Common.{
  ◌≡◌, ◌++◌, refl, [], ◌∷◌, some, arith, Bytes, codes, pos, negsuc, replicate, false, take,
}
use mcoro_rpc.Buffer.{TcpBuffer, create}
use mcoro_rpc.Buffer.Holds.{Holds}
use mcoro_rpc.Wire.{net_bytes}
use mcoro_rpc.Codec.{TinyPbProtocol, encode, packet, pb_end}
use mcoro_rpc.Codec.Decode.{decode, returned}
use mcoro_rpc.Codec.Decode.Packet.{IsSendable, arrived}
use mcoro_rpc.Codec.Decode.RoundTrip.{
  decode-encode, decode-packets, packets, sent, received, with_id,
}

-- A request without an id.
abbrev pub ping : TinyPbProtocol
ping = record {
  msg_id = [];
  pk_len = pos 0;
  msg_id_len = pos 0;
  method_name_len = pos 0;
  method_name = codes "S.ping";
  err_code = negsuc 0;
  err_info_len = pos 0;
  err_info = codes "no";
  pb_data = 0 ∷ 2 ∷ 3 ∷ [];
  check_num = pos 7;
  parse_sucess = false;
}

pub ping-IsSendable : IsSendable (with_id ping)
ping-IsSendable = omega arith

decode-encode_example :
    (b last : TcpBuffer) × (encode (ping ∷ ping ∷ []) (create 5)
      ≡ some (sent ping ∷ sent ping ∷ [], b))
    × (decode 3 [] b ≡ returned (received ping ∷ received ping ∷ []) last)
    × Holds last []
unfolding net_bytes
decode-encode_example =
    decode-encode (ping ∷ ping ∷ []) 5 3 (ping-IsSendable, (ping-IsSendable, tt)) (omega arith)
      (omega arith)

-- Bytes in front of a packet, as many as it has.
abbrev noise : Bytes
noise = replicate 46 7

abbrev noisy : TcpBuffer
noisy = record {
  read_index = 0;
  write_index = 92;
  size = 92;
  buffer = noise ++ (packet (with_id ping) ++ []);
}

-- A length of 0 behind the end of a packet.
abbrev empty_packet : TcpBuffer
empty_packet = record {
  read_index = 1;
  write_index = 6;
  size = 9;
  buffer = 3 ∷ 2 ∷ 0 ∷ 0 ∷ 0 ∷ 0 ∷ 0 ∷ 0 ∷ 0 ∷ [];
}

-- A packet without its end byte, before a stale one.
abbrev cut : Bytes
cut = take 45 (packet (with_id ping))

abbrev unfinished : TcpBuffer
unfinished = record {
  read_index = 0;
  write_index = 45;
  size = 200;
  buffer = cut ++ (pb_end ∷ replicate 154 0);
}

abbrev unfinished-Holds : Holds unfinished cut
unfolding net_bytes
unfinished-Holds = record {
  pre = [];
  post = pb_end ∷ replicate 154 0;
  layout = refl;
  at_read = refl;
  at_write = refl;
}

-- Two packets, one behind the other.
abbrev two_packets : TcpBuffer
two_packets = record {
  read_index = 0;
  write_index = 92;
  size = 92;
  buffer = packets (with_id ping ∷ with_id ping ∷ []);
}

two_packets-Holds : Holds two_packets (packets (with_id ping ∷ with_id ping ∷ []))
unfolding net_bytes
two_packets-Holds = record { pre = []; post = []; layout = refl; at_read = refl; at_write = refl }

decode-packets_example :
    (b' : TcpBuffer) × (decode 3 [] two_packets
      ≡ returned (arrived (with_id ping) ∷ arrived (with_id ping) ∷ []) b')
    × Holds b' []
unfolding net_bytes
decode-packets_example =
    decode-packets (with_id ping ∷ with_id ping ∷ []) 3 [] (ping-IsSendable, (ping-IsSendable, tt))
      two_packets-Holds (omega arith) (omega arith)
