-- ===== src/Codec/Decode/Packet.antt =====
-- One packet that `encoderTinyPB` wrote: where `decode` finds it, and what it reads from it.
use mcoro_rpc.Common.{
  ℕ, zero, suc, ◌+◌, ◌-◌, ◌^◌, ◌≤◌, ◌<◌, ◌≡◌, refl, ap, [], ◌∷◌, ◌++◌, append_assoc, true, arith,
  Bytes, get_elem?, some, length, length-append, ℤ, pos, sub_ℕ, ◌+ℤ◌, IsInt32, pattern32, pos-add,
}
use mcoro_rpc.Wire.{net_bytes, length-net_bytes}
use mcoro_rpc.Codec.{new_protocol, TinyPbProtocol, pb_start, pb_end, packet_length, body, packet}
use mcoro_rpc.Codec.Decode.{ok, skip, probe, probe_end, parse_message, frame, find_frame}
use mcoro_rpc.Codec.Decode.Fields.{
  NulFree, At, advance, int-At, field-At, data-At, before_end_lt, byte-At,
}

-- The fields fit the arrays of `decode` and hold no NUL, and the packet's length is an `int`.
pub record IsSendable (m : TinyPbProtocol) : Type 0 where
  pub id_text : NulFree m.msg_id
  pub id_fits : length m.msg_id < 100
  pub name_text : NulFree m.method_name
  pub name_fits : length m.method_name < 512
  pub info_text : NulFree m.err_info
  pub info_fits : length m.err_info < 512
  pub code : IsInt32 m.err_code

-- The message as it arrives: the lengths are those of the fields, and the checksum is not read.
abbrev pub arrived : TinyPbProtocol → TinyPbProtocol
arrived m = record m {
  pk_len = pos (packet_length m);
  msg_id_len = pos (length m.msg_id);
  method_name_len = pos (length m.method_name);
  err_info_len = pos (length m.err_info);
  check_num = pos 0;
  parse_sucess = true;
}

length-body : (m : TinyPbProtocol) → length (body m) + 6 ≡ packet_length m
length-body m = simp length-append (simp length-net_bytes (omega arith))

-- The packet from its message-id length on, with what follows it in the buffer.
abbrev fields : TinyPbProtocol → Bytes → Bytes
fields m rest =
    net_bytes (length m.msg_id)
    ++ (m.msg_id
        ++ (net_bytes (length m.method_name)
            ++ (m.method_name
                ++ (net_bytes (pattern32 m.err_code)
                    ++ (net_bytes (length m.err_info)
                        ++ (m.err_info ++ (m.pb_data ++ (net_bytes 1 ++ (pb_end ∷ rest)))))))))

packet_regroup :
    (m : TinyPbProtocol) (rest : Bytes)
    → packet m ++ rest ≡ pb_start ∷ (net_bytes (packet_length m) ++ fields m rest)
packet_regroup m rest = simp append_assoc

pub length-packet : (m : TinyPbProtocol) → length (packet m) ≡ packet_length m
length-packet m = omega (
  arith,
  length-append (net_bytes (packet_length m)) (body m ++ (pb_end ∷ [])),
  length-append (body m) (pb_end ∷ []),
  length-net_bytes (packet_length m),
  length-body m,
)

pub data_length :
    (m : TinyPbProtocol)
    → pos (packet_length m)
        +ℤ sub_ℕ 0 (length m.err_info + length m.msg_id + length m.method_name + 26)
      ≡ pos (length m.pb_data)
unfolding ◌+ℤ◌
data_length m = ground arith

-- The fields of a sendable message are read back from its packet.
pub parse_message-packet :
    (m : TinyPbProtocol) (tmp rest : Bytes) (s e : ℕ)
    → IsSendable m
    → At tmp s (packet m ++ rest)
    → e + 1 ≡ s + packet_length m
    → parse_message tmp s (pos (packet_length m)) e ≡ ok (arrived m)
unfolding parse_message new_protocol
parse_message-packet m tmp rest s e v c end_at =
    let L = packet_length m in
    let n = length-body m in
    let c0 = rw (packet_regroup m rest) at c in
    let c1 = advance (pb_start ∷ net_bytes L) (fields m rest) 5 (ap suc (length-net_bytes L)) c0 in
    let c2 = advance (net_bytes (length m.msg_id)) _ 4 (length-net_bytes _) c1 in
    let c3 = advance m.msg_id _ (length m.msg_id) refl c2 in
    let c4 = advance (net_bytes (length m.method_name)) _ 4 (length-net_bytes _) c3 in
    let c5 = advance m.method_name _ (length m.method_name) refl c4 in
    let c6 = advance (net_bytes (pattern32 m.err_code)) _ 4 (length-net_bytes _) c5 in
    let c7 = advance (net_bytes (length m.err_info)) _ 4 (length-net_bytes _) c6 in
    let c8 = advance m.err_info _ (length m.err_info) refl c7 in
    rw (
      parse_message,
      before_end_lt (s + 5) e (omega arith),
      int-At (pos (length m.msg_id)) _ (omega (arith, v.id_fits)) c1,
      field-At 100 m.msg_id _ v.id_text v.id_fits c2,
      before_end_lt (s + 5 + 4 + length m.msg_id) e (omega arith),
      int-At (pos (length m.method_name)) _ (omega (arith, v.name_fits)) c3,
      field-At 512 m.method_name _ v.name_text v.name_fits c4,
      before_end_lt (s + 5 + 4 + length m.msg_id + 4 + length m.method_name) e (omega arith),
      int-At m.err_code _ v.code c5,
      before_end_lt (s + 5 + 4 + length m.msg_id + 4 + length m.method_name + 4) e (omega arith),
      int-At (pos (length m.err_info)) _ (omega (arith, v.info_fits)) c6,
      field-At 512 m.err_info _ v.info_text v.info_fits c7,
      data_length m,
      data-At m.pb_data _ c8,
    )

packet_split_end :
    (m : TinyPbProtocol) (rest : Bytes)
    → packet m ++ rest ≡ (pb_start ∷ (net_bytes (packet_length m) ++ body m)) ++ (pb_end ∷ rest)
packet_split_end m rest = simp append_assoc

last_byte :
    (m : TinyPbProtocol) (tmp rest : Bytes) (s : ℕ)
    → At tmp s (packet m ++ rest)
    → get_elem? tmp (s + packet_length m - 1) ≡ some pb_end
last_byte m tmp rest s c =
    let L = packet_length m in
    let front = pb_start ∷ (net_bytes L ++ body m) in
    let e : length front ≡ L - 1 =
      omega (arith, length-append (net_bytes L) (body m), length-net_bytes L, length-body m) in
    let at_end = advance front (pb_end ∷ rest) (L - 1) e (rw (packet_split_end m rest) at c) in
    let same_index : s + L - 1 ≡ s + (L - 1) = omega (arith, length-body m) in
    rw same_index (byte-At pb_end rest at_end)

-- A packet too short for its message-id length is passed over without a message.
pub parse_message_short :
    (tmp : Bytes) (s e : ℕ) (pk_len : ℤ) → e ≤ s + 5 → parse_message tmp s pk_len e ≡ skip
unfolding parse_message
parse_message_short tmp s e pk_len h = ground arith

-- The search stops at a packet that stands at its first index, and gives its last.
pub find_frame-packet :
    (m : TinyPbProtocol) (tmp rest : Bytes) (s w left : ℕ)
    → At tmp s (packet m ++ rest)
    → s + packet_length m ≤ w + 1
    → s + packet_length m < 2 ^ 31
    → 0 < left
    → find_frame left tmp w s ≡ frame s (pos (packet_length m)) (s + packet_length m - 1)
unfolding find_frame probe probe_end
find_frame-packet m tmp rest s w zero c fits small h = absurd (omega arith)
find_frame-packet m tmp rest s w (suc left) c fits small h =
    let L = packet_length m in
    let n = length-body m in
    let c0 = rw (packet_regroup m rest) at c in
    let head = byte-At pb_start (net_bytes L ++ fields m rest) c0 in
    let c1 = advance (pb_start ∷ []) (net_bytes L ++ fields m rest) 1 refl c0 in
    let len_at = int-At (pos L) (fields m rest) (omega arith) c1 in
    let last = last_byte m tmp rest s c in ground (arith, head, len_at, last, pos-add s L)
