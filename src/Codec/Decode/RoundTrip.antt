-- ===== src/Codec/Decode/RoundTrip.antt =====
-- Decoding a buffer of whole packets, and decoding what `encode` wrote.
use mcoro_rpc.Common.{
  ℕ, zero, suc, ◌+◌, ◌-◌, ◌^◌, ◌≤◌, ◌<◌, ◌≡◌, refl, ap, ◌∙◌, List, [], ◌∷◌, ◌++◌, append_assoc,
  append-nil, some, arith, Bytes, length, length-append, drop-append, map, true, ltb, pos, sub_ℕ,
}
use mcoro_rpc.Buffer.{create, TcpBuffer}
use mcoro_rpc.Buffer.Holds.{create-Holds, read_index-create, Holds, Holds_bounds}
use mcoro_rpc.Buffer.Fifo.{
  read_index-write_to_buffer, move_read_index-Leaves, write_index-move_read_index,
  write_to_buffer-Leaves,
}
use mcoro_rpc.Codec.{TinyPbProtocol, packet_length, packet, encode, encoder_tiny_pb, or_default}
use mcoro_rpc.Codec.Decode.{decode, returned, find_frame}
use mcoro_rpc.Codec.Decode.Fields.{At}
use mcoro_rpc.Codec.Decode.Packet.{
  IsSendable, arrived, length-packet, parse_message-packet, find_frame-packet,
}

-- The packets of the messages, one after another.
abbrev pub packets : List TinyPbProtocol → Bytes
packets [] = []
packets (m ∷ ms) = packet m ++ packets ms

abbrev pub AllSendable : List TinyPbProtocol → Type 0
AllSendable [] = Unit {0}
AllSendable (m ∷ ms) = IsSendable m × AllSendable ms

pub At-of_Holds :
    {b : TcpBuffer} (q : Bytes) (h : Holds b q) → At b.buffer b.read_index (q ++ h.post)
At-of_Holds q h = record { before = h.pre; layout = h.layout; index = h.at_read }

pub skip_length : (r n : ℕ) → 0 < n → sub_ℕ (r + n - 1 + 1) r ≡ pos n
skip_length r n h = ground arith

-- One round of the loop, at a buffer whose unread bytes begin with a packet.
decode-packet :
    {b : TcpBuffer} (m : TinyPbProtocol) (q : Bytes) (fuel : ℕ) (out : List TinyPbProtocol)
    → IsSendable m
    → Holds b (packet m ++ q)
    → b.write_index < 2 ^ 31
    → (b' : TcpBuffer) × (decode (suc fuel) out b ≡ decode fuel (out ++ (arrived m ∷ [])) b')
      × Holds b' q
      × (b'.write_index ≤ b.write_index)
unfolding decode
decode-packet {b} m q fuel out v h small =
    let L = packet_length m in
    let r = b.read_index in
    let total = length-append (packet m) q in
    let bounds = Holds_bounds (packet m ++ q) h in
    let c = rw (append_assoc (packet m) q h.post) at (At-of_Holds (packet m ++ q) h) in
    let pos_L : 26 ≤ L = omega arith in
    let inside : r + L ≤ b.write_index = omega (arith, length-packet m) in
    let (b', e, h') = move_read_index-Leaves (packet m ++ q) L h (omega (arith, length-packet m)) in
    (
      b',
      rw (
        find_frame-packet m b.buffer (q ++ h.post) r b.write_index (b.write_index - r) c
            (omega arith) (omega arith) (omega arith),
        skip_length r L (omega arith),
        e,
        parse_message-packet m b.buffer (q ++ h.post) r (r + L - 1) v c (omega arith),
        decode,
      ),
      rw (drop-append L (packet m) q (length-packet m)) at h',
      write_index-move_read_index b L e,
    )

pub decode-empty :
    (fuel : ℕ) (out : List TinyPbProtocol) {b : TcpBuffer}
    → Holds b []
    → decode (suc fuel) out b ≡ returned out b
unfolding decode find_frame
decode-empty fuel out {b} h =
    let e : b.write_index - b.read_index ≡ 0 = omega (arith, Holds_bounds [] h) in rw (e, decode)

-- A buffer of whole packets, one behind another, with its write index below 2 ^ 31, is decoded to
-- their messages in order, in any number of rounds above theirs, and is left empty. The fields of
-- each message fit the decoder's arrays and hold no NUL.
pub decode-packets :
    (ms : List TinyPbProtocol) (fuel : ℕ) (out : List TinyPbProtocol) {b : TcpBuffer}
    → AllSendable ms
    → Holds b (packets ms)
    → b.write_index < 2 ^ 31
    → length ms < fuel
    → (b' : TcpBuffer) × (decode fuel out b ≡ returned (out ++ map arrived ms) b') × Holds b' []
decode-packets ms zero out v h small enough = absurd (omega arith)
decode-packets [] (suc fuel) out {b} v h small enough =
    (b, rw (append-nil out) (decode-empty fuel out h), h)
decode-packets (m ∷ ms) (suc fuel) out {b} v h small enough =
    let (b', e, h', le) = decode-packet m (packets ms) fuel out v.0 h small in
    let (last, e', done) =
      decode-packets ms fuel (out ++ (arrived m ∷ [])) v.1 h' (omega arith) (omega arith) in
    (
      last,
      e ∙ e' ∙ ap (λ l. returned l last) (append_assoc out (arrived m ∷ []) (map arrived ms)),
      done,
    )

-- The message under the id that it is sent with, and as the encoder leaves it.
abbrev pub with_id : TinyPbProtocol → TinyPbProtocol
with_id m = record m { msg_id = or_default m.msg_id }

abbrev pub sent : TinyPbProtocol → TinyPbProtocol
sent m = record m {
  msg_id = or_default m.msg_id;
  pk_len = pos (packet_length (with_id m));
  msg_id_len = pos (length (or_default m.msg_id));
  method_name_len = pos (length m.method_name);
  err_info_len = pos (length m.err_info);
  parse_sucess = true;
}

pub encode-Holds :
    (ms : List TinyPbProtocol) (q : Bytes) {b : TcpBuffer}
    → Holds b q
    → b.read_index ≡ 0
    → length (packets (map with_id ms)) < 2 ^ 31
    → (b' : TcpBuffer) × (encode ms b ≡ some (map sent ms, b'))
      × Holds b' (q ++ packets (map with_id ms))
      × (b'.read_index ≡ 0)
unfolding encode encoder_tiny_pb
encode-Holds [] q {b} h z small = (b, refl, rw append-nil h, z)
encode-Holds (m ∷ ms) q {b} h z small =
    let p = packet (with_id m) in
    let total = length-append p (packets (map with_id ms)) in
    let fits : ltb (packet_length (with_id m)) (2 ^ 31) ≡ true =
      ground (arith, total, length-packet (with_id m)) in
    let (b1, e1, h1) = write_to_buffer-Leaves q p h in
    let (b2, e2, h2, z2) =
      encode-Holds ms (q ++ p) h1 (read_index-write_to_buffer b p b1 z e1) (omega arith) in
    (
      b2,
      rw (encode, encoder_tiny_pb, fits, e1, e2),
      rw (append_assoc q p (packets (map with_id ms))) at h2,
      z2,
    )

-- The message as `decode` gives it back.
abbrev pub received : TinyPbProtocol → TinyPbProtocol
received m = record (sent m) { check_num = pos 0 }

map-arrived : (ms : List TinyPbProtocol) → map arrived (map with_id ms) ≡ map received ms
map-arrived [] = refl
map-arrived (m ∷ ms) = ap (λ l. received m ∷ l) (map-arrived ms)

length-with_id : (ms : List TinyPbProtocol) → length (map with_id ms) ≡ length ms
length-with_id [] = refl
length-with_id (m ∷ ms) = ap suc (length-with_id ms)

-- What `encode` writes to a new buffer of any size, `decode`, given more rounds than there are
-- messages, gives back: the same messages in the same order, each under its own or the default id,
-- with the checksum left at 0, and no byte left over. The fields of each fit the decoder's arrays
-- and hold no NUL, and the packets take less than 2 ^ 31 bytes together.
pub decode-encode :
    (ms : List TinyPbProtocol) (size fuel : ℕ)
    → AllSendable (map with_id ms)
    → length (packets (map with_id ms)) < 2 ^ 31
    → length ms < fuel
    → (b last : TcpBuffer) × (encode ms (create size) ≡ some (map sent ms, b))
      × (decode fuel [] b ≡ returned (map received ms) last)
      × Holds last []
decode-encode ms size fuel v small enough =
    let q = packets (map with_id ms) in
    let (b, e, h, z) = encode-Holds ms [] (create-Holds size) (read_index-create size) small in
    let low : b.write_index < 2 ^ 31 = omega (arith, Holds_bounds q h) in
    let (last, e', done) =
      decode-packets (map with_id ms) fuel [] v h low (omega (arith, length-with_id ms)) in
    (b, last, e, e' ∙ ap (λ l. returned l last) (map-arrived ms), done)
