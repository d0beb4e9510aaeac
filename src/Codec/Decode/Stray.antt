-- ===== src/Codec/Decode/Stray.antt =====
-- Inputs of `decode` that no encoder wrote: bytes in front of a packet, an empty packet, and a
-- packet whose last byte has not arrived.
use mcoro_rpc.Common.{
  ℕ, zero, suc, ◌+◌, ◌-◌, ◌^◌, ◌≤◌, ◌<◌, ◌≡◌, ◌≢◌, refl, ap, ◌∙◌, List, [], ◌∷◌, ◌++◌, append_assoc,
  arith, Bytes, length, length-append, drop, pos,
}
use mcoro_rpc.Buffer.{TcpBuffer}
use mcoro_rpc.Buffer.Holds.{Holds, Holds_bounds}
use mcoro_rpc.Buffer.Fifo.{move_read_index-Leaves, write_index-move_read_index}
use mcoro_rpc.Codec.{TinyPbProtocol, pb_start, packet_length, packet}
use mcoro_rpc.Codec.Decode.{decode, find_frame, probe, frame}
use mcoro_rpc.Codec.Decode.Fields.{At, advance, byte-At}
use mcoro_rpc.Codec.Decode.Packet.{
  IsSendable, arrived, length-packet, parse_message-packet, find_frame-packet,
}
use mcoro_rpc.Codec.Decode.RoundTrip.{At-of_Holds, skip_length}

-- No byte opens a packet.
abbrev pub NoStart : Bytes → Type 0
NoStart [] = Unit {0}
NoStart (c ∷ cs) = (c ≢ pb_start) × NoStart cs

-- The search passes over such bytes.
find_frame_after :
    (g : Bytes) (m : TinyPbProtocol) (tmp rest : Bytes) (s w left : ℕ)
    → NoStart g
    → At tmp s (g ++ (packet m ++ rest))
    → s + length g + packet_length m ≤ w
    → s + length g + packet_length m < 2 ^ 31
    → length g < left
    → find_frame left tmp w s
      ≡ frame (s + length g) (pos (packet_length m)) (s + length g + packet_length m - 1)
unfolding find_frame probe
find_frame_after g m tmp rest s w zero clean c fits small h = absurd (omega arith)
find_frame_after [] m tmp rest s w (suc left) clean c fits small h =
    let e : s + 0 ≡ s = omega arith in
    rw e (find_frame-packet m tmp rest s w (suc left) c (omega arith) (omega arith) (omega arith))
find_frame_after (x ∷ g) m tmp rest s w (suc left) clean c fits small h =
    let head = byte-At x (g ++ (packet m ++ rest)) c in
    let c' = advance (x ∷ []) (g ++ (packet m ++ rest)) 1 refl c in
    let e : s + suc (length g) ≡ s + 1 + length g = omega arith in
    let later =
      find_frame_after g m tmp rest (s + 1) w left clean.1 c' (omega arith) (omega arith)
        (omega arith) in
    rw e (ground (arith, head, clean.0, later))

-- One round at a packet with other bytes in front of it delivers the message, and then skips as
-- many bytes as the packet has, counted from the first of those others.
pub decode_after :
    {b : TcpBuffer} (g : Bytes) (m : TinyPbProtocol) (rest : Bytes) (fuel : ℕ)
    (out : List TinyPbProtocol)
    → NoStart g
    → IsSendable m
    → Holds b (g ++ (packet m ++ rest))
    → b.write_index < 2 ^ 31
    → (b' : TcpBuffer) × (decode (suc fuel) out b ≡ decode fuel (out ++ (arrived m ∷ [])) b')
      × Holds b' (drop (packet_length m) (g ++ (packet m ++ rest)))
      × (b'.write_index ≤ b.write_index)
unfolding decode
decode_after {b} g m rest fuel out clean v h small =
    let L = packet_length m in
    let q = g ++ (packet m ++ rest) in
    let r = b.read_index in
    let s = r + length g in
    let n = length-append g (packet m ++ rest) in
    let n' = length-append (packet m) rest in
    let bounds = Holds_bounds q h in
    let regroup =
      append_assoc g (packet m ++ rest) h.post
      ∙ ap (λ t. g ++ t) (append_assoc (packet m) rest h.post) in
    let c = rw regroup at (At-of_Holds q h) in
    let c' = advance g (packet m ++ (rest ++ h.post)) (length g) refl c in
    let pos_L : 26 ≤ L = omega arith in
    let inside : s + L ≤ b.write_index = omega (arith, length-packet m) in
    let (b', e, h') = move_read_index-Leaves q L h (omega (arith, length-packet m)) in
    (
      b',
      rw (
        find_frame_after g m b.buffer (rest ++ h.post) r b.write_index (b.write_index - r) clean c
            inside (omega arith) (omega arith),
        skip_length s L (omega arith),
        e,
        parse_message-packet m b.buffer (rest ++ h.post) s (s + L - 1) v c' (omega arith),
        decode,
      ),
      h',
      write_index-move_read_index b L e,
    )
