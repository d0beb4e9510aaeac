-- ===== src/Codec/Decode/Faults.antt =====
-- Three classes of inputs on which `decode` does not do what it means to.
use mcoro_rpc.Common.{
  ℕ, zero, suc, ◌+◌, ◌-◌, ◌*◌, ◌/◌, ◌^◌, ◌≤◌, ◌<◌, ◌≡◌, refl, sym, ap, ◌∙◌, List, [], ◌∷◌, ◌++◌,
  append_assoc, some, arith, Bytes, get_elem?, length, length-append, drop, length-drop,
  drop-append_left, replicate, pos, sub_ℕ, pos-add,
}
use mcoro_rpc.Buffer.{TcpBuffer}
use mcoro_rpc.Buffer.Holds.{Holds, Holds_bounds}
use mcoro_rpc.Buffer.Fifo.{move_early}
use mcoro_rpc.Wire.{net_bytes}
use mcoro_rpc.Codec.{TinyPbProtocol, pb_start, pb_end, packet_length, packet}
use mcoro_rpc.Codec.Decode.{decode, returned, out_of_fuel, find_frame, probe, probe_end, frame}
use mcoro_rpc.Codec.Decode.Fields.{At, advance, byte-At, int-At}
use mcoro_rpc.Codec.Decode.Packet.{
  IsSendable, arrived, length-packet, parse_message_short, parse_message-packet, find_frame-packet,
}
use mcoro_rpc.Codec.Decode.RoundTrip.{At-of_Holds, skip_length, decode-packets}
use mcoro_rpc.Codec.Decode.Stray.{NoStart, decode_after}

NoStart-drop : (n : ℕ) (g : Bytes) → NoStart g → NoStart (drop n g)
NoStart-drop zero g c = c
NoStart-drop (suc n) [] c = tt
NoStart-drop (suc n) (x ∷ g) c = NoStart-drop n g c.1

-- One packet that the decoder can take, behind `k` times its length of bytes that open no packet,
-- is delivered `k + 1` times in more than `k + 1` rounds, where the write index is below 2 ^ 31.
pub decode_repeats :
    (k : ℕ) (g : Bytes) (m : TinyPbProtocol) (fuel : ℕ) (out : List TinyPbProtocol) {b : TcpBuffer}
    → NoStart g
    → length g ≡ k * packet_length m
    → IsSendable m
    → Holds b (g ++ (packet m ++ []))
    → b.write_index < 2 ^ 31
    → suc k < fuel
    → (b' : TcpBuffer) × (decode fuel out b ≡ returned (out ++ replicate (suc k) (arrived m)) b')
      × Holds b' []
decode_repeats k g m zero out clean size v h small enough = absurd (omega arith)
decode_repeats zero [] m (suc fuel) out clean size v h small enough =
    decode-packets (m ∷ []) (suc fuel) out (v, tt) h small (omega arith)
decode_repeats zero (x ∷ g) m (suc fuel) out clean size v h small enough = absurd (omega arith)
decode_repeats (suc k) g m (suc fuel) out clean size v h small enough =
    let L = packet_length m in
    let size' : length g ≡ k * L + L = grind arith in
    let (b', e, h', le) = decode_after g m [] fuel out clean v h small in
    let h'' = rw (drop-append_left L g (packet m ++ []) (omega arith)) at h' in
    let (last, e', done) =
      decode_repeats k (drop L g) m fuel (out ++ (arrived m ∷ [])) (NoStart-drop L g clean)
        (omega (arith, length-drop L g)) v h'' (omega arith) (omega arith) in
    (
      last,
      e
          ∙ e'
          ∙ ap (λ l. returned l last)
              (append_assoc out (arrived m ∷ []) (replicate (suc k) (arrived m))),
      done,
    )

empty_frame :
    (before rest : Bytes) (b : TcpBuffer)
    → b.buffer ≡ (before ++ (pb_end ∷ [])) ++ (pb_start ∷ 0 ∷ 0 ∷ 0 ∷ 0 ∷ rest)
    → b.read_index ≡ length before + 1
    → b.read_index + 1 < b.write_index
    → b.read_index < 2 ^ 31
    → find_frame (b.write_index - b.read_index) b.buffer b.write_index b.read_index
      ≡ frame b.read_index (pos 0) (b.read_index - 1)
unfolding find_frame probe probe_end net_bytes
empty_frame before rest b l r w small =
    let at_end : At b.buffer (length before) (pb_end ∷ pb_start ∷ 0 ∷ 0 ∷ 0 ∷ 0 ∷ rest) = record {
      before = before;
      layout = l ∙ append_assoc before (pb_end ∷ []) _;
      index = refl;
    } in
    let last : get_elem? b.buffer (b.read_index - 1) ≡ some pb_end =
      let e : b.read_index - 1 ≡ length before = omega arith in rw e (byte-At pb_end _ at_end) in
    let c0 = advance (pb_end ∷ []) (pb_start ∷ 0 ∷ 0 ∷ 0 ∷ 0 ∷ rest) 1 refl at_end in
    let c1 : At b.buffer b.read_index (pb_start ∷ 0 ∷ 0 ∷ 0 ∷ 0 ∷ rest) = record {
      before = c0.before;
      layout = c0.layout;
      index = r ∙ c0.index;
    } in
    let head = byte-At pb_start _ c1 in
    let c2 = advance (pb_start ∷ []) _ 1 refl c1 in
    let zero_at = int-At (pos 0) rest (omega arith) c2 in
    let rounds : b.write_index - b.read_index ≡ suc (b.write_index - b.read_index - 1) =
      omega arith in
    rw (rounds) (ground (arith, last, head, zero_at, pos-add b.read_index 0))

-- A packet length of 0 right behind an end byte, at a read index in the first third of a vector
-- below 2 ^ 31 bytes and with more than one unread byte, is met again in every round: however many
-- are given, `decode` does not return.
pub decode_never_returns :
    (before rest : Bytes) (fuel : ℕ) (out : List TinyPbProtocol) (b : TcpBuffer)
    → b.buffer ≡ (before ++ (pb_end ∷ [])) ++ (pb_start ∷ 0 ∷ 0 ∷ 0 ∷ 0 ∷ rest)
    → b.read_index ≡ length before + 1
    → b.read_index + 1 < b.write_index
    → b.read_index < length b.buffer / 3
    → length b.buffer < 2 ^ 31
    → decode fuel out b ≡ out_of_fuel
unfolding decode
decode_never_returns before rest zero out b l r w third small = refl
decode_never_returns before rest (suc fuel) out b l r w third small =
    let again = decode_never_returns before rest fuel out b l r w third small in
    let none_moved : sub_ℕ (b.read_index - 1 + 1) b.read_index ≡ pos 0 = ground arith in
    let same : b.read_index + 0 ≡ b.read_index = omega arith in
    rw
      (
        empty_frame before rest b l r w (omega arith),
        none_moved,
        move_early b 0 (omega arith),
        parse_message_short b.buffer b.read_index (b.read_index - 1) (pos 0) (omega arith),
        same,
        decode,
      )
      again

-- A packet that the decoder could take but whose end byte has not arrived is delivered all the same
-- if a byte of the same value stands in the vector right behind the write index; where the packet
-- ends in the first third of the vector, of less than 2 ^ 31 bytes, the read index is then left
-- behind the write index.
pub decode_unfinished :
    (m : TinyPbProtocol) (q stale : Bytes) (fuel : ℕ) (out : List TinyPbProtocol) {b : TcpBuffer}
    (h : Holds b q)
    → IsSendable m
    → packet m ≡ q ++ (pb_end ∷ [])
    → h.post ≡ pb_end ∷ stale
    → b.read_index + packet_length m < length b.buffer / 3
    → length b.buffer < 2 ^ 31
    → (b' : TcpBuffer) × (decode (suc (suc fuel)) out b ≡ returned (out ++ (arrived m ∷ [])) b')
      × (b'.write_index < b'.read_index)
unfolding decode find_frame
decode_unfinished m q stale fuel out {b} h v e f third small =
    let L = packet_length m in
    let r = b.read_index in
    let n = length-append q (pb_end ∷ []) in
    let size = length-packet m in
    let short : b.write_index + 1 ≡ r + L = omega (arith, Holds_bounds q h, ap length e) in
    let long : 26 ≤ L = omega arith in
    let whole : q ++ h.post ≡ packet m ++ stale =
      ap (λ t. q ++ t) f
      ∙ sym (append_assoc q (pb_end ∷ []) stale)
      ∙ ap (λ t. t ++ stale) (sym e) in
    let c = rw whole at (At-of_Holds q h) in
    let empty : b.write_index - (r + L) ≡ 0 = omega arith in
    (
      record b { read_index = r + L },
      rw (
        find_frame-packet m b.buffer stale r b.write_index (b.write_index - r) c (omega arith)
            (omega arith) (omega arith),
        skip_length r L (omega arith),
        move_early b L third,
        parse_message-packet m b.buffer stale r (r + L - 1) v c (omega arith),
        empty,
        decode,
      ),
      omega arith,
    )
