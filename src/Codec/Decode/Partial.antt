-- ===== src/Codec/Decode/Partial.antt =====
-- A packet of which only a first part has arrived.
use mcoro_rpc.Common.{
  ℕ, zero, suc, ◌+◌, ◌-◌, ◌^◌, ◌≤◌, ◌<◌, ◌≡◌, refl, List, [], ◌∷◌, ◌++◌, append_assoc, arith, Bytes,
  length, length-append, pos, pos-add,
}
use mcoro_rpc.Wire.{net_bytes, length-net_bytes}
use mcoro_rpc.Buffer.{TcpBuffer}
use mcoro_rpc.Buffer.Holds.{Holds, Holds_bounds}
use mcoro_rpc.Codec.{TinyPbProtocol, pb_start}
use mcoro_rpc.Codec.Decode.{decode, returned, find_frame, no_frame, probe, probe_end}
use mcoro_rpc.Codec.Decode.Fields.{At, advance, byte-At, int-At}
use mcoro_rpc.Codec.Decode.RoundTrip.{At-of_Holds}
use mcoro_rpc.Codec.Decode.Stray.{NoStart}

-- The search finds nothing where no byte opens a packet.
find_frame-NoStart :
    (q : Bytes) (tmp rest : Bytes) (s w left : ℕ)
    → NoStart q
    → At tmp s (q ++ rest)
    → left ≤ length q
    → find_frame left tmp w s ≡ no_frame
unfolding find_frame probe
find_frame-NoStart q tmp rest s w zero clean c h = refl
find_frame-NoStart [] tmp rest s w (suc left) clean c h = absurd (omega arith)
find_frame-NoStart (x ∷ q) tmp rest s w (suc left) clean c h =
    let head = byte-At x (q ++ rest) c in
    let c' = advance (x ∷ []) (q ++ rest) 1 refl c in
    let later = find_frame-NoStart q tmp rest (s + 1) w left clean.1 c' (omega arith) in
    ground (arith, head, clean.0, later)

-- Nor at a start byte whose packet ends behind the bytes written.
find_frame-partial :
    (total : ℕ) (t tmp rest : Bytes) (s w left : ℕ)
    → NoStart (net_bytes total ++ t)
    → At tmp s ((pb_start ∷ (net_bytes total ++ t)) ++ rest)
    → w ≡ s + 5 + length t
    → 6 + length t < total
    → s + total < 2 ^ 31
    → left ≤ 5 + length t
    → find_frame left tmp w s ≡ no_frame
unfolding find_frame probe probe_end
find_frame-partial total t tmp rest s w zero clean c end cut small h = refl
find_frame-partial total t tmp rest s w (suc left) clean c end cut small h =
    let q = net_bytes total ++ t in
    let head = byte-At pb_start (q ++ rest) c in
    let c1 = advance (pb_start ∷ []) (q ++ rest) 1 refl c in
    let c2 = rw (append_assoc (net_bytes total) t rest) at c1 in
    let len_at = int-At (pos total) (t ++ rest) (omega arith) c2 in
    let n = length-append (net_bytes total) t in
    let later =
      find_frame-NoStart q tmp rest (s + 1) w left clean c1
        (omega (arith, length-net_bytes total)) in
    ground (arith, head, len_at, later, pos-add s total)

-- `decode` delivers nothing of it and leaves it where it is.
pub decode-partial :
    (total : ℕ) (t : Bytes) (fuel : ℕ) (out : List TinyPbProtocol) {b : TcpBuffer}
    → Holds b (pb_start ∷ (net_bytes total ++ t))
    → NoStart (net_bytes total ++ t)
    → 6 + length t < total
    → b.read_index + total < 2 ^ 31
    → decode (suc fuel) out b ≡ returned out b
unfolding decode
decode-partial total t fuel out {b} h clean cut small =
    let q = pb_start ∷ (net_bytes total ++ t) in
    let n = length-append (net_bytes total) t in
    let bounds = Holds_bounds q h in
    let len : b.write_index ≡ b.read_index + 5 + length t = omega (arith, length-net_bytes total) in
    rw
      (
        find_frame-partial total t b.buffer h.post b.read_index b.write_index
            (b.write_index - b.read_index) clean (At-of_Holds q h) len cut small (omega arith),
        decode,
      )
      refl
