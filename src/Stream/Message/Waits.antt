-- ===== src/Stream/Message/Waits.antt =====
-- A packet that has arrived whole, and `readProtocolMessage`.
use mcoro_rpc.Common.{
  ℕ, zero, suc, ◌+◌, ◌^◌, ◌<◌, ◌≤◌, ◌≡◌, ◌≢◌, refl, sym, ap, ◌∙◌, subst, [], ◌∷◌, ◌++◌, append-nil,
  append_assoc, IsInt32, pos_part, pos-add, Option, none, some, Bytes, length, length-append, arith,
  pos, ltb_ℤ, ltb, true, false, nil_of_length, inl, inr,
}
use mcoro_rpc.Buffer.{read_able}
use mcoro_rpc.Buffer.Holds.{Holds, read_able_of_Holds}
use mcoro_rpc.Codec.{TinyPbProtocol, packet, packet_length, pb_start, pb_end, body}
use mcoro_rpc.Codec.Decode.Fields.{advance, byte-At}
use mcoro_rpc.Codec.Decode.Packet.{length-packet}
use mcoro_rpc.Codec.Decode.RoundTrip.{At-of_Holds}
use mcoro_rpc.Wire.{net_bytes, get_int32_from_net_byte, get_int32-net_bytes}
use mcoro_rpc.Stream.{Socket, End, done, thrown, more, End-cases}
use mcoro_rpc.Stream.Reads.{read_to_buffer-Reads}
use mcoro_rpc.Stream.Tcp.{TcpStream, read_stream, socket_of}
use mcoro_rpc.Stream.Message.{read_whole, read_body, read_protocol_message}

-- The same bytes twice, of which the first part is not shorter.
whole_of : (u i q : Bytes) → u ++ i ≡ q → length q ≤ length u → (u ≡ q) × (i ≡ [])
whole_of u i q e h =
    let z = nil_of_length i (omega (arith, ap length e, length-append u i, h)) in
    (sym (append-nil u) ∙ ap (λ t. u ++ t) (sym z) ∙ e, z)

-- The stream's buffer holds these bytes, and no more come.
pub record Idle {K : Type 0} (socket : Socket K) (q : Bytes) (s : TcpStream K) : Type 0 where
  pub holds : Holds s.read_buffer q
  pub silent : socket.incoming s.kernel ≡ []

module _ {K : Type 0} (socket : Socket K) where
  same_incoming : (fd : Option ℕ) (k : K) → (socket_of socket fd).incoming k ≡ socket.incoming k
  unfolding socket_of
  same_incoming none k = refl
  same_incoming (some fd) k = refl

  read_stream-Idle :
      (fuel : ℕ) (q : Bytes) (s : TcpStream K)
      → Idle socket q s
      → (end : End) × (n : ℕ) × (s' : TcpStream K) × (read_stream socket fuel s ≡ some (end, n, s'))
        × Idle socket q s'
  unfolding read_stream
  read_stream-Idle fuel q s i =
      let r = read_to_buffer-Reads (socket_of socket s.fd) fuel 0 q s.kernel i.holds in
      let same : r.unread ++ (socket_of socket s.fd).incoming r.after ≡ q =
        r.in_order ∙ ap (λ t. q ++ t) (same_incoming s.fd s.kernel ∙ i.silent) ∙ append-nil q in
      let (kept, nothing) = whole_of r.unread _ q same (omega (arith, r.counted)) in
      let s' : TcpStream K = record s { read_buffer = r.left; kernel = r.after } in
      (
        r.end,
        r.count,
        s',
        rw (r.returns, read_stream) refl,
        record {
          holds = subst (λ t. Holds r.left t) kept r.holds;
          silent = sym (same_incoming s.fd r.after) ∙ nothing;
        },
      )

module _ {K : Type 0} (socket : Socket K) (io_fuel : ℕ) where
  -- The inner loop goes on for as long as bytes are missing.
  read_whole-Idle :
      (fuel t : ℕ) (q : Bytes) (s : TcpStream K)
      → Idle socket q s
      → length q < t
      → (end : End) × (s' : TcpStream K) × (read_whole socket io_fuel fuel (pos t) s
          ≡ some (end, s'))
        × (end ≢ done)
  unfolding read_whole
  read_whole-Idle zero t q s i short = (more, s, refl, λ e. cc)
  read_whole-Idle (suc fuel) t q s i short =
      let (end, n, s', e, i') = read_stream-Idle socket io_fuel q s i in
      let missing : ltb_ℤ (read_able s.read_buffer) (pos t) ≡ true =
        rw (read_able_of_Holds q i.holds) (ground arith) in
      elim (End-cases end) [
        | inl f ↦
            let (last, s'', g, d) = read_whole-Idle fuel t q s' i' short in
            (last, s'', rw (missing, e, f, g, read_whole) refl, d)
        | inr (inl f) ↦ (thrown, s', rw (missing, e, f, read_whole) refl, λ z. cc)
        | inr (inr f) ↦ (more, s', rw (missing, e, f, read_whole) refl, λ z. cc)
      ]

  -- A packet that is whole in the buffer, with nothing behind it and nothing more to come, is never
  -- handed out: the call does not return it however long it reads, since it waits for five bytes
  -- more than the packet has. The packet is five bytes shorter than 2 ^ 31.
  pub read_protocol_message_waits :
      (fuel : ℕ) (m : TinyPbProtocol) (s : TcpStream K)
      → packet_length m + 5 < 2 ^ 31
      → Idle socket (packet m) s
      → (end : End) × (s' : TcpStream K) × (read_protocol_message socket io_fuel fuel s
          ≡ some (end, [], s'))
        × (end ≢ done)
  unfolding read_protocol_message read_body
  read_protocol_message_waits zero m s small i = (more, s, refl, λ e. cc)
  read_protocol_message_waits (suc fuel) m s small i =
      let L = packet_length m in
      let c = At-of_Holds (packet m) i.holds in
      let first = byte-At pb_start _ c in
      let size = length-packet m in
      let enough : ltb_ℤ (read_able s.read_buffer) (pos 5) ≡ false =
        rw (read_able_of_Holds (packet m) i.holds, size) (ground arith) in
      let (end, s', e, d) = read_whole-Idle fuel (5 + L) (packet m) s i (omega (arith, size)) in
      let c1 = advance (pb_start ∷ []) _ 1 refl c in
      let c2 = rw (append_assoc (net_bytes L) (body m ++ (pb_end ∷ [])) i.holds.post) at c1 in
      let range : IsInt32 (pos L) = omega arith in
      let len : get_int32_from_net_byte s.read_buffer.buffer (s.read_buffer.read_index + 1)
          ≡ some (pos L) =
        rw (c2.layout, get_int32-net_bytes c2.before _ (pos L) _ range c2.index) refl in
      let fits : ltb (pos_part (pos (5 + L))) (2 ^ 31) ≡ true = ground arith in
      elim (End-cases end) [
        | inl f ↦ absurd (d f)
        | inr (inl f) ↦ (
          thrown,
          s',
          rw (enough, first, len, pos-add 5 L, fits, e, f, read_protocol_message, read_body) refl,
          λ z. cc,
        )
        | inr (inr f) ↦ (
          more,
          s',
          rw (enough, first, len, pos-add 5 L, fits, e, f, read_protocol_message, read_body) refl,
          λ z. cc,
        )
      ]
