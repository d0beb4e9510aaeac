-- ===== src/Stream/Reads.antt =====
-- What comes in through a stream.
use mcoro_rpc.Common.{
  ◌⊎◌, ℕ, zero, suc, ◌+◌, ◌-◌, ◌≤◌, ◌≡◌, refl, sym, ap, ◌∙◌, ◌++◌, append_assoc, Option, some,
  Bytes, length, length-append, drop, ◌==◌, arith, Bool-cases, inl, inr, copy_to_prefix,
  nil_of_length, ==_iff,
}
use mcoro_rpc.Buffer.{TcpBuffer, write_able}
use mcoro_rpc.Buffer.Holds.{Holds, Leaves, Holds_bounds, resize_buffer-Leaves}
use mcoro_rpc.Buffer.Fifo.{move_write_index-Leaves}
use mcoro_rpc.Stream.{
  Socket, Recv, received, recv_blocked, recv_reset, recv_failed, End, done, thrown, more, make_room,
  take_in, read_to_buffer,
}

make_room-Leaves : {b : TcpBuffer} (q : Bytes) → Holds b q → Leaves (make_room b) q
unfolding make_room write_able
make_room-Leaves {b} q h = elim (Bool-cases (length b.buffer == b.write_index)) [
  | inl full ↦
      let (b', e, h', _, _) = resize_buffer-Leaves q 4096 h in (b', ground (arith, full, e), h')
  | inr room ↦ (b, ground (arith, room), h)
]

take_in-Leaves :
    {b : TcpBuffer} (q got : Bytes)
    → Holds b q
    → length got ≤ length b.buffer - b.write_index
    → Leaves (take_in got b) (q ++ got)
unfolding take_in
take_in-Leaves {b} q got h fits =
    let rest = drop (length got) h.post in
    let filled : Holds (record b { buffer = (h.pre ++ q) ++ (got ++ rest) }) q = record {
      pre = h.pre;
      post = got ++ rest;
      layout = append_assoc h.pre q (got ++ rest);
      at_read = h.at_read;
      at_write = h.at_write;
    } in
    rw
      (
        copy_to_prefix b.buffer (h.pre ++ q) h.post got b.write_index
            (h.layout ∙ sym (append_assoc h.pre q h.post))
            (omega (arith, h.at_write, length-append h.pre q))
            (omega (
              arith,
              fits,
              Holds_bounds q h,
              ap length h.layout,
              length-append h.pre (q ++ h.post),
              length-append q h.post,
            )),
        take_in,
      )
      (move_write_index-Leaves q got rest filled refl)

Recv-cases :
    (a : Recv)
    → ((got : Bytes) × (a ≡ received got))
      ⊎ ((a ≡ recv_blocked) ⊎ ((a ≡ recv_reset) ⊎ (a ≡ recv_failed)))
Recv-cases (received got) = inl (got, refl)
Recv-cases recv_blocked = inr (inl refl)
Recv-cases recv_reset = inr (inr (inl refl))
Recv-cases recv_failed = inr (inr (inr refl))

-- How a read leaves things that began with `q` in the buffer and `total` bytes counted.
pub record Reads {K : Type 0} (socket : Socket K) (q : Bytes) (total : ℕ) (k : K)
    (result : Option (End × ℕ × TcpBuffer × K)) : Type 0 where
  pub end : End
  pub count : ℕ
  pub left : TcpBuffer
  pub after : K
  pub unread : Bytes
  pub returns : result ≡ some (end, count, left, after)
  pub holds : Holds left unread
  pub in_order : unread ++ socket.incoming after ≡ q ++ socket.incoming k
  pub counted : count + length q ≡ total + length unread

then_Reads :
    {K : Type 0} {socket : Socket K} {q q' : Bytes} {total total' : ℕ} {k k' : K}
    {result : Option (End × ℕ × TcpBuffer × K)}
    → Reads socket q' total' k' result
    → q' ++ socket.incoming k' ≡ q ++ socket.incoming k
    → total' + length q ≡ total + length q'
    → Reads socket q total k result
then_Reads r same counted = record {
  end = r.end;
  count = r.count;
  left = r.left;
  after = r.after;
  unread = r.unread;
  returns = r.returns;
  holds = r.holds;
  in_order = r.in_order ∙ same;
  counted = omega (arith, r.counted, counted);
}

module _ {K : Type 0} (socket : Socket K) where
  -- A read never faults, however often the socket blocks and in whatever pieces it delivers: the
  -- bytes in the buffer and those still to come are at its end what they were, in their order, and
  -- the count is of the bytes that came in.
  pub read_to_buffer-Reads :
      (fuel total : ℕ) (q : Bytes) (k : K) {b : TcpBuffer}
      → Holds b q
      → Reads socket q total k (read_to_buffer socket fuel total b k)
  unfolding read_to_buffer
  read_to_buffer-Reads zero total q k {b} h = record {
    end = more;
    count = total;
    left = b;
    after = k;
    unread = q;
    returns = refl;
    holds = h;
    in_order = refl;
    counted = refl;
  }
  read_to_buffer-Reads (suc fuel) total q k {b} h =
      let (b1, e, h1) = make_room-Leaves q h in
      let n = length b1.buffer - b1.write_index in
      let k' = (socket.recv n k).1 in
      let law = socket.recv_takes n k in
      let stops : (end : End)
          → socket.incoming k ≡ socket.incoming k'
          → Reads socket q total k (some (end, total, b1, k')) =
        λ end same. record {
          end = end;
          count = total;
          left = b1;
          after = k';
          unread = q;
          returns = refl;
          holds = h1;
          in_order = ap (λ t. q ++ t) (sym same);
          counted = refl;
        } in
      elim (Recv-cases (socket.recv n k).0) [
        | inl (got, f) ↦
            let (fits, split) = rw f at law in
            elim (Bool-cases (length got == 0)) [
              | inl z ↦
                  let nothing = nil_of_length got ((==_iff (length got) 0).0 z) in
                  rw (e, f, z, read_to_buffer)
                    (stops done (split ∙ ap (λ t. t ++ socket.incoming k') nothing))
              | inr some_bytes ↦
                  let (b2, g, h2) = take_in-Leaves q got h1 fits in
                  rw (e, f, some_bytes, g, read_to_buffer)
                    (then_Reads (read_to_buffer-Reads fuel (total + length got) (q ++ got) k' h2)
                      (append_assoc q got (socket.incoming k') ∙ ap (λ t. q ++ t) (sym split))
                      (omega (arith, length-append q got)))
            ]
        | inr (inl f) ↦
            let same : socket.incoming k ≡ socket.incoming k' = rw f at law in
            elim (Bool-cases (total == 0)) [
              | inl z ↦
                  rw (e, f, z, read_to_buffer)
                    (then_Reads (read_to_buffer-Reads fuel total q k' h1)
                      (ap (λ t. q ++ t) (sym same)) refl)
              | inr z ↦ rw (e, f, z, read_to_buffer) (stops done same)
            ]
        | inr (inr (inl f)) ↦ rw (e, f, read_to_buffer) (stops done (rw f at law))
        | inr (inr (inr f)) ↦ rw (e, f, read_to_buffer) (stops thrown (rw f at law))
      ]
