-- ===== src/Stream/Writes.antt =====
-- What goes out through a stream.
use mcoro_rpc.Common.{
  ◌⊎◌, ℕ, zero, suc, ◌≡◌, ◌≢◌, refl, sym, ap, ◌∙◌, [], ◌∷◌, ◌++◌, append_assoc, Option, some, Bytes,
  take, drop, take-append-drop, ◌==◌, Bool-cases, ==_iff, inl, inr,
}
use mcoro_rpc.Buffer.{TcpBuffer}
use mcoro_rpc.Buffer.Holds.{Holds, contents_of_Holds}
use mcoro_rpc.Buffer.Fifo.{move_read_index-Leaves, write_to_buffer-Leaves}
use mcoro_rpc.Stream.{
  Socket, Sent, sent, send_blocked, send_failed, End, done, thrown, more, write_from_buffer, write,
}

Sent-cases : (a : Sent) → ((n : ℕ) × (a ≡ sent n)) ⊎ ((a ≡ send_blocked) ⊎ (a ≡ send_failed))
Sent-cases (sent n) = inl (n, refl)
Sent-cases send_blocked = inr (inl refl)
Sent-cases send_failed = inr (inr refl)

-- How a write leaves things that began with `q` in the buffer: it returns with nothing unsent, or
-- does not return.
pub record Writes {K : Type 0} (socket : Socket K) (q : Bytes) (k : K)
    (result : Option (End × TcpBuffer × K)) : Type 0 where
  pub end : End
  pub left : TcpBuffer
  pub after : K
  pub unsent : Bytes
  pub returns : result ≡ some (end, left, after)
  pub holds : Holds left unsent
  pub in_order : socket.outgoing after ++ unsent ≡ socket.outgoing k ++ q
  pub complete : ((end ≡ done) × (unsent ≡ [])) ⊎ (end ≢ done)

then_Writes :
    {K : Type 0} {socket : Socket K} {q q' : Bytes} {k k' : K}
    {result : Option (End × TcpBuffer × K)}
    → Writes socket q' k' result
    → socket.outgoing k' ++ q' ≡ socket.outgoing k ++ q
    → Writes socket q k result
then_Writes r same = record {
  end = r.end;
  left = r.left;
  after = r.after;
  unsent = r.unsent;
  returns = r.returns;
  holds = r.holds;
  in_order = r.in_order ∙ same;
  complete = r.complete;
}

module _ {K : Type 0} (socket : Socket K) where
  write_from_buffer-Writes :
      (fuel : ℕ) (q : Bytes) (k : K) {b : TcpBuffer}
      → Holds b q
      → Writes socket q k (write_from_buffer socket fuel b k)
  unfolding write_from_buffer
  write_from_buffer-Writes zero q k {b} h = record {
    end = more;
    left = b;
    after = k;
    unsent = q;
    returns = refl;
    holds = h;
    in_order = refl;
    complete = inr (λ e. cc);
  }
  write_from_buffer-Writes (suc fuel) [] k {b} h =
      rw (contents_of_Holds h, write_from_buffer)
        record {
          end = done;
          left = b;
          after = k;
          unsent = [];
          returns = refl;
          holds = h;
          in_order = refl;
          complete = inl (refl, refl);
        }
  write_from_buffer-Writes (suc fuel) (c ∷ cs) k {b} h =
      let q = c ∷ cs in
      let k' = (socket.send q k).1 in
      let law = socket.send_gives q k in
      let stops : (unsent : Bytes)
          → Holds b unsent
          → socket.outgoing k' ++ unsent ≡ socket.outgoing k ++ q
          → Writes socket q k (some (thrown, b, k')) =
        λ unsent h' same. record {
          end = thrown;
          left = b;
          after = k';
          unsent = unsent;
          returns = refl;
          holds = h';
          in_order = same;
          complete = inr (λ e. cc);
        } in
      elim (Sent-cases (socket.send q k).0) [
        | inl (n, f) ↦
            let (le, went) = rw f at law in
            let moved : socket.outgoing k' ++ drop n q ≡ socket.outgoing k ++ q =
              ap (λ t. t ++ drop n q) went
              ∙ append_assoc (socket.outgoing k) (take n q) (drop n q)
              ∙ ap (λ t. socket.outgoing k ++ t) (take-append-drop n q) in
            elim (Bool-cases (n == 0)) [
              | inl z ↦
                  let zero_sent = sym ((==_iff n 0).0 z) in
                  rw (contents_of_Holds h, f, z, write_from_buffer)
                    (stops q h (ap (λ j. socket.outgoing k' ++ drop j q) zero_sent ∙ moved))
              | inr some_sent ↦
                  let (b', g, h') = move_read_index-Leaves q n h le in
                  rw (contents_of_Holds h, f, some_sent, g, write_from_buffer)
                    (then_Writes (write_from_buffer-Writes fuel (drop n q) k' h') moved)
            ]
        | inr (inl f) ↦
            let same : socket.outgoing k ≡ socket.outgoing k' = rw f at law in
            rw (contents_of_Holds h, f, write_from_buffer)
              (then_Writes (write_from_buffer-Writes fuel q k' h) (ap (λ t. t ++ q) (sym same)))
        | inr (inr f) ↦
            let same : socket.outgoing k ≡ socket.outgoing k' = rw f at law in
            rw (contents_of_Holds h, f, write_from_buffer) (stops q h (ap (λ t. t ++ q) (sym same)))
      ]

  -- A write never faults, however often the socket blocks and in whatever pieces it sends: what
  -- has gone out and what is still in the buffer are what had gone out, what was in the buffer and
  -- the text, in this order, and a write that returns has left nothing in the buffer.
  pub write-Writes :
      (fuel : ℕ) (q text : Bytes) (k : K) {b : TcpBuffer}
      → Holds b q
      → Writes socket (q ++ text) k (write socket fuel text b k)
  unfolding write
  write-Writes fuel q text k h =
      let (b', e, h') = write_to_buffer-Leaves q text h in
      rw (e, write) (write_from_buffer-Writes fuel (q ++ text) k h')
