-- ===== src/Stream/Progress.antt =====
-- A write comes to its end.
use mcoro_rpc.Common.{
  ◌⊎◌, ℕ, zero, suc, ◌+◌, ◌≤◌, ◌<◌, ◌≡◌, refl, sym, ap, ◌∙◌, [], ◌∷◌, ◌++◌, Option, none, some,
  false, subst, append-nil, Bytes, length, length-append, drop, length-drop, ◌==◌, inl, inr, arith,
}
use mcoro_rpc.Buffer.{TcpBuffer}
use mcoro_rpc.Buffer.Holds.{Holds, contents_of_Holds}
use mcoro_rpc.Buffer.Fifo.{move_read_index-Leaves, write_to_buffer-Leaves}
use mcoro_rpc.Stream.{Socket, sent, send_blocked, End, done, more, write_from_buffer, write}
use mcoro_rpc.Stream.Writes.{write-Writes}

-- A socket that sends at least a byte of a text or blocks, and blocks only as often as its patience
-- lasts.
pub record IsPatient {K : Type 0} (socket : Socket K) (patience : K → ℕ) : Type 0 where
  pub goes :
      (c : ℕ) (cs : Bytes) (k : K)
      → ((n : ℕ) × ((socket.send (c ∷ cs) k).0 ≡ sent (suc n))
          × (patience (socket.send (c ∷ cs) k).1 ≤ patience k))
        ⊎ (((socket.send (c ∷ cs) k).0 ≡ send_blocked)
            × (patience (socket.send (c ∷ cs) k).1 < patience k))

abbrev end_of : {K : Type 0} → Option (End × TcpBuffer × K) → End
end_of none = more
end_of (some (end, b, k)) = end

module _ {K : Type 0} (socket : Socket K) (patience : K → ℕ) where
  write_from_buffer_done :
      (fuel : ℕ) (q : Bytes) (k : K) {b : TcpBuffer}
      → IsPatient socket patience
      → Holds b q
      → length q + patience k < fuel
      → (b' : TcpBuffer) × (k' : K) × (write_from_buffer socket fuel b k ≡ some (done, b', k'))
  unfolding write_from_buffer
  write_from_buffer_done zero q k p h enough = absurd (omega arith)
  write_from_buffer_done (suc fuel) [] k {b} p h enough =
      (b, k, rw (contents_of_Holds h, write_from_buffer) refl)
  write_from_buffer_done (suc fuel) (c ∷ cs) k {b} p h enough =
      let (_, k') = socket.send (c ∷ cs) k in
      elim (p.goes c cs k) [
        | inr (e, less) ↦
            let (b', last, f) = write_from_buffer_done fuel (c ∷ cs) k' p h (omega (arith, less)) in
            (b', last, rw (contents_of_Holds h, e, write_from_buffer) f)
        | inl (n, e, less) ↦
            let (le, went) = rw e at (socket.send_gives (c ∷ cs) k) in
            let (b1, g, h1) = move_read_index-Leaves (c ∷ cs) (suc n) h le in
            let rest = drop (suc n) (c ∷ cs) in
            let shorter : length rest + patience k' < fuel =
              omega (arith, length-drop (suc n) (c ∷ cs), le, less) in
            let (b', last, f) = write_from_buffer_done fuel rest k' p h1 shorter in
            let some_sent : suc n == 0 ≡ false = ground arith in
            (b', last, rw (contents_of_Holds h, e, some_sent, g, write_from_buffer) f)
      ]

  -- A write to a patient socket returns in as many rounds as there are bytes to send and times that
  -- the socket may block, and one more, with nothing left in the buffer, and everything gone out in
  -- order.
  pub write_done :
      (fuel : ℕ) (q text : Bytes) (k : K) {b : TcpBuffer}
      → IsPatient socket patience
      → Holds b q
      → length q + length text + patience k < fuel
      → (b' : TcpBuffer) × (k' : K) × (write socket fuel text b k ≡ some (done, b', k'))
        × Holds b' []
        × (socket.outgoing k' ≡ socket.outgoing k ++ (q ++ text))
  unfolding write
  write_done fuel q text k {b} p h enough =
      let (b1, e, h1) = write_to_buffer-Leaves q text h in
      let (b', k', f) =
        write_from_buffer_done fuel (q ++ text) k p h1 (omega (arith, length-append q text)) in
      let w = write-Writes socket fuel q text k h in
      let result : write socket fuel text b k ≡ some (done, b', k') = rw (e, write) f in
      let ended : w.end ≡ done = ap end_of (sym w.returns ∙ result) in
      let nothing : w.unsent ≡ [] = elim w.complete [ inl (_, u) ↦ u | inr d ↦ absurd (d ended) ] in
      (
        w.left,
        w.after,
        w.returns ∙ ap (λ z. some (z, w.left, w.after)) ended,
        subst (λ u. Holds w.left u) nothing w.holds,
        sym (append-nil (socket.outgoing w.after))
            ∙ ap (λ u. socket.outgoing w.after ++ u) (sym nothing)
            ∙ w.in_order,
      )
