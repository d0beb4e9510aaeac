-- ===== src/Stream.antt =====
-- The stream over a socket: include/net/tcpstream.hpp and src/tcpstream.cc. The socket is the
-- kernel's: its `recv` and `send` are the operations of an interface. Where the code waits for the
-- socket and tries again, the model tries again, in a bounded number of rounds.
pub mod Reads
pub mod Writes
pub mod Progress
pub mod Tcp
pub mod Message
use mcoro_rpc.Common.{
  refl, ◌⊎◌, inl, inr, ℕ, zero, suc, ◌+◌, ◌-◌, ◌≤◌, ◌≡◌, List, [], ◌∷◌, ◌++◌, Option, none, some,
  Bytes, length, take, drop, copy_to, ◌==◌, if◌then◌else◌, ℤ, pos, negsuc, arith,
}
use mcoro_rpc.Buffer.{
  TcpBuffer, write_able, read_able, resize_buffer, move_write_index, move_read_index, contents,
  write_to_buffer,
}

-- What `recv` and `send` answer: the bytes taken in, the number sent, or an error.
pub data Recv : Type 0 where
  received : Bytes → Recv
  recv_blocked recv_reset recv_failed : Recv

pub data Sent : Type 0 where
  sent : ℕ → Sent
  send_blocked send_failed : Sent

-- What a `recv` of `n` bytes and a `send` may do to the bytes still to come and those gone out.
abbrev pub Takes : ℕ → Recv → Bytes → Bytes → Type 0
Takes n (received got) before after = (length got ≤ n) × (before ≡ got ++ after)
Takes n recv_blocked before after = before ≡ after
Takes n recv_reset before after = before ≡ after
Takes n recv_failed before after = before ≡ after

abbrev pub Gives : Bytes → Sent → Bytes → Bytes → Type 0
Gives text (sent n) before after = (n ≤ length text) × (after ≡ before ++ take n text)
Gives text send_blocked before after = before ≡ after
Gives text send_failed before after = before ≡ after

-- A socket with states `K`: the bytes that it has still to deliver and those that it has taken,
-- and the two calls. `recv` hands over no more than asked for, and the stream's bytes in order.
pub record Socket (K : Type 0) : Type 0 where
  pub incoming : K → Bytes
  pub outgoing : K → Bytes
  pub recv : ℕ → K → Recv × K
  pub send : Bytes → K → Sent × K
  pub recv_takes : (n : ℕ) (k : K) → Takes n (recv n k).0 (incoming k) (incoming (recv n k).1)
  pub recv_sends_none : (n : ℕ) (k : K) → outgoing (recv n k).1 ≡ outgoing k
  pub send_gives :
      (text : Bytes) (k : K) → Gives text (send text k).0 (outgoing k) (outgoing (send text k).1)

-- How a loop ends: it returns, an exception leaves it, or the rounds given were not enough.
pub data End : Type 0 where
  done thrown more : End

pub End-cases : (e : End) → (e ≡ done) ⊎ ((e ≡ thrown) ⊎ (e ≡ more))
End-cases done = inl refl
End-cases thrown = inr (inl refl)
End-cases more = inr (inr refl)

-- `if (writeAble() == 0) resizeBuffer(writeAble() + 4096);`
unfoldable pub make_room : TcpBuffer → Option TcpBuffer
unfolding write_able
make_room b = elim (write_able b) [
  | negsuc _ ↦ some b
  | pos n ↦ if n == 0 then resize_buffer b 4096 else some b
]

-- The bytes that `recv` wrote behind the write index, and the index behind them.
unfoldable pub take_in : Bytes → TcpBuffer → Option TcpBuffer
take_in got b = elim (copy_to b.buffer b.write_index got) [
  | none ↦ none
  | some filled ↦ move_write_index (record b { buffer = filled }) (pos (length got))
]

module _ {K : Type 0} (socket : Socket K) where
  -- The end, the number of bytes read, the buffer and the socket; `none` is a fault. The length
  -- given to `recv` is 0 where the write index is behind the vector.
  unfoldable pub read_to_buffer : ℕ → ℕ → TcpBuffer → K → Option (End × ℕ × TcpBuffer × K)
  unfolding make_room take_in
  read_to_buffer zero total b k = some (more, total, b, k)
  read_to_buffer (suc fuel) total b k = elim (make_room b) [
    | none ↦ none
    | some b1 ↦
        let (answer, k') = socket.recv (length b1.buffer - b1.write_index) k in
        elim answer [
          | received got ↦
              if length got == 0 then some (done, total, b1, k') else elim (take_in got b1) [
                | none ↦ none
                | some b2 ↦ read_to_buffer fuel (total + length got) b2 k'
              ]
          | recv_blocked ↦
              let again = read_to_buffer fuel total b1 k' in
              if total == 0 then again else some (done, total, b1, k')
          | recv_reset ↦ some (done, total, b1, k')
          | recv_failed ↦ some (thrown, total, b1, k')
        ]
  ]

  unfoldable pub write_from_buffer : ℕ → TcpBuffer → K → Option (End × TcpBuffer × K)
  write_from_buffer zero b k = some (more, b, k)
  write_from_buffer (suc fuel) b k = elim (contents b) [
    | [] ↦ some (done, b, k)
    | c ∷ cs ↦
        let (answer, k') = socket.send (c ∷ cs) k in
        elim answer [
          | sent n ↦ if n == 0 then some (thrown, b, k') else elim (move_read_index b (pos n)) [
            | none ↦ none
            | some b' ↦ write_from_buffer fuel b' k'
          ]
          | send_blocked ↦ write_from_buffer fuel b k'
          | send_failed ↦ some (thrown, b, k')
        ]
  ]

  unfoldable pub write : ℕ → Bytes → TcpBuffer → K → Option (End × TcpBuffer × K)
  unfolding write_from_buffer
  write fuel text b k = elim (write_to_buffer b text) [
    | none ↦ none
    | some b' ↦ write_from_buffer fuel b' k
  ]
