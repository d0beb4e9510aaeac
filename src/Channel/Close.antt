-- ===== src/Channel/Close.antt =====
-- A channel that is closed.
use mcoro_rpc.Common.{◌≡◌, refl, List, [], ◌∷◌, ◌++◌, map, true, false, arith, length, ◌<◌, ℕ}
use mcoro_rpc.Channel.{
  send, recv, push_writer, push_reader, take_value, refill, Channel, cancelled, Answer, done, empty,
  channel_closed, Call, sends, recvs, try_recvs, send_syncs, cancels, closes, call, run, send_sync,
  close, feed_reader,
}

module _ {T : Type 0} where
  -- What a call of a closed channel answers.
  abbrev pub closed_answer : Call T → Answer T
  closed_answer (sends w v) = done true
  closed_answer (recvs r) = channel_closed
  closed_answer try_recvs = empty
  closed_answer (send_syncs v) = done false
  closed_answer cancels = done true
  closed_answer closes = done true

  -- Nothing is in it and nobody waits.
  pub record IsClosed (c : Channel T) : Type 0 where
    pub inactive : c.is_active ≡ false
    pub no_values : c.buffer ≡ []
    pub no_writers : c.writers ≡ []
    pub no_readers : c.readers ≡ []

  close-IsClosed : (c : Channel T) → c.is_active ≡ true → IsClosed (call c closes).0
  unfolding call
  close-IsClosed c a = ground arith

  closed_call : (c : Channel T) (k : Call T) → IsClosed c → call c k ≡ (c, [], closed_answer k)
  unfolding call
  closed_call c (sends w v) z = ground arith
  closed_call c (recvs r) z = ground arith
  closed_call c try_recvs z = ground arith
  closed_call c (send_syncs v) z = ground arith
  closed_call c cancels z = ground arith
  closed_call c closes z = ground arith

  run_closed : (c : Channel T) (ks : List (Call T)) → IsClosed c → run c ks ≡ c
  unfolding run
  run_closed c [] z = refl
  run_closed c (k ∷ ks) z = rw (closed_call c k z) (run_closed c ks z)

  -- Closing an open channel cancels every waiting coroutine once, the writers first; from then on
  -- no call changes the channel or wakes anybody: a reader gets the exception, also where values
  -- were buffered, `tryRecv` nothing, `sendSync` false, and `send` returns as if it had sent.
  pub close_lem :
      (c : Channel T) (ks : List (Call T)) (k : Call T)
      → c.is_active ≡ true
      → ((call c closes).1 ≡ map (λ w. cancelled w.handle) c.writers ++ map cancelled c.readers)
        × (call (run (call c closes).0 ks) k ≡ ((call c closes).0, [], closed_answer k))
  unfolding call
  close_lem c ks k a =
      let z = close-IsClosed c a in
      (ground arith, rw (run_closed (call c closes).0 ks z) (closed_call (call c closes).0 k z))

  -- A channel stays open over a send or a receive.
  pub send_stays_active :
      (c : Channel T) (w : ℕ) (v : T) → (call c (sends w v)).0.is_active ≡ c.is_active
  unfolding call send push_writer
  send_stays_active c w v = ground arith

  pub recv_stays_active : (c : Channel T) (r : ℕ) → (call c (recvs r)).0.is_active ≡ c.is_active
  unfolding call recv take_value push_reader refill
  recv_stays_active c r = ground arith

  pub send_sync_queues :
      (c : Channel T) (v : T)
      → c.is_active ≡ true
      → c.readers ≡ []
      → length c.buffer < c.capacity
      → send_sync v c ≡ (record c { buffer = c.buffer ++ (v ∷ []) }, [], done true)
  unfolding call send_sync feed_reader
  send_sync_queues c v a nobody room = ground (arith, a, nobody, room)

  pub close_empties : (c : Channel T) → c.is_active ≡ true → (close c).0.buffer ≡ []
  unfolding call
  close_empties c a = (close-IsClosed c a).no_values
