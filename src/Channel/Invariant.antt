-- ===== src/Channel/Invariant.antt =====
-- The state of a channel between two calls of it.
use mcoro_rpc.Common.{ℕ, ◌≤◌, ◌≡◌, refl, ◌⊎◌, inl, List, [], ◌∷◌, arith, length, length-append}
use mcoro_rpc.Channel.{
  Channel, Call, sends, recvs, try_recvs, send_syncs, cancels, closes, call, create, run,
}

-- Nobody waits to read while there is a value to be had, nobody waits to write while there is room,
-- and the buffer keeps to its capacity.
pub record IsSettled {T : Type 0} (c : Channel T) : Type 0 where
  pub readers_idle : (c.readers ≡ []) ⊎ ((c.buffer ≡ []) × (c.writers ≡ []))
  pub writers_idle : (c.writers ≡ []) ⊎ (length c.buffer ≡ c.capacity)
  pub bounded : length c.buffer ≤ c.capacity

module _ {T : Type 0} where
  -- Every call keeps a channel settled, whatever it answers.
  pub call-IsSettled : (c : Channel T) (k : Call T) → IsSettled c → IsSettled (call c k).0
  unfolding call
  call-IsSettled c (sends w v) s = ground (arith, length-append c.buffer (v ∷ []))
  call-IsSettled c (recvs r) s = ground arith
  call-IsSettled c try_recvs s = ground arith
  call-IsSettled c (send_syncs v) s = ground (arith, length-append c.buffer (v ∷ []))
  call-IsSettled c cancels s = ground arith
  call-IsSettled c closes s = ground arith

  pub create-IsSettled : (n : ℕ) → IsSettled {T = T} (create n)
  unfolding create
  create-IsSettled n = record {
    readers_idle = inl refl;
    writers_idle = inl refl;
    bounded = omega arith;
  }

  run-IsSettled : (c : Channel T) (ks : List (Call T)) → IsSettled c → IsSettled (run c ks)
  unfolding run
  run-IsSettled c [] s = s
  run-IsSettled c (k ∷ ks) s = run-IsSettled (call c k).0 ks (call-IsSettled c k s)

-- After any calls of a new channel nobody waits to read beside a value, nobody waits to write
-- beside free room, and no more values are buffered than the capacity allows.
pub run-create-IsSettled : {T : Type 0} (n : ℕ) (ks : List (Call T)) → IsSettled (run (create n) ks)
run-create-IsSettled n ks = run-IsSettled (create n) ks (create-IsSettled n)
