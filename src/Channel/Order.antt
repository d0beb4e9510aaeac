-- ===== src/Channel/Order.antt =====
-- Which values a channel delivers, and in which order.
use mcoro_rpc.Common.{
  ℕ, ◌≡◌, ap, sym, ◌∙◌, ◌⊎◌, List, [], ◌∷◌, ◌++◌, append-nil, append_assoc, map, true,
  if◌then◌else◌, arith,
}
use mathlib.Core.List.{map-append}
use mcoro_rpc.Channel.{
  Channel, Wake, resumed, resumed_with, cancelled, WriterAwaiter, Answer, value, done, empty,
  suspended, channel_closed, Call, Outcome, sends, recvs, try_recvs, send_syncs, cancels, closes,
  call, run,
}
use mcoro_rpc.Channel.Invariant.{IsSettled, call-IsSettled}

module _ {T : Type 0} where
  abbrev pub wake_values : List (Wake T) → List T
  wake_values [] = []
  wake_values (resumed _ ∷ ws) = wake_values ws
  wake_values (resumed_with _ v ∷ ws) = v ∷ wake_values ws
  wake_values (cancelled _ ∷ ws) = wake_values ws

  abbrev pub answer_values : Answer T → List T
  answer_values (value v) = v ∷ []
  answer_values (done _) = []
  answer_values empty = []
  answer_values suspended = []
  answer_values channel_closed = []

  -- The values that a call hands to readers: to those that it wakes, and to its own caller.
  abbrev pub delivered : Outcome T → List T
  delivered (c, wakes, answer) = wake_values wakes ++ answer_values answer

  -- The values in the channel: those buffered, then those of the writers that wait.
  abbrev pub held : Channel T → List T
  held c = c.buffer ++ map (λ w. w.value) c.writers

  -- The values that a call brings in. A closed channel takes none, and a full one none of `sendSync`.
  abbrev pub accepted : Channel T → Call T → List T
  accepted c (sends w v) = if c.is_active then v ∷ [] else []
  accepted c (recvs r) = []
  accepted c try_recvs = []
  accepted c (send_syncs v) = elim (call c (send_syncs v)).2 [ done true ↦ v ∷ [] | _ ↦ [] ]
  accepted c cancels = []
  accepted c closes = []

  -- A call after which a value may leave before one that came earlier, or be lost.
  abbrev pub IsOrderly : Channel T → Call T → Type 0
  IsOrderly c (sends w v) = c.capacity ≡ 0
  IsOrderly c cancels = ⊥
  IsOrderly c closes = ⊥
  IsOrderly c _ = Unit {0}

  -- No writer waits behind buffered values.
  abbrev pub InLine : Channel T → Type 0
  InLine c = (c.buffer ≡ []) ⊎ (c.writers ≡ [])

  pub send_in_order :
      (c : Channel T) (w : ℕ) (v : T)
      → IsSettled c
      → let k = sends w v in delivered (call c k) ++ held (call c k).0 ≡ held c ++ accepted c k
  unfolding call
  send_in_order c w v s = ground (
    arith,
    append-nil (held c),
    append-nil c.buffer,
    append-nil (c.buffer ++ (v ∷ [])),
    map-append (λ (x : WriterAwaiter T). x.value) c.writers (record { handle = w; value = v } ∷ []),
    append_assoc c.buffer (map (λ (x : WriterAwaiter T). x.value) c.writers) (v ∷ []),
  )

  pub send_sync_in_order :
      (c : Channel T) (v : T)
      → IsSettled c
      → let k = send_syncs v in delivered (call c k) ++ held (call c k).0 ≡ held c ++ accepted c k
  unfolding call
  send_sync_in_order c v s =
      ground (arith, append-nil (held c), append-nil c.buffer, append-nil (c.buffer ++ (v ∷ [])))

  pub recv_in_order :
      (c : Channel T) (r : ℕ)
      → InLine c
      → delivered (call c (recvs r)) ++ held (call c (recvs r)).0 ≡ held c ++ []
  unfolding call
  recv_in_order c r l = ground (arith, append-nil (held c))

  pub try_recv_in_order :
      (c : Channel T)
      → InLine c
      → delivered (call c try_recvs) ++ held (call c try_recvs).0 ≡ held c ++ []
  unfolding call
  try_recv_in_order c l = ground (arith, append-nil (held c))

  call_in_order :
      (c : Channel T) (k : Call T)
      → IsSettled c
      → InLine c
      → IsOrderly c k
      → delivered (call c k) ++ held (call c k).0 ≡ held c ++ accepted c k
  call_in_order c (sends w v) s l o = send_in_order c w v s
  call_in_order c (recvs r) s l o = recv_in_order c r l
  call_in_order c try_recvs s l o = try_recv_in_order c l
  call_in_order c (send_syncs v) s l o = send_sync_in_order c v s
  call_in_order c cancels s l o = absurd o
  call_in_order c closes s l o = absurd o

  call-InLine :
      (c : Channel T) (k : Call T) → IsSettled c → InLine c → IsOrderly c k → InLine (call c k).0
  unfolding call
  call-InLine c (sends w v) s l o = ground arith
  call-InLine c (recvs r) s l o = ground arith
  call-InLine c try_recvs s l o = ground arith
  call-InLine c (send_syncs v) s l o = ground arith
  call-InLine c cancels s l o = absurd o
  call-InLine c closes s l o = absurd o

  -- The values delivered and taken in by calls in order, and the channel that they leave.
  abbrev pub all_delivered : Channel T → List (Call T) → List T
  all_delivered c [] = []
  all_delivered c (k ∷ ks) = delivered (call c k) ++ all_delivered (call c k).0 ks

  abbrev pub all_accepted : Channel T → List (Call T) → List T
  all_accepted c [] = []
  all_accepted c (k ∷ ks) = accepted c k ++ all_accepted (call c k).0 ks

  abbrev pub AllOrderly : Channel T → List (Call T) → Type 0
  AllOrderly c [] = Unit {0}
  AllOrderly c (k ∷ ks) = IsOrderly c k × AllOrderly (call c k).0 ks

  -- From a settled channel in which no writer waits behind buffered values, calls that neither
  -- cancel nor close, and that use `send` only on an unbuffered channel, deliver the values in the
  -- order in which they came, and keep in the channel those that are left.
  pub run_in_order :
      (c : Channel T) (ks : List (Call T))
      → IsSettled c
      → InLine c
      → AllOrderly c ks
      → all_delivered c ks ++ held (run c ks) ≡ held c ++ all_accepted c ks
  unfolding run
  run_in_order c [] s l o = sym (append-nil (held c))
  run_in_order c (k ∷ ks) s l o =
      let c' = (call c k).0 in
      let later = run_in_order c' ks (call-IsSettled c k s) (call-InLine c k s l o.0) o.1 in
      append_assoc (delivered (call c k)) (all_delivered c' ks) (held (run c' ks))
      ∙ ap (λ t. delivered (call c k) ++ t) later
      ∙ sym (append_assoc (delivered (call c k)) (held c') (all_accepted c' ks))
      ∙ ap (λ t. t ++ all_accepted c' ks) (call_in_order c k s l o.0)
      ∙ append_assoc (held c) (accepted c k) (all_accepted c' ks)

  -- A reader that comes to a buffered channel on which a writer waits gets the writer's value, the
  -- newer one, and the buffered values wait on.
  pub recv_overtakes :
      (c : Channel T) (r : ℕ) (w : WriterAwaiter T) (ws : List (WriterAwaiter T)) (old : T)
      (olds : List T)
      → c.writers ≡ w ∷ ws
      → c.buffer ≡ old ∷ olds
      → (delivered (call c (recvs r)) ≡ w.value ∷ [])
        × ((call c (recvs r)).0.buffer ≡ old ∷ olds)
        × (delivered (call c try_recvs) ≡ w.value ∷ [])
        × ((call c try_recvs).0.buffer ≡ old ∷ olds)
  unfolding call
  recv_overtakes c r w ws old olds e f = ground arith
