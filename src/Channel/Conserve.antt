-- ===== src/Channel/Conserve.antt =====
-- No call of a channel loses a value or makes one up, but those that cancel or close.
use mathlib.Core.List.{Perm, perm_middle, perm_append_comm}
use mathlib.Core.List.Perm
use mcoro_rpc.Common.{
  ℕ, ◌≡◌, refl, sym, ◌∙◌, ◌⊎◌, inl, inr, List, [], ◌∷◌, ◌++◌, append-nil, append_assoc, map,
  if◌then◌else◌, arith, List-cases,
}
use mcoro_rpc.Channel.{
  Channel, cancelled, WriterAwaiter, Call, sends, recvs, try_recvs, send_syncs, cancels, closes,
  call, run,
}
use mcoro_rpc.Channel.Invariant.{IsSettled, call-IsSettled}
use mcoro_rpc.Channel.Order.{
  wake_values, delivered, held, accepted, InLine, send_in_order, send_sync_in_order, recv_in_order,
  try_recv_in_order, all_delivered, all_accepted,
}

module _ {T : Type 0} where
  -- The values that a call drops.
  abbrev pub lost : Channel T → Call T → List T
  lost c cancels = map (λ w. w.value) c.writers
  lost c closes = if c.is_active then held c else []
  lost c _ = []

  cancel_values :
      (ws : List (WriterAwaiter T)) (rs : List ℕ)
      → wake_values {T = T} (map (λ w. cancelled w.handle) ws ++ map cancelled rs) ≡ []
  cancel_values [] [] = refl
  cancel_values [] (r ∷ rs) = cancel_values [] rs
  cancel_values (w ∷ ws) rs = cancel_values ws rs

  of_eq : {xs ys : List T} → xs ≡ ys → Perm xs ys
  of_eq {ys = ys} e = rw e (Perm.refl ys)

  -- Both lists are not empty only where a writer waits behind buffered values.
  line_cases :
      (c : Channel T)
      → InLine c ⊎ ((w : WriterAwaiter T) × (ws : List (WriterAwaiter T)) × (c.writers ≡ w ∷ ws))
  line_cases c = elim (List-cases c.writers) [
    | inl e ↦ inl (inr e)
    | inr (w, ws, e) ↦ inr (w, ws, e)
  ]

  recv_conserves :
      (c : Channel T) (r : ℕ)
      → Perm (delivered (call c (recvs r)) ++ held (call c (recvs r)).0) (held c ++ [])
  unfolding call
  recv_conserves c r = elim (line_cases c) [
    | inl l ↦ of_eq (recv_in_order c r l)
    | inr (w, ws, e) ↦
        rw (e, append-nil, call)
          (Perm.symm (perm_middle c.buffer (map (λ (x : WriterAwaiter T). x.value) ws)))
  ]

  try_recv_conserves :
      (c : Channel T)
      → Perm (delivered (call c try_recvs) ++ held (call c try_recvs).0) (held c ++ [])
  unfolding call
  try_recv_conserves c = elim (line_cases c) [
    | inl l ↦ of_eq (try_recv_in_order c l)
    | inr (w, ws, e) ↦
        rw (e, append-nil, call)
          (Perm.symm (perm_middle c.buffer (map (λ (x : WriterAwaiter T). x.value) ws)))
  ]

  -- What a call delivers, what it drops and what stays in the channel are together the values that
  -- were in it and those that the call brought in.
  pub call_conserves :
      (c : Channel T) (k : Call T)
      → IsSettled c
      → Perm ((delivered (call c k) ++ held (call c k).0) ++ lost c k) (held c ++ accepted c k)
  unfolding call
  call_conserves c (sends w v) s = of_eq (append-nil _ ∙ send_in_order c w v s)
  call_conserves c (recvs r) s =
      rw (append-nil (delivered (call c (recvs r)) ++ held (call c (recvs r)).0))
        (recv_conserves c r)
  call_conserves c try_recvs s =
      rw (append-nil (delivered (call c try_recvs) ++ held (call c try_recvs).0))
        (try_recv_conserves c)
  call_conserves c (send_syncs v) s = of_eq (append-nil _ ∙ send_sync_in_order c v s)
  call_conserves c cancels s =
      of_eq (
        ground (arith, cancel_values c.writers c.readers, append-nil c.buffer, append-nil (held c)))
  call_conserves c closes s =
      of_eq (ground (arith, cancel_values c.writers c.readers, append-nil (held c)))

  swap_front : (xs ys zs : List T) → Perm (xs ++ (ys ++ zs)) (ys ++ (xs ++ zs))
  swap_front xs ys zs =
      rw (← append_assoc xs ys zs, ← append_assoc ys xs zs)
        (Perm.append (perm_append_comm xs ys) (Perm.refl zs))

  -- Two equations between what goes in and what comes out, one after the other.
  compose :
      (d₁ h₁ l₁ h a₁ d₂ h₂ l₂ a₂ : List T)
      → Perm ((d₁ ++ h₁) ++ l₁) (h ++ a₁)
      → Perm ((d₂ ++ h₂) ++ l₂) (h₁ ++ a₂)
      → Perm (((d₁ ++ d₂) ++ h₂) ++ (l₁ ++ l₂)) (h ++ (a₁ ++ a₂))
  compose d₁ h₁ l₁ h a₁ d₂ h₂ l₂ a₂ p q = Perm.trans to_second (Perm.trans second first)
    where
      to_second : Perm (((d₁ ++ d₂) ++ h₂) ++ (l₁ ++ l₂)) (d₁ ++ (l₁ ++ ((d₂ ++ h₂) ++ l₂)))
      to_second =
          rw
            (
              append_assoc (d₁ ++ d₂) h₂ (l₁ ++ l₂),
              append_assoc d₁ d₂ (h₂ ++ (l₁ ++ l₂)),
              ← append_assoc d₂ h₂ (l₁ ++ l₂),
            )
            (Perm.append (Perm.refl d₁) (swap_front (d₂ ++ h₂) l₁ l₂))

      second : Perm (d₁ ++ (l₁ ++ ((d₂ ++ h₂) ++ l₂))) (d₁ ++ (h₁ ++ (l₁ ++ a₂)))
      second =
          Perm.append (Perm.refl d₁)
            (Perm.trans (Perm.append (Perm.refl l₁) q) (swap_front l₁ h₁ a₂))

      first : Perm (d₁ ++ (h₁ ++ (l₁ ++ a₂))) (h ++ (a₁ ++ a₂))
      first =
          rw
            (
              ← append_assoc d₁ h₁ (l₁ ++ a₂),
              ← append_assoc (d₁ ++ h₁) l₁ a₂,
              ← append_assoc h a₁ a₂,
            )
            (Perm.append p (Perm.refl a₂))

  abbrev pub all_lost : Channel T → List (Call T) → List T
  all_lost c [] = []
  all_lost c (k ∷ ks) = lost c k ++ all_lost (call c k).0 ks

  -- Over any calls of a settled channel: the values delivered, those left in the channel and those
  -- that a cancel or a close dropped are, each as often, the values that were in it at the start
  -- and those that the calls brought in.
  pub run_conserves :
      (c : Channel T) (ks : List (Call T))
      → IsSettled c
      → Perm
          ((all_delivered c ks ++ held (run c ks)) ++ all_lost c ks)
          (held c ++ all_accepted c ks)
  unfolding run
  run_conserves c [] s = of_eq (append-nil (held c) ∙ sym (append-nil (held c)))
  run_conserves c (k ∷ ks) s =
      let c' = (call c k).0 in
      compose (delivered (call c k)) (held c') (lost c k) (held c) (accepted c k)
        (all_delivered c' ks) (held (run c' ks)) (all_lost c' ks) (all_accepted c' ks)
        (call_conserves c k s) (run_conserves c' ks (call-IsSettled c k s))
