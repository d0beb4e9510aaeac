-- ===== src/Rpc/Client/Calls/Answers.antt =====
-- What the answer of a call says, and what its retries can do.
use mcoro_rpc.Common.{
  ℕ, zero, suc, ◌≡◌, ◌⊎◌, inl, inr, refl, sym, ap, ◌∙◌, List, [], true, false, not, Option, none,
  some, Bytes, ℤ, arith, Bool-cases, if_true, if_false, subst,
}
use mcoro_rpc.Common.Names.{names_without}
use mcoro_rpc.Rpc.Controller.{RpcController, new_controller}
use mcoro_rpc.Rpc.Client.{
  RpcClient, Channels, CallEnd, call_returns, call_raises, Got, got, got_null, got_raises,
  get_or_create_channel, has_some,
}
use mcoro_rpc.Rpc.Client.Calls.{
  Answered, answered, raises, crashes, Work, retry_channel, retry_calls, call_channel, call_address,
  call_method_async, call_method_sync, controller_with, rounds_to, rounds_below,
}

-- What an end tells of the controller, which was `given` at the start.
abbrev pub Tells : {L H : Type 0} → RpcController → Answered × Work L H → Type 0
Tells given (answered b, w) = w.controller.failed ≡ not b
Tells given (raises, w) = w.controller ≡ given
Tells given (crashes, w) = Unit {0}

-- An end without a success: a null pointer is followed, or the answer is that the call failed.
abbrev pub Unanswered : {L H : Type 0} → Answered × Work L H → Type 0
Unanswered (a, w) = (a ≡ crashes) ⊎ ((a ≡ answered false) × (w.controller.failed ≡ true))

pub Got-cases : (g : Got) → ((c : ℕ) × (g ≡ got c)) ⊎ ((g ≡ got_null) ⊎ (g ≡ got_raises))
Got-cases (got c) = inl (c, refl)
Got-cases got_null = inr (inl refl)
Got-cases got_raises = inr (inr refl)

pub CallEnd-cases : (e : CallEnd) → (e ≡ call_returns) ⊎ ((what : Bytes) × (e ≡ call_raises what))
CallEnd-cases call_returns = inl refl
CallEnd-cases (call_raises what) = inr (what, refl)

Tells-of_Unanswered :
    {L H : Type 0} (given : RpcController) (a : Answered) (w : Work L H)
    → Unanswered (a, w)
    → Tells given (a, w)
Tells-of_Unanswered given (answered true) w (inl e) = cc
Tells-of_Unanswered given (answered true) w (inr (e, f)) = cc
Tells-of_Unanswered given (answered false) w (inl e) = cc
Tells-of_Unanswered given (answered false) w (inr (e, f)) = f
Tells-of_Unanswered given raises w (inl e) = cc
Tells-of_Unanswered given raises w (inr (e, f)) = cc
Tells-of_Unanswered given crashes w u = tt

module _ {L H C : Type 0} (io : Channels H C) (others : RpcClient L → H → RpcClient L × H)
    (stoi : Bytes → Option ℤ) (stoi_what : Bytes) (choose : List Bytes → L → Bytes × L) where
  retry_channel-Tells :
      (n : ℕ) (target : Bytes) (w : Work L H)
      → Tells w.controller (retry_channel io others stoi stoi_what choose n target w)
  unfolding retry_channel
  retry_channel-Tells zero target w = refl
  retry_channel-Tells (suc n) target w =
      let (channel, client, h) = get_or_create_channel io others stoi target w.client w.store in
      elim (Got-cases (get_or_create_channel io others stoi target w.client w.store).0) [
        | inl (c, e) ↦ rw (e, retry_channel) refl
        | inr (inl e) ↦
            rw (e, retry_channel)
              (retry_channel-Tells n target (record w { client = client; store = h }))
        | inr (inr e) ↦ rw (e, retry_channel) refl
      ]

  -- Retries of a call that has failed: its controller stays failed.
  retry_calls-Unanswered :
      (n : ℕ) (call : C) (channel : Option ℕ) (target : Bytes) (w : Work L H)
      → w.controller.failed ≡ true
      → Unanswered (retry_calls io others stoi stoi_what choose n call channel target w)
  unfolding retry_calls
  retry_calls-Unanswered zero call channel target w f = inr (refl, f)
  retry_calls-Unanswered (suc n) call none target w f = inl refl
  retry_calls-Unanswered (suc zero) call (some channel) target w f =
      let still = io.call_keeps_failed channel call w.controller w.store f in
      elim (CallEnd-cases (io.call channel call w.controller w.store).0) [
        | inr (what, e) ↦ rw (e, retry_calls) (inr (refl, refl))
        | inl e ↦ rw (e, still, retry_calls) (inr (refl, refl))
      ]
  retry_calls-Unanswered (suc (suc n)) call (some channel) target w f =
      let (end, ctrl, h) = io.call channel call w.controller w.store in
      let still : ctrl.failed ≡ true = io.call_keeps_failed channel call w.controller w.store f in
      let (next, client, h') = get_or_create_channel io others stoi target w.client h in
      let w2 : Work L H = record { client = client; controller = ctrl; store = h' } in
      elim (CallEnd-cases (io.call channel call w.controller w.store).0) [
        | inr (what, e) ↦ rw (e, retry_calls) (inr (refl, refl))
        | inl e ↦ elim (Got-cases (get_or_create_channel io others stoi target w.client h).0) [
          | inl (c, g) ↦
              rw (e, still, g, retry_calls)
                (retry_calls-Unanswered (suc n) call (some c) target w2 still)
          | inr (inl g) ↦
              rw (e, still, g, retry_calls)
                (retry_calls-Unanswered (suc n) call none target w2 still)
          | inr (inr g) ↦ rw (e, still, g, retry_calls) (inr (refl, refl))
        ]
      ]

  call_channel-Tells :
      (call : C) (channel : ℕ) (target : Bytes) (w : Work L H)
      → Tells w.controller (call_channel io others stoi stoi_what choose call channel target w)
  unfolding call_channel
  call_channel-Tells call channel target w =
      let (end, ctrl, h) = io.call channel call w.controller w.store in
      let w' : Work L H = record w { controller = ctrl; store = h } in
      let n = rounds_to w.client.options.max_retries in
      elim (CallEnd-cases (io.call channel call w.controller w.store).0) [
        | inr (what, e) ↦ rw (e, call_channel) refl
        | inl e ↦ elim (Bool-cases (io.call channel call w.controller w.store).1.failed) [
          | inr fine ↦ rw (e, fine, call_channel) refl
          | inl bad ↦
              let r = retry_calls io others stoi stoi_what choose n call (some channel) target w' in
              rw (e, call_channel)
                (subst (Tells w.controller) (sym (if_true _ _ bad)) (
                  Tells-of_Unanswered w.controller r.0 r.1
                    (retry_calls-Unanswered n call (some channel) target w' bad)))
        ]
      ]

  call_address-Tells :
      (call : C) (target : Bytes) (w : Work L H)
      → Tells w.controller (call_address io others stoi stoi_what choose call target w)
  unfolding call_address
  call_address-Tells call target w =
      let (channel, client, h) = get_or_create_channel io others stoi target w.client w.store in
      let w' : Work L H = record w { client = client; store = h } in
      elim (Got-cases (get_or_create_channel io others stoi target w.client w.store).0) [
        | inl (c, e) ↦ rw (e, call_address) (call_channel-Tells call c target w')
        | inr (inl e) ↦
            rw (e, call_address)
              (retry_channel-Tells (rounds_below client.options.max_retries) target w')
        | inr (inr e) ↦ rw (e, call_address) refl
      ]

  -- An answer tells the controller's state: true comes with a controller that is not failed, false
  -- with one that is. Where an exception leaves the call, the controller is as it was given.
  pub call_method_async-Tells :
      (call : C) (w : Work L H)
      → Tells w.controller (call_method_async io others stoi stoi_what choose call w)
  unfolding call_method_async
  call_method_async-Tells call w =
      let available = names_without w.client.instances w.client.failed_addrs in
      let (target, balancer) = choose available w.client.balancer in
      elim (Bool-cases (has_some w.client.instances)) [
        | inr e ↦ subst (Tells w.controller) (sym (if_false _ _ e)) refl
        | inl e ↦ elim (Bool-cases (has_some available)) [
          | inr f ↦ subst (Tells w.controller) (sym (if_true _ _ e ∙ if_false _ _ f)) refl
          | inl f ↦ subst (Tells w.controller) (sym (if_true _ _ e ∙ if_true _ _ f)) (
              call_address-Tells call target
                (record w { client = record w.client { balancer = balancer } }))
        ]
      ]

  -- Where an exception leaves the call, as it does for an address without a port number,
  -- `callMethodSync` answers true with no error text, though no call was made.
  pub call_method_sync_hides :
      (call : C) (timeout_ms : ℤ) (client : RpcClient L) (h : H)
      → (call_method_async io others stoi stoi_what choose call
          (record { client = client; controller = controller_with timeout_ms; store = h })).0
        ≡ raises
      → (after : RpcClient L) × (h' : H) × (call_method_sync io others stoi stoi_what choose call
            timeout_ms client h
          ≡ some (true, record after { last_error = [] }, h'))
  unfolding call_method_sync new_controller
  call_method_sync_hides call timeout_ms client h e =
      let w : Work L H = record {
        client = client;
        controller = controller_with timeout_ms;
        store = h;
      } in
      let r = call_method_async io others stoi stoi_what choose call w in
      let same : r.1.controller ≡ controller_with timeout_ms =
        rw e at (call_method_async-Tells call w) in
      let fine : r.1.controller.failed ≡ false =
        ap (λ c. c.failed) same ∙ ground (arith, new_controller) in
      (r.1.client, r.1.store, rw (e, fine, call_method_sync) refl)

  -- Where the first call on a channel leaves the controller failed, no retry is ever counted as a
  -- success: the answer is false, however the retries end, or a null pointer is followed.
  pub call_channel-Unanswered :
      (call : C) (channel : ℕ) (target : Bytes) (w : Work L H)
      → (io.call channel call w.controller w.store).1.failed ≡ true
      → Unanswered (call_channel io others stoi stoi_what choose call channel target w)
  unfolding call_channel
  call_channel-Unanswered call channel target w bad =
      let (end, ctrl, h) = io.call channel call w.controller w.store in
      let w' : Work L H = record w { controller = ctrl; store = h } in
      elim (CallEnd-cases (io.call channel call w.controller w.store).0) [
        | inr (what, e) ↦ rw (e, call_channel) (inr (refl, refl))
        | inl e ↦
            rw (e, call_channel)
              (subst Unanswered (sym (if_true _ _ bad)) (
                retry_calls-Unanswered (rounds_to w.client.options.max_retries) call (some channel)
                  target w' bad))
      ]
