-- ===== src/Rpc/Client/Calls/Keeps.antt =====
-- What calls leave of the client: the cache stays within the instances, and only chosen addresses are
-- marked.
use mcoro_rpc.Common.{
  ℕ, zero, suc, ◌≡◌, inl, inr, sym, ◌∙◌, subst, List, [], ◌∷◌, true, Option, none, some, Bytes, ℤ,
  arith, Bool-cases, if_true, if_false,
}
use mcoro_rpc.Common.Names.{names_without, has_name, has_name-names_without}
use mcoro_rpc.Rpc.Controller.{RpcController}
use mcoro_rpc.Rpc.Client.{
  RpcClient, Channels, get_or_create_channel, has_some, on_instances, connect_direct, disconnect,
}
use mcoro_rpc.Rpc.Client.Cache.{
  Cached, Sound, Spares, update_instances-Cached, get_or_create_channel-Sound,
}
use mcoro_rpc.Rpc.Client.Calls.{
  Answered, Work, retry_channel, retry_calls, call_channel, call_address, call_method_async,
  rounds_to, rounds_below,
}
use mcoro_rpc.Rpc.Client.Calls.Answers.{Got-cases, CallEnd-cases}

module _ {L H C : Type 0} (io : Channels H C) (others : RpcClient L → H → RpcClient L × H)
    (stoi : Bytes → Option ℤ) (stoi_what : Bytes) (choose : List Bytes → L → Bytes × L)
    (spares : Spares others) where
  retry_channel-Sound :
      (n : ℕ) (target : Bytes) (w : Work L H)
      → Sound target w.client
      → Sound target (retry_channel io others stoi stoi_what choose n target w).1.client
  unfolding retry_channel
  retry_channel-Sound zero target w s = s
  retry_channel-Sound (suc n) target w s =
      let (channel, client, h) = get_or_create_channel io others stoi target w.client w.store in
      let s' = get_or_create_channel-Sound io others stoi target w.client w.store spares s in
      elim (Got-cases (get_or_create_channel io others stoi target w.client w.store).0) [
        | inl (c, e) ↦ rw (e, retry_channel) s'
        | inr (inl e) ↦
            rw (e, retry_channel)
              (retry_channel-Sound n target (record w { client = client; store = h }) s')
        | inr (inr e) ↦ rw (e, retry_channel) s'
      ]

  retry_calls-Sound :
      (n : ℕ) (call : C) (channel : Option ℕ) (target : Bytes) (w : Work L H)
      → Sound target w.client
      → Sound target (retry_calls io others stoi stoi_what choose n call channel target w).1.client
  unfolding retry_calls
  retry_calls-Sound zero call channel target w s = s
  retry_calls-Sound (suc n) call none target w s = s
  retry_calls-Sound (suc zero) call (some channel) target w s =
      elim (CallEnd-cases (io.call channel call w.controller w.store).0) [
        | inr (what, e) ↦ rw (e, retry_calls) s
        | inl e ↦ elim (Bool-cases (io.call channel call w.controller w.store).1.failed) [
          | inl f ↦ rw (e, f, retry_calls) s
          | inr f ↦ rw (e, f, retry_calls) s
        ]
      ]
  retry_calls-Sound (suc (suc n)) call (some channel) target w s =
      let (end, ctrl, h) = io.call channel call w.controller w.store in
      let (next, client, h') = get_or_create_channel io others stoi target w.client h in
      let s' = get_or_create_channel-Sound io others stoi target w.client h spares s in
      let w2 : Work L H = record { client = client; controller = ctrl; store = h' } in
      elim (CallEnd-cases (io.call channel call w.controller w.store).0) [
        | inr (what, e) ↦ rw (e, retry_calls) s
        | inl e ↦ elim (Bool-cases (io.call channel call w.controller w.store).1.failed) [
          | inr f ↦ rw (e, f, retry_calls) s
          | inl f ↦ elim (Got-cases (get_or_create_channel io others stoi target w.client h).0) [
            | inl (c, g) ↦
                rw (e, f, g, retry_calls) (retry_calls-Sound (suc n) call (some c) target w2 s')
            | inr (inl g) ↦
                rw (e, f, g, retry_calls) (retry_calls-Sound (suc n) call none target w2 s')
            | inr (inr g) ↦ rw (e, f, g, retry_calls) s'
          ]
        ]
      ]

  call_channel-Sound :
      (call : C) (channel : ℕ) (target : Bytes) (w : Work L H)
      → Sound target w.client
      → Sound target (call_channel io others stoi stoi_what choose call channel target w).1.client
  unfolding call_channel
  call_channel-Sound call channel target w s =
      let (end, ctrl, h) = io.call channel call w.controller w.store in
      let w' : Work L H = record w { controller = ctrl; store = h } in
      let n = rounds_to w.client.options.max_retries in
      elim (CallEnd-cases (io.call channel call w.controller w.store).0) [
        | inr (what, e) ↦ rw (e, call_channel) s
        | inl e ↦ elim (Bool-cases (io.call channel call w.controller w.store).1.failed) [
          | inr f ↦ rw (e, f, call_channel) s
          | inl f ↦
              rw (e, call_channel)
                (subst (λ (r : Answered × Work L H). Sound target r.1.client) (sym (if_true _ _ f))
                  (retry_calls-Sound n call (some channel) target w' s))
        ]
      ]

  call_address-Sound :
      (call : C) (target : Bytes) (w : Work L H)
      → Sound target w.client
      → Sound target (call_address io others stoi stoi_what choose call target w).1.client
  unfolding call_address
  call_address-Sound call target w s =
      let (channel, client, h) = get_or_create_channel io others stoi target w.client w.store in
      let w' : Work L H = record w { client = client; store = h } in
      let s' = get_or_create_channel-Sound io others stoi target w.client w.store spares s in
      elim (Got-cases (get_or_create_channel io others stoi target w.client w.store).0) [
        | inl (c, e) ↦ rw (e, call_address) (call_channel-Sound call c target w' s')
        | inr (inl e) ↦
            rw (e, call_address)
              (retry_channel-Sound (rounds_below client.options.max_retries) target w' s')
        | inr (inr e) ↦ rw (e, call_address) s'
      ]

  -- A call leaves the cache within the instances, where the load balancer chooses one of the
  -- addresses that it is given.
  pub call_method_async-Cached :
      (call : C) (w : Work L H)
      → ((names : List Bytes) (balancer : L)
          → has_some names ≡ true
          → has_name (choose names balancer).0 names ≡ true)
      → Cached w.client
      → Cached (call_method_async io others stoi stoi_what choose call w).1.client
  unfolding call_method_async
  call_method_async-Cached call w member k =
      let available = names_without w.client.instances w.client.failed_addrs in
      let (target, balancer) = choose available w.client.balancer in
      elim (Bool-cases (has_some w.client.instances)) [
        | inr e ↦ subst (λ (r : Answered × Work L H). Cached r.1.client) (sym (if_false _ _ e)) k
        | inl e ↦ elim (Bool-cases (has_some available)) [
          | inr f ↦
              subst (λ (r : Answered × Work L H). Cached r.1.client)
                (sym (if_true _ _ e ∙ if_false _ _ f)) k
          | inl f ↦
              let known : has_name target w.client.instances ≡ true = ground (
                arith,
                member available w.client.balancer f,
                has_name-names_without target w.client.instances w.client.failed_addrs,
              ) in
              subst (λ (r : Answered × Work L H). Cached r.1.client)
                (sym (if_true _ _ e ∙ if_true _ _ f))
                (call_address-Sound call target
                  (record w { client = record w.client { balancer = balancer } }) (known, k)).1
        ]
      ]

-- What is done to a client, one operation after another.
pub data ClientOp (C : Type 0) : Type 0 where
  updates : List Bytes → ClientOp C
  directs : Bytes → ClientOp C
  disconnects : ClientOp C
  calls : C → RpcController → ClientOp C

module _ {L H C : Type 0} (io : Channels H C) (others : RpcClient L → H → RpcClient L × H)
    (stoi : Bytes → Option ℤ) (stoi_what : Bytes) (choose : List Bytes → L → Bytes × L) where
  unfoldable pub client_step : ClientOp C → RpcClient L → H → RpcClient L × H
  client_step (updates names) client h = on_instances io names client h
  client_step (directs addr) client h = connect_direct io addr client h
  client_step disconnects client h = disconnect io client h
  client_step (calls call ctrl) client h =
      let (_, w) =
        call_method_async io others stoi stoi_what choose call
          (record { client = client; controller = ctrl; store = h }) in
      (w.client, w.store)

  unfoldable pub client_run : List (ClientOp C) → RpcClient L → H → RpcClient L × H
  client_run [] client h = (client, h)
  client_run (o ∷ os) client h =
      let (client', h') = client_step o client h in client_run os client' h'

module _ {L H C : Type 0} (io : Channels H C) (others : RpcClient L → H → RpcClient L × H)
    (stoi : Bytes → Option ℤ) (stoi_what : Bytes) (choose : List Bytes → L → Bytes × L)
    (spares : Spares others) where
  client_step-Cached :
      (o : ClientOp C) (client : RpcClient L) (h : H)
      → ((names : List Bytes) (balancer : L)
          → has_some names ≡ true
          → has_name (choose names balancer).0 names ≡ true)
      → Cached client
      → Cached (client_step io others stoi stoi_what choose o client h).0
  unfolding client_step on_instances connect_direct disconnect
  client_step-Cached (updates names) client h member k = update_instances-Cached io names client h
  client_step-Cached (directs addr) client h member k =
      update_instances-Cached io (addr ∷ []) (record client { service_name = [] }) h
  client_step-Cached disconnects client h member k = tt
  client_step-Cached (calls call ctrl) client h member k =
      call_method_async-Cached io others stoi stoi_what choose spares call
        (record { client = client; controller = ctrl; store = h }) member k

  -- From a client that caches channels of its instances only, as a new one does, whatever is done to
  -- it, operation after operation, each cached channel belongs to one of the instances, where the
  -- load balancer chooses one of the addresses that it is given, and where what other coroutines do
  -- while a call waits for its connection keeps the cache within the instances and the address of the
  -- call one of them; while a call waits for an answer, nothing else is done.
  pub client_run-Cached :
      (os : List (ClientOp C)) (client : RpcClient L) (h : H)
      → ((names : List Bytes) (balancer : L)
          → has_some names ≡ true
          → has_name (choose names balancer).0 names ≡ true)
      → Cached client
      → Cached (client_run io others stoi stoi_what choose os client h).0
  unfolding client_run
  client_run-Cached [] client h member k = k
  client_run-Cached (o ∷ os) client h member k =
      let (client', h') = client_step io others stoi stoi_what choose o client h in
      client_run-Cached os client' h' member (client_step-Cached o client h member k)
