-- ===== src/Rpc/Client/Cache.antt =====
-- The cache of channels beside the list of instances, and the address that a call is made to.
use mcoro_rpc.Common.{
  suc, take, drop, Option-cases, ℕ, ◌≡◌, refl, if◌then◌else◌, inl, inr, ap, List, [], ◌∷◌, true,
  Option, Bytes, ℤ, Bool-cases,
}
use mcoro_rpc.Common.Names.{has_name, KeysIn, erase_name-KeysIn}
use mcoro_rpc.Rpc.Client.{
  cached_channel, keep_channel, find_colon, RpcClient, Channels, get_or_create_channel,
  drop_channels, update_instances,
}

-- Each cached channel belongs to an instance.
abbrev pub Cached : {L : Type 0} → RpcClient L → Type 0
Cached client = KeysIn client.instances client.channels

-- What is left of a cache when only these instances are kept.
abbrev pub kept_of : List Bytes → List (Bytes × ℕ) → List (Bytes × ℕ)
kept_of names [] = []
kept_of names ((addr, channel) ∷ m) =
    let rest = kept_of names m in if has_name addr names then (addr, channel) ∷ rest else rest

module _ {H C : Type 0} (io : Channels H C) where
  pub drop_channels_lem :
      (names : List Bytes) (m : List (Bytes × ℕ)) (h : H)
      → (drop_channels io names m h).0 ≡ kept_of names m
  unfolding drop_channels
  drop_channels_lem names [] h = refl
  drop_channels_lem names ((addr, channel) ∷ m) h = elim (Bool-cases (has_name addr names)) [
    | inl e ↦ rw (e, drop_channels) (ap (λ l. (addr, channel) ∷ l) (drop_channels_lem names m h))
    | inr e ↦ rw (e, drop_channels) (drop_channels_lem names m (io.close channel h))
  ]

  drop_channels-KeysIn :
      (names : List Bytes) (m : List (Bytes × ℕ)) (h : H)
      → KeysIn names (drop_channels io names m h).0
  unfolding drop_channels
  drop_channels-KeysIn names [] h = tt
  drop_channels-KeysIn names ((addr, channel) ∷ m) h = elim (Bool-cases (has_name addr names)) [
    | inl e ↦ rw (e, drop_channels) (e, drop_channels-KeysIn names m h)
    | inr e ↦ rw (e, drop_channels) (drop_channels-KeysIn names m (io.close channel h))
  ]

module _ {L H C : Type 0} (io : Channels H C) where
  pub update_instances-Cached :
      (names : List Bytes) (client : RpcClient L) (h : H)
      → Cached (update_instances io names client h).0
  unfolding update_instances
  update_instances-Cached names client h = drop_channels-KeysIn io names client.channels h

-- The cache is within the instances, and the address is one of them.
abbrev pub Sound : {L : Type 0} → Bytes → RpcClient L → Type 0
Sound target client = (has_name target client.instances ≡ true) × Cached client

-- What other coroutines do while a call waits for its connection keeps the cache within the
-- instances, and the address of the call one of them.
abbrev pub Spares : {L H : Type 0} → (RpcClient L → H → RpcClient L × H) → Type 0
Spares {L} {H} others =
    (target : Bytes) (client : RpcClient L) (h : H)
    → Sound target client
    → Sound target (others client h).0

keep_channel-Sound :
    {L : Type 0} (addr : Bytes) (channel : ℕ) (client : RpcClient L)
    → Sound addr client
    → Sound addr (keep_channel addr channel client)
unfolding keep_channel
keep_channel-Sound addr channel client s =
    (s.0, (s.0, erase_name-KeysIn addr client.instances client.channels s.1))

module _ {L H C : Type 0} (io : Channels H C) (others : RpcClient L → H → RpcClient L × H)
    (stoi : Bytes → Option ℤ) where
  pub get_or_create_channel-Sound :
      (addr : Bytes) (client : RpcClient L) (h : H)
      → Spares others
      → Sound addr client
      → Sound addr (get_or_create_channel io others stoi addr client h).1
  unfolding get_or_create_channel
  get_or_create_channel-Sound addr client h spares s =
      elim (Option-cases (cached_channel io addr client h)) [
        | inr (channel, e) ↦ rw (e, get_or_create_channel) s
        | inl e ↦ elim (Option-cases (find_colon addr)) [
          | inl f ↦ rw (e, f, get_or_create_channel) s
          | inr (colon_pos, f) ↦ elim (Option-cases (stoi (drop (suc colon_pos) addr))) [
            | inl g ↦ rw (e, f, g, get_or_create_channel) s
            | inr (port, g) ↦
                let (channel, h1) =
                  io.make (take colon_pos addr) port client.options.timeout_ms h in
                let (con_result, h2) = io.connect channel h1 in
                let (client', h3) = others client h2 in
                let s' = spares addr client h2 s in
                elim (Bool-cases con_result.is_timeout) [
                  | inl late ↦ rw (e, f, g, late, get_or_create_channel) s'
                  | inr prompt ↦
                      rw (e, f, g, prompt, get_or_create_channel)
                        (keep_channel-Sound addr channel client' s')
                ]
          ]
        ]
      ]
