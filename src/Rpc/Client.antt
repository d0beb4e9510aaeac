-- ===== src/Rpc/Client.antt =====
-- The client over several instances: `RpcClient` of include/rpc/rpc_client.hpp and
-- src/rpc_client_impl.cc, here with its instances and its cache of channels. A channel is a shared
-- pointer: it is known by a number, and what the channels do to each other's callers goes through a
-- store that an interface gives. The mutexes make each locked part one step.
pub mod Calls
pub mod Cache
pub mod Discovering
pub mod Store
use mcoro_rpc.Common.{
  ℕ, ◌≡◌, suc, List, [], ◌∷◌, ◌++◌, Bool, true, false, ◌&&◌, ◌||◌, not, Option, none, some, Bytes,
  codes, same, ℤ, pos, ◌==◌, if◌then◌else◌, take, drop,
}
use mcoro_rpc.Common.Names.{
  has_name, add_name, remove_name, names_without, at_name, erase_name, put_name,
}
use mcoro_rpc.Rpc.Controller.{RpcController, set_failed}

-- How `wait_for(channel->connect(), …)` ends: `ok` and `is_timeout`.
pub record Connected : Type 0 where
  pub ok : Bool
  pub is_timeout : Bool

-- How a call of a channel ends: it returns, or an exception with a text leaves it.
pub data CallEnd : Type 0 where
  call_returns : CallEnd
  call_raises : Bytes → CallEnd

-- The channels of a store `H` under calls `C`: `isConnected`, `make_shared<RpcChannel>(host, port)`
-- with its time limit, `connect`, `close` and `CallMethodAsync`, which ends with the controller. A
-- call does not take a failure back that its controller came with.
pub record Channels (H C : Type 0) : Type 0 where
  pub is_connected : ℕ → H → Bool
  pub make : Bytes → ℤ → ℤ → H → ℕ × H
  pub connect : ℕ → H → Connected × H
  pub close : ℕ → H → H
  pub call : ℕ → C → RpcController → H → CallEnd × RpcController × H
  pub call_keeps_failed :
      (channel : ℕ) (c : C) (ctrl : RpcController) (h : H)
      → ctrl.failed ≡ true
      → (call channel c ctrl h).1.failed ≡ true

pub record RpcClientOptions : Type 0 where
  pub zk_host : Bytes
  pub timeout_ms : ℤ
  pub max_retries : ℤ

-- `L` is the state of the load balancer. `notified` lists what the status callback, where there is
-- one, was called with.
pub record RpcClient (L : Type 0) : Type 0 where
  pub options : RpcClientOptions
  pub balancer : L
  pub service_name : Bytes
  pub instances : List Bytes
  pub channels : List (Bytes × ℕ)
  pub failed_addrs : List Bytes
  pub connected : Bool
  pub stop : Bool
  pub has_callback : Bool
  pub notified : List (Bytes × Bool)
  pub last_error : Bytes

abbrev pub colon : ℕ
colon = 0x3a

-- `addr.find(':')`
unfoldable pub find_colon : Bytes → Option ℕ
find_colon [] = none
find_colon (c ∷ cs) =
    let later = find_colon cs in
    if c == colon then some 0 else elim later [ none ↦ none | some n ↦ some (suc n) ]

-- What `getOrCreateChannel` gives: a channel, a null pointer, or an exception.
pub data Got : Type 0 where
  got : ℕ → Got
  got_null got_raises : Got

-- `std::vector<std::string>` compared with `==`.
abbrev pub same_names : List Bytes → List Bytes → Bool
same_names [] [] = true
same_names [] (b ∷ bs) = false
same_names (a ∷ l) [] = false
same_names (a ∷ l) (b ∷ bs) = same a b && same_names l bs

-- Whether a list of names has some.
abbrev pub has_some : List Bytes → Bool
has_some [] = false
has_some (_ ∷ _) = true

module _ {H C : Type 0} (io : Channels H C) where
  -- The loop over the cache: a channel whose address is gone is closed and erased.
  unfoldable pub drop_channels : List Bytes → List (Bytes × ℕ) → H → List (Bytes × ℕ) × H
  drop_channels names [] h = ([], h)
  drop_channels names ((addr, channel) ∷ m) h =
      let (kept, h1) = drop_channels names m h in
      let (later, h2) = drop_channels names m (io.close channel h) in
      if has_name addr names then ((addr, channel) ∷ kept, h1) else (later, h2)

  pub close_all : List (Bytes × ℕ) → H → H
  close_all [] h = h
  close_all ((addr, channel) ∷ m) h = close_all m (io.close channel h)

  -- The discovery's own `close` is not part of it.
  pub any_connected : List (Bytes × ℕ) → H → Bool
  any_connected [] h = false
  any_connected ((addr, channel) ∷ m) h = io.is_connected channel h || any_connected m h

module _ {L : Type 0} where
  pub new_client : RpcClientOptions → L → RpcClient L
  new_client options balancer = record {
    options = options;
    balancer = balancer;
    service_name = [];
    instances = [];
    channels = [];
    failed_addrs = [];
    connected = false;
    stop = false;
    has_callback = false;
    notified = [];
    last_error = [];
  }

  abbrev pub mark_unavailable : Bytes → RpcClient L → RpcClient L
  mark_unavailable addr client = record client { failed_addrs = add_name addr client.failed_addrs }

  abbrev pub mark_available : Bytes → RpcClient L → RpcClient L
  mark_available addr client = record client { failed_addrs = remove_name addr client.failed_addrs }

  abbrev pub notify : Bool → RpcClient L → RpcClient L
  notify alive client = record client {
    notified =
        if client.has_callback
        then client.notified ++ ((client.service_name, alive) ∷ [])
        else client.notified;
  }

  -- The first locked part of `getOrCreateChannel`: a channel of the cache that is connected.
  unfoldable pub cached_channel : {H C : Type 0} → Channels H C → Bytes → RpcClient L → H → Option ℕ
  cached_channel io addr client h = elim (at_name addr client.channels) [
    | none ↦ none
    | some channel ↦ if io.is_connected channel h then some channel else none
  ]

  -- The second locked part.
  unfoldable pub keep_channel : Bytes → ℕ → RpcClient L → RpcClient L
  keep_channel addr channel client = record client {
    channels = put_name addr channel client.channels;
  }

  module _ {H C : Type 0} (io : Channels H C) (others : RpcClient L → H → RpcClient L × H)
      (stoi : Bytes → Option ℤ) where
    -- `stoi` is `std::stoi`, with `none` for its exception. Between the locked parts it awaits the
    -- connection; `others` is what other coroutines do meanwhile to the client and the store, which
    -- may also count. The channel is kept also where its connecting failed in time.
    unfoldable pub get_or_create_channel : Bytes → RpcClient L → H → Got × RpcClient L × H
    get_or_create_channel addr client h =
        let create : Got × RpcClient L × H = elim (find_colon addr) [
          | none ↦ (got_null, client, h)
          | some colon_pos ↦ elim (stoi (drop (suc colon_pos) addr)) [
            | none ↦ (got_raises, client, h)
            | some port ↦
                let (channel, h1) =
                  io.make (take colon_pos addr) port client.options.timeout_ms h in
                let (con_result, h2) = io.connect channel h1 in
                let (client', h3) = others client h2 in
                let kept = keep_channel addr channel client' in
                if con_result.is_timeout then (got_null, client', h3) else (got channel, kept, h3)
          ]
        ] in
        elim (cached_channel io addr client h) [
          | none ↦ create
          | some channel ↦ (got channel, client, h)
        ]

  module _ {H C : Type 0} (io : Channels H C) where
    unfoldable pub update_instances : List Bytes → RpcClient L → H → RpcClient L × H
    update_instances names client h =
        let (channels, h') = drop_channels io names client.channels h in
        let updated : RpcClient L = record client {
          instances = names;
          channels = channels;
          failed_addrs = [];
        } in
        let told = (notify (has_some names) updated).notified in
        let unchanged = same_names names client.instances in
        (record updated { notified = if unchanged then client.notified else told }, h')

    -- The address as its `toString` gives it.
    unfoldable pub connect_direct : Bytes → RpcClient L → H → RpcClient L × H
    connect_direct addr client h =
        let (updated, h') = update_instances (addr ∷ []) (record client { service_name = [] }) h in
        (record updated { connected = true }, h')

    -- The watcher that `connectWithDiscovery` sets, called with new instances.
    unfoldable pub on_instances : List Bytes → RpcClient L → H → RpcClient L × H
    on_instances names client h =
        let (updated, h') = update_instances names client h in (notify (has_some names) updated, h')

    unfoldable pub disconnect : RpcClient L → H → RpcClient L × H
    unfolding close_all
    disconnect client h = (
      record client { stop = true; connected = false; channels = []; instances = [] },
      close_all io client.channels h,
    )

    unfoldable pub is_connected : RpcClient L → H → Bool
    unfolding any_connected
    is_connected client h =
        client.connected && (has_some client.instances && any_connected io client.channels h)
