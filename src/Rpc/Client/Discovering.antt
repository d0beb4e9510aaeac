-- ===== src/Rpc/Client/Discovering.antt =====
-- The client of a service that is found through ZooKeeper: `connectWithDiscovery` of
-- src/rpc_client_impl.cc, and the connection of `ServiceDiscovery` of src/rpc_provider.cc. What
-- `getChildren` answers, each time that it is asked, is an argument.
use mcoro_rpc.Common.{
  ℕ, zero, suc, ◌≡◌, refl, List, [], ◌∷◌, ◌++◌, Bool, true, false, Option, none, some, Bytes,
  if◌then◌else◌, replicate, Bool-cases, inl, inr, if_true,
}
use mcoro_rpc.ZkClient.{
  ZkClient, ZkResult, Rc, zok, znonode, is_ok, SessionState, set_children_watcher, new_zk_client,
}
use mcoro_rpc.ZkClient
use mcoro_rpc.Rpc.Registration.{service_path}
use mcoro_rpc.Rpc.Discovery.{join, AllNames, get_instances, get_instances-join}
use mcoro_rpc.Rpc.Client.{RpcClient, Channels, update_instances, has_some}
use mcoro_rpc.Rpc.Client.Cache.{kept_of, drop_channels_lem, Cached, update_instances-Cached}

-- `zk` is none behind `close`; the watcher of a service is known by a number.
pub record ServiceDiscovery : Type 0 where
  pub zk : Option ZkClient
  pub connected : Bool
  pub watcher : Option ℕ

unfoldable pub new_discovery : ServiceDiscovery
new_discovery = record { zk = some new_zk_client; connected = false; watcher = none }

-- `connect`; `none` is a null pointer followed.
unfoldable pub connect : Bool → List SessionState → ServiceDiscovery → Option ServiceDiscovery
connect made events d = if d.connected then some d else elim d.zk [
  | none ↦ none
  | some zk ↦
      let (result, zk') = ZkClient.start made events zk in
      some (record d { zk = some zk'; connected = is_ok result.rc })
]

-- `setServiceWatcher`. The task of `getChildren` that it makes is not awaited, and never runs.
unfoldable pub set_service_watcher : Bytes → ℕ → ServiceDiscovery → ServiceDiscovery
set_service_watcher service_name callback d = elim d.zk [
  | none ↦ d
  | some zk ↦
      if d.connected
      then record d {
        watcher = some callback;
        zk = some (set_children_watcher (service_path service_name) callback zk);
      }
      else d
]

unfoldable pub close : ServiceDiscovery → ServiceDiscovery
close d = record d { zk = none; connected = false }

-- The answers up to the first that is not ZNONODE; `none` while it polls.
pub poll_children : List ZkResult → Option ZkResult
poll_children [] = none
poll_children (r ∷ rs) = let later = poll_children rs in elim r.rc [ znonode ↦ later | _ ↦ some r ]

module _ {L H C : Type 0} (io : Channels H C) where
  -- `connectWithDiscovery`, with the number of the callback that it sets.
  pub connect_with_discovery :
      Bool
      → List SessionState
      → Bytes
      → ℕ
      → List ZkResult
      → ServiceDiscovery
      → RpcClient L
      → H
      → Option (ServiceDiscovery × RpcClient L × H)
  connect_with_discovery made events service_name callback answers d client h =
      elim (connect made events d) [
        | none ↦ none
        | some d1 ↦
            let d2 = set_service_watcher service_name callback d1 in
            let named : RpcClient L = record client { service_name = service_name } in
            elim d1.zk [
              | none ↦ none
              | some _ ↦ elim (poll_children answers) [
                | none ↦ none
                | some result ↦
                    let names = get_instances true (some result.data_text) in
                    let (updated, h') = update_instances io names named h in
                    let found : RpcClient L × H =
                      if is_ok result.rc then (updated, h') else (named, h) in
                    some (d2, record found.0 { connected = has_some found.0.instances }, found.1)
              ]
            ]
      ]

connect_total :
    (made : Bool) (events : List SessionState) (d : ServiceDiscovery) (zk : ZkClient)
    → d.zk ≡ some zk
    → (d' : ServiceDiscovery) × (zk' : ZkClient) × (connect made events d ≡ some d')
      × (d'.zk ≡ some zk')
unfolding connect
connect_total made events d zk here = elim (Bool-cases d.connected) [
  | inl on ↦ (d, zk, if_true _ _ on, here)
  | inr off ↦
      let (result, zk') = ZkClient.start made events zk in
      (
        record d { zk = some zk'; connected = is_ok result.rc },
        zk',
        rw (off, here, connect) refl,
        refl,
      )
]

-- The answer where the node is not there yet.
abbrev pub no_node : ZkResult
no_node = record { rc = znonode; data_text = []; path = [] }

poll_none : (n : ℕ) → poll_children (replicate n no_node) ≡ none
unfolding poll_children
poll_none zero = refl
poll_none (suc n) = poll_none n

poll_ok :
    (n : ℕ) (text path : Bytes) (later : List ZkResult)
    → let r : ZkResult = record { rc = zok; data_text = text; path = path } in
      poll_children (replicate n no_node ++ (r ∷ later)) ≡ some r
unfolding poll_children
poll_ok zero text path later = refl
poll_ok (suc n) text path later = poll_ok n text path later

module _ {L H C : Type 0} (io : Channels H C) where
  -- A client that connects to a service waits as long as the service has no node, however often it
  -- asks. When the node is there, its instances are the names of the node's children, in their
  -- order, it counts as connected if there are any, and of the channels that it had it keeps just
  -- those of these instances. The names have characters and no comma.
  pub connect_with_discovery_lem :
      (made : Bool) (events : List SessionState) (service_name path : Bytes) (callback n : ℕ)
      (names : List Bytes) (later : List ZkResult) (d : ServiceDiscovery) (zk : ZkClient)
      (client : RpcClient L) (h : H)
      → d.zk ≡ some zk
      → AllNames names
      → let answer : ZkResult = record { rc = zok; data_text = join names; path = path } in
        let run = λ (answers : List ZkResult).
          connect_with_discovery io made events service_name callback answers d client h in
        (d' : ServiceDiscovery) × (client' : RpcClient L) × (h' : H) × (run (replicate n no_node)
          ≡ none)
        × (run (replicate n no_node ++ (answer ∷ later)) ≡ some (d', client', h'))
        × (client'.service_name ≡ service_name)
        × (client'.instances ≡ names)
        × (client'.connected ≡ has_some names)
        × (client'.channels ≡ kept_of names client.channels)
        × Cached client'
  unfolding connect_with_discovery update_instances
  connect_with_discovery_lem made events service_name path callback n names later d zk client h here
        plain =
      let (d1, zk1, e, there) = connect_total made events d zk here in
      let named : RpcClient L = record client { service_name = service_name } in
      let (updated, h') = update_instances io names named h in
      (
        set_service_watcher service_name callback d1,
        record updated { connected = has_some names },
        h',
        rw (e, there, poll_none n, connect_with_discovery) refl,
        rw
            (
              e,
              there,
              poll_ok n (join names) path later,
              get_instances-join names plain,
              connect_with_discovery,
            )
            refl,
        refl,
        refl,
        refl,
        drop_channels_lem io names client.channels h,
        update_instances-Cached io names named h,
      )
