-- ===== src/Tests/Clients.antt =====
-- A client whose channels never answer.
use mcoro_rpc.Common.{
  ℕ, suc, ◌≡◌, refl, List, [], ◌∷◌, some, true, false, Option, Bytes, codes, arith, ℤ, pos, get_or,
  same_refl,
}
use mcoro_rpc.Common.Names.{has_name}
use mcoro_rpc.Rpc.Controller.{new_controller, set_failed}
use mcoro_rpc.Rpc.Client.{
  Channels, RpcClient, call_returns, has_some, update_instances, drop_channels,
  get_or_create_channel, cached_channel, keep_channel, find_colon,
}
use mcoro_rpc.Rpc.Client.Cache.{Cached}
use mcoro_rpc.Rpc.Client.Calls.{Work, call_method_async}
use mcoro_rpc.Rpc.Client.Calls.Answers.{Tells, call_method_async-Tells}
use mcoro_rpc.Rpc.Client.Calls.Keeps.{updates, calls, client_run, client_run-Cached}

-- The store counts the calls.
abbrev pub deaf : Channels ℕ ℕ
deaf = record {
  is_connected = λ channel h. true;
  make = λ host port limit h. (suc h, h);
  connect = λ channel h. (record { ok = true; is_timeout = false }, h);
  close = λ channel h. h;
  call = λ channel c ctrl h. (call_returns, set_failed (codes "rpc timeout") ctrl, suc h);
  call_keeps_failed = λ channel c ctrl h e. refl;
}

abbrev pub port_80 : Bytes → Option ℤ
port_80 text = some (pos 80)

abbrev pub first : List Bytes → ℕ → Bytes × ℕ
first names balancer = (get_or names 0 [], balancer)

first_member :
    (names : List Bytes) (balancer : ℕ)
    → has_some names ≡ true
    → has_name (first names balancer).0 names ≡ true
first_member [] balancer h = cc
first_member (a ∷ l) balancer h = ground (arith, same_refl a)

abbrev pub client : RpcClient ℕ
client = record {
  options = record { zk_host = []; timeout_ms = pos 3000; max_retries = pos 3 };
  balancer = 0;
  service_name = [];
  instances = codes "a:b" ∷ [];
  channels = [];
  failed_addrs = [];
  connected = true;
  stop = false;
  has_callback = true;
  notified = [];
  last_error = [];
}

-- What others do while a call waits: nothing, a call that marks an address, or a change of the
-- instances.
abbrev alone : RpcClient ℕ → ℕ → RpcClient ℕ × ℕ
alone c h = (c, h)

abbrev marking : RpcClient ℕ → ℕ → RpcClient ℕ × ℕ
marking c h = (record c { failed_addrs = codes "a:b" ∷ c.failed_addrs }, suc h)

abbrev meanwhile : RpcClient ℕ → ℕ → RpcClient ℕ × ℕ
meanwhile c h = update_instances deaf (codes "c:d" ∷ []) c h

abbrev work : Work ℕ ℕ
work = record { client = client; controller = new_controller; store = 0 }

client_run-Cached_example :
    Cached
      (client_run deaf marking port_80 [] first
        (calls 0 new_controller ∷ updates (codes "c:d" ∷ []) ∷ calls 0 new_controller ∷ [])
        client
        0).0
client_run-Cached_example =
    client_run-Cached deaf marking port_80 [] first (λ target c h s. s)
      (calls 0 new_controller ∷ updates (codes "c:d" ∷ []) ∷ calls 0 new_controller ∷ []) client 0
      first_member tt

call_method_async-Tells_example :
    Tells new_controller (call_method_async deaf alone port_80 [] first 0 work)
call_method_async-Tells_example = call_method_async-Tells deaf alone port_80 [] first 0 work

-- A change of the instances behind which the channel of an address that is none any more is kept.
stale :
    let c = (get_or_create_channel deaf meanwhile port_80 (codes "a:b") client 0).1 in
    (c.instances ≡ codes "c:d" ∷ []) × (c.channels ≡ (codes "a:b", 1) ∷ [])
unfolding get_or_create_channel update_instances cached_channel keep_channel drop_channels
    find_colon
stale = (refl, refl)
