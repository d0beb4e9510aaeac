-- ===== src/Tests/Zk.antt =====
-- The pending operations of a ZooKeeper client.
use mcoro_rpc.Common.{zero, ◌≡◌, refl, [], ◌∷◌, some, none, true, false, codes, pos}
use mcoro_rpc.ZkClient.{
  ZkClient, ZkResult, waits, begin_op, zoo_create, zoo_connected, zok, zclosing, new_zk_client,
  complete_op, finish_op, minus_one, on_session, start, close, result_of,
}
use mcoro_rpc.ZkClient.Pending.{IsTracked, finish_op_of_begin_op}
use mcoro_rpc.ZkClient.Runs.{begins, starts, zk_step, zk_run, zk_run-IsTracked}
use mcoro_rpc.ZkClient.Restart.{start-close}

-- A client that is connected.
abbrev connected_client : ZkClient
connected_client = record {
  has_handle = true;
  connected = true;
  heap = [];
  next_op = 0;
  pending_ops = [];
  conn_result = result_of zok;
  conn_notified = false;
  data_watchers = [];
  children_watchers = [];
}

-- The same with the creation of a node begun.
abbrev creating : ZkClient
creating = record connected_client {
  heap =
      (
        0,
        record {
          op_type = zoo_create;
          path = codes "/rpc";
          data_text = [];
          flags = pos zero;
          version = minus_one;
          result = result_of zok;
          ready = false;
        },
      )
      ∷ [];
  next_op = 1;
  pending_ops = 0 ∷ [];
}

abbrev created : ZkResult
created = record { rc = zok; data_text = []; path = codes "/rpc" }

finish_op_of_begin_op_example :
    (c1 c2 : ZkClient) × (begin_op zoo_create
        (codes "/rpc")
        []
        (pos zero)
        minus_one
        zok
        connected_client
      ≡ (waits 0, c1))
    × (finish_op 0 c1 ≡ some (none, c1))
    × (complete_op 0 created c1 ≡ some c2)
    × (finish_op 0 c2 ≡ some (some created, record connected_client { next_op = 1 }))
finish_op_of_begin_op_example =
    finish_op_of_begin_op zoo_create (codes "/rpc") [] (pos zero) minus_one created connected_client
      record { same = refl; below = tt } refl

zk_run-IsTracked_example : IsTracked creating
unfolding zk_run zk_step new_zk_client begin_op start on_session
zk_run-IsTracked_example =
    zk_run-IsTracked
      (starts true (zoo_connected ∷ [])
        ∷ begins zoo_create (codes "/rpc") [] (pos zero) minus_one zok
        ∷ [])
      creating refl

start-close_example :
    let answered = start true (zoo_connected ∷ []) (close creating) in
    (answered.0 ≡ record { rc = zclosing; data_text = []; path = codes "closing" })
    × (answered.1.has_handle ≡ false)
    × (answered.1.connected ≡ false)
start-close_example = start-close (zoo_connected ∷ []) creating refl refl
