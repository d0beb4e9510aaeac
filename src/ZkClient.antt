-- ===== src/ZkClient.antt =====
-- The client of ZooKeeper: src/zkclient.cc and include/rpc/zkclient.hpp. The ZooKeeper library is not
-- part of the repository: what its calls return is an argument, and what it calls back comes as a
-- step. A pending operation is an object on the heap, known by a number.
pub mod Pending
pub mod Runs
pub mod Restart
use mcoro_rpc.Common.{
  ℕ, ◌+◌, List, [], ◌∷◌, ◌++◌, Bool, true, false, Option, none, some, Bytes, codes, ◌==◌,
  if◌then◌else◌, ℤ, pos, negsuc, zero,
}
use mcoro_rpc.Common.Dict.{lookup, erase, remove}
use mcoro_rpc.Common.Names.{at_name, put_name}
use mcoro_rpc.Rpc.Discovery.{join}

-- The library's return codes that the code names, and the others.
pub data Rc : Type 0 where
  zok zinvalidstate zconnectionloss zsessionexpired znoauth zclosing zsystemerror znonode
        znodeexists :
      Rc
  zother : ℤ → Rc

pub record ZkResult : Type 0 where
  pub rc : Rc
  pub data_text : Bytes
  pub path : Bytes

-- `ok`
abbrev pub is_ok : Rc → Bool
is_ok zok = true
is_ok _ = false

pub data OpType : Type 0 where
  zoo_create zoo_getdata zoo_setdata zoo_delete zoo_getchildren : OpType

pub record PendingOp : Type 0 where
  pub op_type : OpType
  pub path : Bytes
  pub data_text : Bytes
  pub flags : ℤ
  pub version : ℤ
  pub result : ZkResult
  pub ready : Bool

-- `heap` holds the operations that are allocated, in the order of their allocation, and `next_op` is
-- the next to allocate. A watcher's callback is known by a number.
pub record ZkClient : Type 0 where
  pub has_handle : Bool
  pub connected : Bool
  pub heap : List (ℕ × PendingOp)
  pub next_op : ℕ
  pub pending_ops : List ℕ
  pub conn_result : ZkResult
  pub conn_notified : Bool
  pub data_watchers : List (Bytes × ℕ)
  pub children_watchers : List (Bytes × ℕ)

abbrev pub result_of : Rc → ZkResult
result_of rc = record { rc = rc; data_text = []; path = [] }

unfoldable pub new_zk_client : ZkClient
new_zk_client = record {
  has_handle = false;
  connected = false;
  heap = [];
  next_op = 0;
  pending_ops = [];
  conn_result = result_of zok;
  conn_notified = false;
  data_watchers = [];
  children_watchers = [];
}

-- An operation of the heap written over.
abbrev pub set_op : ℕ → PendingOp → List (ℕ × PendingOp) → List (ℕ × PendingOp)
set_op n op [] = []
set_op n op ((m, old) ∷ rest) =
    let later = set_op n op rest in if m == n then (m, op) ∷ later else (m, old) ∷ later

abbrev pub delete_ops : List ℕ → List (ℕ × PendingOp) → List (ℕ × PendingOp)
delete_ops [] heap = heap
delete_ops (n ∷ ns) heap = delete_ops ns (erase n heap)

-- How an operation begins: it is over, or its caller waits for the operation of this number.
pub data Begun : Type 0 where
  over : ZkResult → Begun
  waits : ℕ → Begun

-- `new PendingOp{…}` and its entry in the list.
abbrev pub push_op : PendingOp → ZkClient → ZkClient
push_op op c = record c {
  heap = c.heap ++ ((c.next_op, op) ∷ []);
  next_op = c.next_op + 1;
  pending_ops = c.pending_ops ++ (c.next_op ∷ []);
}

-- The entry is removed, and the object deleted.
abbrev pub drop_op : ℕ → ZkClient → ZkClient
drop_op n c = record c { heap = erase n c.heap; pending_ops = remove n c.pending_ops }

-- The part that `create`, `getData`, `setData`, `deleteNode` and `getChildren` share before they
-- wait; `rc` is what the library's call returns.
unfoldable pub begin_op : OpType → Bytes → Bytes → ℤ → ℤ → Rc → ZkClient → Begun × ZkClient
begin_op op_type path data_text flags version rc c =
    let op : PendingOp = record {
      op_type = op_type;
      path = path;
      data_text = data_text;
      flags = flags;
      version = version;
      result = result_of zok;
      ready = false;
    } in
    let pushed = push_op op c in
    let invalid : ZkResult = record {
      rc = zinvalidstate;
      data_text = [];
      path = codes "not connected";
    } in
    if c.connected
    then (if is_ok rc
        then (waits c.next_op, pushed)
        else (over (result_of rc), drop_op c.next_op pushed))
    else (over invalid, c)

abbrev pub minus_one : ℤ
minus_one = negsuc zero

abbrev pub create : Bytes → Bytes → ℤ → Rc → ZkClient → Begun × ZkClient
create path data_text flags rc c = begin_op zoo_create path data_text flags minus_one rc c

abbrev pub get_data : Bytes → Rc → ZkClient → Begun × ZkClient
get_data path rc c = begin_op zoo_getdata path [] (pos zero) minus_one rc c

abbrev pub set_data : Bytes → Bytes → ℤ → Rc → ZkClient → Begun × ZkClient
set_data path data_text version rc c = begin_op zoo_setdata path data_text (pos zero) version rc c

abbrev pub delete_node : Bytes → ℤ → Rc → ZkClient → Begun × ZkClient
delete_node path version rc c = begin_op zoo_delete path [] (pos zero) version rc c

abbrev pub get_children : Bytes → Rc → ZkClient → Begun × ZkClient
get_children path rc c = begin_op zoo_getchildren path [] (pos zero) minus_one rc c

-- A completion; `none` is a use of an object that is deleted.
unfoldable pub complete_op : ℕ → ZkResult → ZkClient → Option ZkClient
complete_op n result c = elim (lookup n c.heap) [
  | none ↦ none
  | some op ↦
      some (record c { heap = set_op n (record op { result = result; ready = true }) c.heap })
]

-- The completions of the five operations; the path and the value may be null.
abbrev pub create_completion : ℕ → Rc → Option Bytes → ZkClient → Option ZkClient
create_completion n rc path c =
    let text : Bytes = elim path [ none ↦ [] | some t ↦ t ] in
    complete_op n (record { rc = rc; data_text = []; path = text }) c

abbrev pub get_completion : ℕ → Rc → Option Bytes → ZkClient → Option ZkClient
get_completion n rc value c =
    let text : Bytes = elim value [ none ↦ [] | some t ↦ t ] in
    complete_op n (record { rc = rc; data_text = text; path = [] }) c

abbrev pub set_completion : ℕ → Rc → ZkClient → Option ZkClient
set_completion n rc c = complete_op n (result_of rc) c

abbrev pub delete_completion : ℕ → Rc → ZkClient → Option ZkClient
delete_completion n rc c = complete_op n (result_of rc) c

abbrev pub get_children_completion : ℕ → Rc → List Bytes → ZkClient → Option ZkClient
get_children_completion n rc strings c =
    complete_op n (record { rc = rc; data_text = join strings; path = [] }) c

-- The part behind the wait: the result, where the operation is ready.
unfoldable pub finish_op : ℕ → ZkClient → Option (Option ZkResult × ZkClient)
finish_op n c = elim (lookup n c.heap) [
  | none ↦ none
  | some op ↦ some (if op.ready then (some op.result, drop_op n c) else (none, c))
]

-- `cleanupPendingOps`: each operation gets a result and is deleted.
unfoldable pub cleanup_pending_ops : ZkClient → ZkClient
cleanup_pending_ops c = record c { heap = delete_ops c.pending_ops c.heap; pending_ops = [] }

-- The session part of `globalWatcher`.
pub data SessionState : Type 0 where
  zoo_connected zoo_expired zoo_auth_failed zoo_other : SessionState

abbrev pub notified : Rc → ZkClient → ZkClient
notified rc c = record c { conn_result = result_of rc; conn_notified = true }

unfoldable pub on_session : SessionState → ZkClient → ZkClient
on_session zoo_connected c = notified zok (record c { connected = true })
on_session zoo_expired c =
    notified zsessionexpired (cleanup_pending_ops (record c { connected = false }))
on_session zoo_auth_failed c = notified znoauth (record c { connected = false })
on_session zoo_other c = c

-- A request of the library with a watch: for a node's data or its children, with the callback.
pub data Request : Type 0 where
  watches_data watches_children : Bytes → ℕ → Request

pub data WatchType : Type 0 where
  zoo_changed zoo_created zoo_deleted zoo_child : WatchType

abbrev pub requests : (Bytes → ℕ → Request) → Bytes → Option ℕ → List Request
requests make path none = []
requests make path (some callback) = make path callback ∷ []

-- `processWatcher`, with the requests that it makes.
pub process_watcher : WatchType → Bytes → ZkClient → List Request
process_watcher zoo_changed path c =
    if c.has_handle then requests watches_data path (at_name path c.data_watchers) else []
process_watcher zoo_child path c =
    if c.has_handle then requests watches_children path (at_name path c.children_watchers) else []
process_watcher zoo_created path c = []
process_watcher zoo_deleted path c = []

-- `watchDataCompletion` and `watchChildrenCompletion`: whether the callback runs, and the request
-- that is made again.
pub watch_completion : Rc → Request → Bool × Request
watch_completion rc request = (is_ok rc, request)

abbrev pub set_data_watcher : Bytes → ℕ → ZkClient → ZkClient
set_data_watcher path callback c = record c {
  data_watchers = put_name path callback c.data_watchers;
}

abbrev pub set_children_watcher : Bytes → ℕ → ZkClient → ZkClient
set_children_watcher path callback c = record c {
  children_watchers = put_name path callback c.children_watchers;
}

abbrev pub notify_closing : ZkClient → ZkClient
notify_closing c = record c {
  conn_result = record { rc = zclosing; data_text = []; path = codes "closing" };
  conn_notified = true;
}

unfoldable pub close : ZkClient → ZkClient
close c =
    let cleaned = cleanup_pending_ops c in
    let told = if c.conn_notified then cleaned else notify_closing cleaned in
    if c.has_handle then record told { has_handle = false; connected = false } else c

-- The events up to the first that notifies.
abbrev pub poll : List SessionState → ZkClient → ZkClient
poll [] c = c
poll (e ∷ es) c = let later = poll es (on_session e c) in if c.conn_notified then c else later

-- `start`, where `made` is whether `zookeeper_init` gives a handle, and `events` are the session
-- events that come while it polls, up to the first that notifies or the end of its five seconds.
unfoldable pub start : Bool → List SessionState → ZkClient → ZkResult × ZkClient
start made events c =
    let opened = record c { has_handle = true } in
    let polled = poll events opened in
    let off : ZkClient = record polled { has_handle = false; connected = false } in
    let reset = record polled { conn_notified = false } in
    let failed : Bytes → ZkResult =
      λ text. record { rc = zsystemerror; data_text = []; path = text } in
    let answered =
      if is_ok polled.conn_result.rc
      then reset
      else record reset { has_handle = false; connected = false } in
    if c.connected
    then (result_of zok, c)
    else (if made
        then (if polled.conn_notified
            then (polled.conn_result, answered)
            else (failed (codes "connection timeout"), off))
        else (failed (codes "failed to init zookeeper"), record c { has_handle = false }))
