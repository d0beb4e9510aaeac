-- ===== src/Rpc/Pool.antt =====
-- The object pools: include/utils/object_pool.hpp. The last object of the vector stands first. A
-- shared pointer may be null.
use mcoro_rpc.Common.{
  ℕ, ◌≤◌, ◌≡◌, refl, List, [], ◌∷◌, Option, none, some, ltb, if◌then◌else◌, length, pos, arith,
}
use mcoro_rpc.Codec.{TinyPbProtocol, new_protocol}
use mcoro_rpc.Rpc.Context.{RpcContext, new_context, reset}

pub record ObjectPool (T : Type 0) : Type 0 where
  pub pool : List T
  pub max_size : ℕ

module _ {T : Type 0} where
  -- `make` stands for `std::make_shared<T>()`.
  pub get : T → ObjectPool T → T × ObjectPool T
  get make p = elim p.pool [ obj ∷ rest ↦ (obj, record p { pool = rest }) | [] ↦ (make, p) ]

  pub recycle : Option T → ObjectPool T → ObjectPool T
  recycle none p = p
  recycle (some obj) p =
      if ltb (length p.pool) p.max_size then record p { pool = obj ∷ p.pool } else p

-- What `recycleProtocol` does to the object.
pub clear_protocol : TinyPbProtocol → TinyPbProtocol
clear_protocol proto = record proto {
  msg_id = [];
  method_name = [];
  err_code = pos 0;
  err_info = [];
  pb_data = [];
  pk_len = pos 0;
}

pub recycle_protocol : Option TinyPbProtocol → ObjectPool TinyPbProtocol → ObjectPool TinyPbProtocol
unfolding recycle clear_protocol
recycle_protocol none p = p
recycle_protocol (some proto) p = recycle (some (clear_protocol proto)) p

unfoldable pub get_protocol : ObjectPool TinyPbProtocol → TinyPbProtocol × ObjectPool TinyPbProtocol
unfolding get
get_protocol p = get new_protocol p

module _ {Addr : Type 0} where
  pub recycle_context :
      Option (RpcContext Addr) → ObjectPool (RpcContext Addr) → ObjectPool (RpcContext Addr)
  unfolding recycle
  recycle_context none p = p
  recycle_context (some ctx) p = recycle (some (reset ctx)) p

  pub get_context : ObjectPool (RpcContext Addr) → RpcContext Addr × ObjectPool (RpcContext Addr)
  unfolding get
  get_context p = get new_context p

-- What passes through a pool of protocols: objects that are taken and objects that are given back.
pub data PoolOp : Type 0 where
  gets : PoolOp
  recycles : Option TinyPbProtocol → PoolOp

abbrev pub pool_step : PoolOp → ObjectPool TinyPbProtocol → ObjectPool TinyPbProtocol
pool_step gets p = (get_protocol p).1
pool_step (recycles o) p = recycle_protocol o p

abbrev pub pool_run : List PoolOp → ObjectPool TinyPbProtocol → ObjectPool TinyPbProtocol
pool_run [] p = p
pool_run (o ∷ ops) p = pool_run ops (pool_step o p)

-- An object as it comes from the pool holds no text, data, code or packet length of an earlier call.
pub record IsClear (m : TinyPbProtocol) : Type 0 where
  pub no_id : m.msg_id ≡ []
  pub no_method : m.method_name ≡ []
  pub no_code : m.err_code ≡ pos 0
  pub no_info : m.err_info ≡ []
  pub no_data : m.pb_data ≡ []
  pub no_length : m.pk_len ≡ pos 0

abbrev pub AllClear : List TinyPbProtocol → Type 0
AllClear [] = Unit {0}
AllClear (m ∷ ms) = IsClear m × AllClear ms

clear_protocol-IsClear : (m : TinyPbProtocol) → IsClear (clear_protocol m)
unfolding clear_protocol
clear_protocol-IsClear m = record {
  no_id = refl;
  no_method = refl;
  no_code = refl;
  no_info = refl;
  no_data = refl;
  no_length = refl;
}

-- A pool of clear objects within its bound.
pub record IsSound (n : ℕ) (p : ObjectPool TinyPbProtocol) : Type 0 where
  pub all_clear : AllClear p.pool
  pub bounded : length p.pool ≤ p.max_size
  pub same_bound : p.max_size ≡ n

pub get_protocol-IsClear :
    (n : ℕ) (p : ObjectPool TinyPbProtocol)
    → IsSound n p
    → IsClear (get_protocol p).0 × IsSound n (get_protocol p).1
unfolding get_protocol new_protocol
get_protocol-IsClear n p s = ground arith

step-IsSound :
    (n : ℕ) (o : PoolOp) (p : ObjectPool TinyPbProtocol) → IsSound n p → IsSound n (pool_step o p)
unfolding recycle_protocol
step-IsSound n gets p s = (get_protocol-IsClear n p s).1
step-IsSound n (recycles none) p s = s
step-IsSound n (recycles (some m)) p s = ground (arith, clear_protocol-IsClear m)

run-IsSound :
    (n : ℕ) (ops : List PoolOp) (p : ObjectPool TinyPbProtocol)
    → IsSound n p
    → IsSound n (pool_run ops p)
run-IsSound n [] p s = s
run-IsSound n (o ∷ ops) p s = run-IsSound n ops (pool_step o p) (step-IsSound n o p s)

-- Whatever is taken from a pool of protocols that starts empty and given back to it, it never
-- holds more than its bound, and the next object taken is clear.
pub pool_run-IsClear :
    (max_size : ℕ) (ops : List PoolOp)
    → let p = pool_run ops (record { pool = []; max_size = max_size }) in
      (length p.pool ≤ max_size) × IsClear (get_protocol p).0
pool_run-IsClear max_size ops =
    let s =
      run-IsSound max_size ops (record { pool = []; max_size = max_size })
        record { all_clear = tt; bounded = omega arith; same_bound = refl } in
    (omega (arith, s.bounded, s.same_bound), (get_protocol-IsClear max_size _ s).0)
