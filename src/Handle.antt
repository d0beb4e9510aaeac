-- ===== src/Handle.antt =====
-- Handles and timers: include/coro/handle.hpp, src/handle.cc, include/coro/timer.hpp and
-- src/timer.cc. The event loop of the thread is an argument and a result. A callback is known by
-- a number; the one that a handle or timer registers runs the handle or timer.
pub mod Sleep
use mcoro_rpc.Common.{
  ℕ, ◌+◌, ◌%◌, ◌^◌, ◌<◌, ◌≡◌, ◌≢◌, Bool, true, false, Option, none, some, ◌==◌, if◌then◌else◌,
  arith, Bool-cases, inl, inr,
}
use mcoro_rpc.Common.Dict.{lookup}
use mcoro_rpc.Loop.{Eventloop, call_soon, call_at, cancel_wait, cancel}
use mcoro_rpc.Loop.Tracked.{IsTracked}
use mcoro_rpc.Loop.Cancel.{NoneOf, cancel_lem, cancel_wait-IsTracked}

pub data State : Type 0 where
  unschedule schedule cancelled suspend : State

-- `generator_id`, from the number given out last.
unfoldable pub generator_id : ℕ → ℕ
generator_id last = let id = (last + 1) % 2 ^ 32 in if id == 0 then (id + 1) % 2 ^ 32 else id

pub record CoroHandle : Type 0 where
  pub state : State
  pub id : ℕ

-- `schedule` and `scheduleOn`, with the number of the callback that runs the handle.
unfoldable pub schedule_on : ℕ → CoroHandle → Eventloop → Eventloop
schedule_on run h l = elim h.state [ unschedule ↦ (call_soon h.id run l).1 | _ ↦ l ]

-- `Handle::cancel`
unfoldable pub cancel_handle : CoroHandle → Eventloop → CoroHandle × Eventloop
cancel_handle h l = elim h.state [
  | cancelled ↦ (h, l)
  | _ ↦ (record h { state = cancelled }, cancel h.id l)
]

pub record Timer : Type 0 where
  pub handle : CoroHandle
  pub is_cancelled : Bool
  pub when : ℕ
  pub callback : ℕ
  pub wait_id : ℕ

unfoldable pub new_timer : ℕ → ℕ → ℕ → Timer
new_timer id when callback = record {
  handle = record { state = unschedule; id = id };
  is_cancelled = false;
  when = when;
  callback = callback;
  wait_id = 0;
}

unfoldable pub start : ℕ → Timer → Eventloop → Timer × Eventloop
start run t l =
    let (wait_id, l') = call_at t.when t.handle.id run l in (record t { wait_id = wait_id }, l')

-- With the callback of the program that is run.
unfoldable pub run : Timer → Option ℕ × Timer
run t =
    if t.is_cancelled
    then (none, t)
    else (some t.callback, record t { is_cancelled = true; wait_id = 0 })

-- `cancel` and `abort`
unfoldable pub abort : Timer → Eventloop → Timer × Eventloop
abort t l = if t.is_cancelled then (t, l) else (
  record t { is_cancelled = true },
  if t.wait_id == 0 then l else (cancel_wait t.wait_id l).1,
)

-- `~Timer`, then `~Handle`.
unfoldable pub destroy : Timer → Eventloop → Eventloop
destroy t l = let (t', l') = abort t l in (cancel_handle t'.handle l').1

-- No handle has the number 0, none that of the handle made before it, and all are below 2 ^ 32, as
-- the one before was.
pub generator_id_lem :
    (last : ℕ)
    → last < 2 ^ 32
    → (generator_id last ≢ 0) × (generator_id last ≢ last) × (generator_id last < 2 ^ 32)
unfolding generator_id
generator_id_lem last h = ground arith

-- A timer runs its callback at most once: run again, and run after it was cancelled, it runs
-- nothing, and a cancelled one stays as it is.
pub run_once_lem :
    (t : Timer) (l : Eventloop)
    → ((run (run t).1).0 ≡ none) × (run (abort t l).0 ≡ (none, (abort t l).0))
unfolding run abort
run_once_lem t l = ground arith

pub abort-IsTracked : (t : Timer) (l : Eventloop) → IsTracked l → IsTracked (abort t l).1
unfolding abort
abort-IsTracked t l i = elim (Bool-cases t.is_cancelled) [
  | inl h ↦ rw (h, abort) i
  | inr h ↦ elim (Bool-cases (t.wait_id == 0)) [
    | inl z ↦ rw (h, z, abort) i
    | inr z ↦ rw (h, z, abort) (cancel_wait-IsTracked t.wait_id l i)
  ]
]

pub abort-handle : (t : Timer) (l : Eventloop) → (abort t l).0.handle ≡ t.handle
unfolding abort
abort-handle t l = ground arith

cancel_handle_lem :
    (h : CoroHandle) (l : Eventloop) → h.state ≡ unschedule → (cancel_handle h l).1 ≡ cancel h.id l
unfolding cancel_handle
cancel_handle_lem h l s = ground (arith, s)

-- When a timer whose handle is as it was made goes out of scope, no callback and no wait of it are
-- left in a loop that tracks its callbacks, and the loop goes on tracking them.
pub destroy_lem :
    (t : Timer) (l : Eventloop)
    → IsTracked l
    → t.handle.state ≡ unschedule
    → NoneOf t.handle.id (destroy t l).wait_callback
      × (lookup t.handle.id (destroy t l).coro_waits ≡ none)
      × IsTracked (destroy t l)
unfolding destroy
destroy_lem t l i s =
    let l' = (abort t l).1 in
    let (gone, no_waits, _, kept) = cancel_lem l' t.handle.id 0 (abort-IsTracked t l i) in
    rw (abort-handle t l, cancel_handle_lem t.handle l' s, destroy) (gone, no_waits, kept)
