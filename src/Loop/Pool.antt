-- ===== src/Loop/Pool.antt =====
-- The pool of event loops: include/coro/event_loop_pool.hpp. The threads are the system's: a thread
-- runs its loop until the loop is stopped. The counter is an `int` that wraps.
use mcoro_rpc.Common.{
  ℕ, zero, suc, ◌+◌, ◌-◌, ◌%◌, ◌^◌, ◌≤◌, ◌<◌, ◌≡◌, ◌≢◌, refl, if_false, ap, ◌∙◌, List, [], ◌∷◌, map,
  Bool, true, false, Option, none, some, replicate, ltb, ◌==◌, if◌then◌else◌, arith,
}
use mcoro_rpc.Loop.Selector
use mcoro_rpc.Loop.Selector.{new_epoll}
use mcoro_rpc.Loop.{Eventloop, new_loop, stop, is_stop}

pub record EventloopPool : Type 0 where
  pub initialized : Bool
  pub running : Bool
  pub thread_count : ℕ
  pub event_loops : List Eventloop
  pub index : ℕ

unfoldable pub empty_loop_pool : EventloopPool
empty_loop_pool = record {
  initialized = false;
  running = false;
  thread_count = 0;
  event_loops = [];
  index = 0;
}

unfoldable pub init : ℕ → EventloopPool → EventloopPool
init thread_count p = if p.initialized then p else record p {
  initialized = true;
  thread_count = thread_count;
  event_loops = replicate thread_count new_loop;
  index = 0;
}

-- The remainder of an `int`, given by its bit pattern, by a positive one. A negative remainder, as
-- a `size_t`, is outside every vector, and so `none`.
unfoldable pub position : ℕ → ℕ → Option ℕ
position index count =
    if count == 0
    then none
    else (if ltb index (2 ^ 31)
        then some (index % count)
        else (if (2 ^ 32 - index) % count == 0 then some 0 else none))

-- The number of the loop; `none` is undefined.
unfoldable pub get_next_loop : EventloopPool → Option ℕ × EventloopPool
get_next_loop p = (position p.index p.thread_count, record p { index = (p.index + 1) % 2 ^ 32 })

pub get_loop_by_index : ℕ → EventloopPool → Option ℕ
get_loop_by_index index p = position index p.thread_count

-- With the loops that a thread is started for.
pub start_all : EventloopPool → EventloopPool × List Eventloop
start_all p = if p.running then (p, []) else (record p { running = true }, p.event_loops)

unfoldable pub stop_all : EventloopPool → EventloopPool
stop_all p = record p { event_loops = map stop p.event_loops }

pub join_all : EventloopPool → EventloopPool
join_all p = record p { running = false }

-- Loops taken one after another.
unfoldable pub next_loops : ℕ → EventloopPool → List (Option ℕ)
next_loops zero p = []
next_loops (suc k) p = let (loop, p') = get_next_loop p in loop ∷ next_loops k p'

-- The positions from an index on, in turn.
abbrev pub in_turn : ℕ → ℕ → ℕ → List (Option ℕ)
in_turn zero index count = []
in_turn (suc k) index count = some (index % count) ∷ in_turn k (index + 1) count

-- The loops of a pool of at least one are taken in turn while the counter stays within 2 ^ 31.
pub next_loops_lem :
    (k : ℕ) (p : EventloopPool)
    → 0 < p.thread_count
    → p.index + k ≤ 2 ^ 31
    → next_loops k p ≡ in_turn k p.index p.thread_count
unfolding next_loops get_next_loop position
next_loops_lem zero p some_loop low = refl
next_loops_lem (suc k) p some_loop low =
    let next : EventloopPool = record p { index = (p.index + 1) % 2 ^ 32 } in
    let unwrapped : (p.index + 1) % 2 ^ 32 ≡ p.index + 1 = omega arith in
    let later = next_loops_lem k next some_loop (omega arith) in
    let here : position p.index p.thread_count ≡ some (p.index % p.thread_count) =
      ground (arith, some_loop, low) in
    ap (λ o. o ∷ next_loops k next) here
    ∙ ap (λ l. some (p.index % p.thread_count) ∷ l)
        (later ∙ ap (λ i. in_turn k i p.thread_count) unwrapped)

-- From 2 ^ 31 on the remainder is negative, and unless it is 0 the access is outside the vector.
pub next_loop_outside :
    (p : EventloopPool)
    → 0 < p.thread_count
    → 2 ^ 31 ≤ p.index
    → (2 ^ 32 - p.index) % p.thread_count ≢ 0
    → (get_next_loop p).0 ≡ none
unfolding get_next_loop position
next_loop_outside p some_loop high odd = ground (arith, some_loop, high, odd)

loops_stopped : (n : ℕ) → map is_stop (replicate n new_loop) ≡ replicate n true
unfolding is_stop new_loop Selector.is_stop new_epoll
loops_stopped zero = refl
loops_stopped (suc n) = ap (λ l. true ∷ l) (loops_stopped n)

-- The loops of a new pool have nothing to wait for, so that each of them counts as stopped, and the
-- threads that are started for them end at once.
pub start_all-init :
    (thread_count : ℕ) (p : EventloopPool)
    → p.initialized ≡ false
    → p.running ≡ false
    → map is_stop (start_all (init thread_count p)).1 ≡ replicate thread_count true
unfolding init start_all
start_all-init thread_count p fresh idle =
    ap (λ q. map is_stop (start_all q).1) (if_false _ _ fresh)
    ∙ ap (λ (r : EventloopPool × List Eventloop). map is_stop r.1) (if_false _ _ idle)
    ∙ loops_stopped thread_count
