-- ===== src/Loop/Awaiters.antt =====
-- The awaiters of include/net/ioawaiter.hpp: a coroutine that waits for a descriptor.
use mcoro_rpc.Common.{
  refl, List, [], ◌∷◌, ℕ, ◌-◌, ◌%◌, ◌^◌, ◌≤◌, ◌<◌, ◌≡◌, ◌≢◌, Bool, true, false, none, some, ltb,
  ◌==◌, if◌then◌else◌, arith, if_false, if_true, ap, ◌∙◌, Bool-cases, inl, inr,
}
use mcoro_rpc.Common.Dict.{lookup, lookup-erase, lookup-insert}
use mcoro_rpc.Loop.Selector
use mcoro_rpc.Loop.Selector.{event_at}
use mcoro_rpc.Loop.{is_stop, add_wait, Eventloop, add_reader, add_writer, cancel_wait, WaitCallback}
use mcoro_rpc.Loop.Readers.{cancel_wait-add_reader}

-- `ReadAwaiter` and `WriteAwaiter`. `m_wait_id` is an `int`, given by its bit pattern.
pub record IoAwaiter : Type 0 where
  pub fd : ℕ
  pub wait_id : ℕ

pub new_awaiter : ℕ → IoAwaiter
new_awaiter fd = record { fd = fd; wait_id = 0 }

-- `await_suspend` in a coroutine of this id; `ctl` is whether `epoll_ctl` succeeds.
pub read_suspend : Bool → ℕ → ℕ → IoAwaiter → Eventloop → IoAwaiter × Eventloop
read_suspend ctl id resume a l =
    let (wait_id, l') = add_reader ctl a.fd id resume l in
    (record a { wait_id = wait_id % 2 ^ 32 }, l')

unfoldable pub write_suspend : Bool → ℕ → ℕ → IoAwaiter → Eventloop → IoAwaiter × Eventloop
write_suspend ctl id resume a l =
    let (wait_id, l') = add_writer ctl a.fd id resume l in
    (record a { wait_id = wait_id % 2 ^ 32 }, l')

-- An `int` as a `uint64_t`.
abbrev pub widen : ℕ → ℕ
widen w = if ltb w (2 ^ 31) then w else 2 ^ 64 - (2 ^ 32 - w)

-- `~ReadAwaiter` and `~WriteAwaiter`
pub destroy_awaiter : IoAwaiter → Eventloop → Eventloop
destroy_awaiter a l = if a.wait_id == 0 then l else (cancel_wait (widen a.wait_id) l).1

destroy_awaiter_lem :
    (fd w : ℕ) (l : Eventloop)
    → w ≢ 0
    → w < 2 ^ 31
    → destroy_awaiter (record { fd = fd; wait_id = w % 2 ^ 32 }) l ≡ (cancel_wait w l).1
unfolding destroy_awaiter
destroy_awaiter_lem fd w l some_id small =
    let nonzero : w % 2 ^ 32 == 0 ≡ false = ground (arith, some_id, small) in
    let wide : widen (w % 2 ^ 32) ≡ w = ground (arith, small) in
    if_false _ _ nonzero ∙ ap (λ v. (cancel_wait v l).1) wide

-- Past 2 ^ 31 an `int` cannot hold the number of a wait, and going out of scope leaves its callback
-- in the loop.
pub destroy_awaiter_leaves :
    (fd w : ℕ) (l : Eventloop)
    → 2 ^ 31 ≤ w
    → w < 2 ^ 63
    → lookup w (destroy_awaiter (record { fd = fd; wait_id = w % 2 ^ 32 }) l).wait_callback
      ≡ lookup w l.wait_callback
unfolding destroy_awaiter cancel_wait
destroy_awaiter_leaves fd w l high low =
    let other : widen (w % 2 ^ 32) == w ≡ false = ground (arith, high, low) in
    elim (Bool-cases (w % 2 ^ 32 == 0)) [
      | inl z ↦ ap (λ (k : Eventloop). lookup w k.wait_callback) (if_true _ _ z)
      | inr z ↦
          ap (λ (k : Eventloop). lookup w k.wait_callback) (if_false _ _ z)
          ∙ lookup-erase (widen (w % 2 ^ 32)) w l.wait_callback
          ∙ if_false _ _ other
    ]

has_waits : List (ℕ × List ℕ) → Bool
has_waits [] = false
has_waits (s ∷ ss) = true

-- While a coroutine has waits, only being told to stop ends a loop.
waits_unfinished : (l : Eventloop) → has_waits l.coro_waits ≡ true → is_stop l ≡ l.stopped
unfolding has_waits is_stop
waits_unfinished l h = ground (arith, h)

-- A coroutine that waits for a descriptor without a reader, and whose awaiter then goes out of scope,
-- leaves no callback under the number of the wait and no place for it in the map of waits, and of the
-- descriptor's event just the writer; the events of the other descriptors are as they were. In the
-- waits of the coroutine the number stays, so that the loop does not count as finished unless it
-- is told to stop. The number of the wait is not 0, below 2 ^ 31 and not the writer's.
pub destroy-read_suspend :
    (fd id resume fd' : ℕ) (l : Eventloop)
    → l.next_wait_id ≢ 0
    → l.next_wait_id < 2 ^ 31
    → (event_at fd l.epoll).reader ≡ 0
    → (event_at fd l.epoll).writer ≢ l.next_wait_id
    → let (a, l1) = read_suspend true id resume (new_awaiter fd) l in
      let l2 = destroy_awaiter a l1 in
      (lookup l.next_wait_id l1.wait_callback ≡ some (record { coro_id = id; user_cb = resume }))
      × (lookup l.next_wait_id l2.wait_callback ≡ none)
      × (lookup l.next_wait_id l2.epoll.wait_to_fd ≡ none)
      × (lookup fd' l2.epoll.event_map ≡ (
          if fd == fd'
          then if (event_at fd l.epoll).out
            then some (record (event_at fd l.epoll) { reader = 0; inp = false; edge = true })
            else none
          else lookup fd' l.epoll.event_map))
      × (l2.coro_waits ≡ add_wait id l.next_wait_id l.coro_waits)
      × (is_stop l2 ≡ l.stopped)
unfolding read_suspend new_awaiter destroy_awaiter add_reader cancel_wait has_waits
    Selector.add_reader
destroy-read_suspend fd id resume fd' l some_id small quiet apart =
    let w = l.next_wait_id in
    let (events, waits) = cancel_wait-add_reader fd w fd' w l.epoll quiet apart in
    let l1 = (read_suspend true id resume (new_awaiter fd) l).1 in
    let gone = destroy_awaiter_lem fd w l1 some_id small in
    let callback : WaitCallback = record { coro_id = id; user_cb = resume } in
    (
      lookup-insert w w callback l.wait_callback ∙ ground arith,
      ap (λ (k : Eventloop). lookup w k.wait_callback) gone
          ∙ lookup-erase w w l1.wait_callback
          ∙ ground arith,
      ap (λ (k : Eventloop). lookup w k.epoll.wait_to_fd) gone ∙ waits ∙ ground arith,
      ap (λ (k : Eventloop). lookup fd' k.epoll.event_map) gone ∙ events,
      ap (λ (k : Eventloop). k.coro_waits) gone,
      ap is_stop gone ∙ waits_unfinished (cancel_wait w l1).1 refl,
    )
