-- ===== src/Loop/Runs.antt =====
-- Everything that can happen to an event loop, one after another.
pub mod Due
use mcoro_rpc.Common.{ℕ, List, [], ◌∷◌, Bool, true, false, none, some, Option-cases, inl, inr}
use mcoro_rpc.Loop.Selector
use mcoro_rpc.Loop.Selector.{Epoll, Report}
use mcoro_rpc.Loop.{
  Eventloop, new_loop, new_wait, call_soon, call_at, add_reader, add_writer, cancel_wait, cancel,
  stop, take_ready, ready_waits, process_epoll_event, process_expired_timeout, settle_wait,
}
use mcoro_rpc.Loop.Tracked.{
  IsTracked, insert-AllTracked, erase-AllTracked, drop_wait-AllTracked, take_ready-IsTracked,
}
use mcoro_rpc.Loop.Cancel.{cancel_lem, NoneOf}

-- The calls of the program, whose callbacks make them as well, and the steps of the loop.
pub data Happening : Type 0 where
  soon : (id user_cb : ℕ) → Happening
  at : (when id user_cb : ℕ) → Happening
  reads writes : (ctl : Bool) (fd id user_cb : ℕ) → Happening
  cancels_wait : (wait_id : ℕ) → Happening
  cancels : (id : ℕ) → Happening
  stops takes : Happening
  reports : List Report → Happening
  expires : (now : ℕ) → Happening

-- A report of a descriptor whose event is gone leaves the loop as it is.
pub happen : Eventloop → Happening → Eventloop
happen l (soon id user_cb) = (call_soon id user_cb l).1
happen l (at when id user_cb) = (call_at when id user_cb l).1
happen l (reads ctl fd id user_cb) = (add_reader ctl fd id user_cb l).1
happen l (writes ctl fd id user_cb) = (add_writer ctl fd id user_cb l).1
happen l (cancels_wait wait_id) = (cancel_wait wait_id l).1
happen l (cancels id) = cancel id l
happen l stops = stop l
happen l takes = (take_ready l).1
happen l (reports rs) = elim (process_epoll_event rs l) [ none ↦ l | some l' ↦ l' ]
happen l (expires now) = process_expired_timeout now l

pub run : Eventloop → List Happening → Eventloop
unfolding happen
run l [] = l
run l (h ∷ hs) = run (happen l h) hs

new_wait-IsTracked :
    (id user_cb : ℕ) (l : Eventloop) → IsTracked l → IsTracked (new_wait id user_cb l)
new_wait-IsTracked id user_cb l t =
    insert-AllTracked id l.next_wait_id user_cb l.wait_callback l.coro_waits t

settle_wait-IsTracked :
    (id w : ℕ) (answer : Bool × Epoll) (l : Eventloop)
    → IsTracked l
    → IsTracked (settle_wait id w answer l).1
settle_wait-IsTracked id w (true, e) l t = t
settle_wait-IsTracked id w (false, e) l t = drop_wait-AllTracked id w l.wait_callback l.coro_waits t

happen-IsTracked : (l : Eventloop) (h : Happening) → IsTracked l → IsTracked (happen l h)
unfolding happen call_soon call_at add_reader add_writer cancel_wait stop process_epoll_event
    process_expired_timeout
happen-IsTracked l (soon id user_cb) t = new_wait-IsTracked id user_cb l t
happen-IsTracked l (at when id user_cb) t = new_wait-IsTracked id user_cb l t
happen-IsTracked l (reads ctl fd id user_cb) t =
    settle_wait-IsTracked id l.next_wait_id (Selector.add_reader ctl fd l.next_wait_id l.epoll)
      (new_wait id user_cb l) (new_wait-IsTracked id user_cb l t)
happen-IsTracked l (writes ctl fd id user_cb) t =
    settle_wait-IsTracked id l.next_wait_id (Selector.add_writer ctl fd l.next_wait_id l.epoll)
      (new_wait id user_cb l) (new_wait-IsTracked id user_cb l t)
happen-IsTracked l (cancels_wait w) t = erase-AllTracked w l.wait_callback l.coro_waits t
happen-IsTracked l (cancels id) t = (cancel_lem l id 0 t).3
happen-IsTracked l stops t = t
happen-IsTracked l takes t = take_ready-IsTracked l t
happen-IsTracked l (reports rs) t = elim (Option-cases (ready_waits rs l.epoll)) [
  | inl e ↦ rw (e, process_epoll_event, happen) t
  | inr (ws, e) ↦ rw (e, process_epoll_event, happen) t
]
happen-IsTracked l (expires now) t = t

run-Tracked : (l : Eventloop) (hs : List Happening) → IsTracked l → IsTracked (run l hs)
unfolding run
run-Tracked l [] t = t
run-Tracked l (h ∷ hs) t = run-Tracked (happen l h) hs (happen-IsTracked l h t)

-- Whatever happens to a new event loop, in whatever order, every callback that it keeps is listed
-- under its coroutine; cancelling any coroutine then leaves it no callback.
pub run-cancel :
    (hs : List Happening) (id : ℕ)
    → IsTracked (run new_loop hs) × NoneOf id (cancel id (run new_loop hs)).wait_callback
unfolding new_loop
run-cancel hs id =
    let t = run-Tracked new_loop hs tt in (t, (cancel_lem (run new_loop hs) id 0 t).0)
