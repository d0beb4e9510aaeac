-- ===== src/Loop/Runs/Due.antt =====
-- The timers of a loop in its life: they stay sorted, so that expiry takes those that are due.
use mcoro_rpc.Common.{
  ℕ, ◌≡◌, refl, List, [], ◌∷◌, ◌++◌, Bool, true, false, Option-cases, List-cases, inl, inr,
}
use mcoro_rpc.Common.Dict.{lookup}
use mcoro_rpc.Loop.Selector
use mcoro_rpc.Loop.Selector.{Epoll}
use mcoro_rpc.Loop.{
  Eventloop, new_loop, call_soon, call_at, add_reader, add_writer, cancel_wait, cancel_waits,
  cancel, stop, take_ready, ready_waits, process_epoll_event, process_expired_timeout, settle_wait,
  new_wait,
}
use mcoro_rpc.Loop.Runs.{
  Happening, soon, at, reads, writes, cancels_wait, cancels, stops, takes, reports, expires, happen,
  run,
}
use mcoro_rpc.Loop.Timers.{
  IsSorted, due, late, push_timer-IsSorted, erase_timer-IsSorted, process_expired_timeout_lem,
}

scheduled-settle_wait :
    (id w : ℕ) (answer : Bool × Epoll) (l : Eventloop)
    → (settle_wait id w answer l).1.scheduled ≡ l.scheduled
scheduled-settle_wait id w (true, e) l = refl
scheduled-settle_wait id w (false, e) l = refl

scheduled-take_ready : (l : Eventloop) → (take_ready l).1.scheduled ≡ l.scheduled
unfolding take_ready
scheduled-take_ready l = elim (List-cases l.ready_queue) [
  | inl e ↦ rw (e, take_ready) refl
  | inr (w, rest, e) ↦ elim (Option-cases (lookup w l.wait_callback)) [
    | inl f ↦ rw (e, f, take_ready) refl
    | inr (cb, f) ↦ rw (e, f, take_ready) refl
  ]
]

cancel_waits-IsSorted :
    (ws : List ℕ) (l : Eventloop) → IsSorted l.scheduled → IsSorted (cancel_waits ws l).scheduled
unfolding cancel_waits
cancel_waits-IsSorted [] l o = o
cancel_waits-IsSorted (w ∷ ws) l o =
    cancel_waits-IsSorted ws (cancel_wait w l).1 (erase_timer-IsSorted w l.scheduled o)

cancel-IsSorted : (id : ℕ) (l : Eventloop) → IsSorted l.scheduled → IsSorted (cancel id l).scheduled
unfolding cancel
cancel-IsSorted id l o = elim (Option-cases (lookup id l.coro_waits)) [
  | inl e ↦ rw (e, cancel) o
  | inr (ws, e) ↦ rw (e, cancel) (cancel_waits-IsSorted ws l o)
]

happen-IsSorted :
    (l : Eventloop) (h : Happening) → IsSorted l.scheduled → IsSorted (happen l h).scheduled
unfolding happen call_soon call_at add_reader add_writer cancel_wait stop process_epoll_event
happen-IsSorted l (soon id user_cb) o = o
happen-IsSorted l (at when id user_cb) o = push_timer-IsSorted l.next_wait_id when l.scheduled o
happen-IsSorted l (reads ctl fd id user_cb) o =
    rw
      (scheduled-settle_wait id l.next_wait_id (Selector.add_reader ctl fd l.next_wait_id l.epoll)
        (new_wait id user_cb l))
      o
happen-IsSorted l (writes ctl fd id user_cb) o =
    rw
      (scheduled-settle_wait id l.next_wait_id (Selector.add_writer ctl fd l.next_wait_id l.epoll)
        (new_wait id user_cb l))
      o
happen-IsSorted l (cancels_wait w) o = erase_timer-IsSorted w l.scheduled o
happen-IsSorted l (cancels id) o = cancel-IsSorted id l o
happen-IsSorted l stops o = o
happen-IsSorted l takes o = rw (scheduled-take_ready l) o
happen-IsSorted l (reports rs) o = elim (Option-cases (ready_waits rs l.epoll)) [
  | inl e ↦ rw (e, process_epoll_event, happen) o
  | inr (ws, e) ↦ rw (e, process_epoll_event, happen) o
]
happen-IsSorted l (expires now) o = (process_expired_timeout_lem now l o).2

run-IsSorted :
    (l : Eventloop) (hs : List Happening) → IsSorted l.scheduled → IsSorted (run l hs).scheduled
unfolding run
run-IsSorted l [] o = o
run-IsSorted l (h ∷ hs) o = run-IsSorted (happen l h) hs (happen-IsSorted l h o)

-- Whatever has happened to a new event loop, expiry moves the waits of just those timers that are
-- due behind the ready queue, the earliest first, and keeps the others, sorted.
pub run-expires :
    (hs : List Happening) (now : ℕ)
    → let l = run new_loop hs in
      ((process_expired_timeout now l).ready_queue ≡ l.ready_queue ++ due now l.scheduled)
      × ((process_expired_timeout now l).scheduled ≡ late now l.scheduled)
      × IsSorted l.scheduled
      × IsSorted (process_expired_timeout now l).scheduled
unfolding new_loop
run-expires hs now =
    let o = run-IsSorted new_loop hs tt in
    let (moved, kept, still) = process_expired_timeout_lem now (run new_loop hs) o in
    (moved, kept, o, still)
