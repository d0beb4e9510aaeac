-- ===== src/Tests/Loops.antt =====
-- Event loops with few waits.
use mcoro_rpc.Common.{◌++◌, ◌≡◌, refl, List, [], ◌∷◌, some, none, true, false}
use mcoro_rpc.Common.Dict.{lookup}
use mcoro_rpc.Loop.Selector
use mcoro_rpc.Loop.Selector.{Epoll, new_epoll, new_event, event_at}
use mcoro_rpc.Loop.{Eventloop, new_loop, cancel, process_expired_timeout}
use mcoro_rpc.Loop.Tracked.{IsTracked}
use mcoro_rpc.Loop.Cancel.{NoneOf, cancel_lem}
use mcoro_rpc.Loop.Runs.{Happening, soon, at, reads, takes, expires, run, run-cancel}
use mcoro_rpc.Loop.Timers.{IsSorted, due, late}
use mcoro_rpc.Loop.Runs.Due.{run-expires}
use mcoro_rpc.Loop.Readers.{cancel_wait-add_reader}

abbrev happenings : List Happening
happenings =
    soon 1 10 ∷ at 50 2 20 ∷ reads true 4 1 30 ∷ takes ∷ at 60 2 40 ∷ at 40 3 50 ∷ expires 45 ∷ []

run-cancel_example :
    IsTracked (run new_loop happenings)
    × NoneOf 1 (cancel 1 (run new_loop happenings)).wait_callback
run-cancel_example = run-cancel happenings 1

-- Two waits of one coroutine, one of them ready, the other a timer, and a timer of another one.
abbrev pub busy : Eventloop
busy = record {
  next_wait_id = 4;
  ready_queue = 1 ∷ [];
  coro_waits = (7, 1 ∷ 2 ∷ []) ∷ (8, 3 ∷ []) ∷ [];
  wait_callback =
      (1, record { coro_id = 7; user_cb = 10 })
      ∷ (2, record { coro_id = 7; user_cb = 20 })
      ∷ (3, record { coro_id = 8; user_cb = 30 })
      ∷ [];
  scheduled = (3, 40) ∷ (2, 50) ∷ [];
  stopped = false;
  epoll = record { event_map = []; wait_to_fd = [] };
}

pub busy-IsTracked : IsTracked busy
busy-IsTracked = (refl, (refl, (refl, tt)))

cancel_lem_example :
    NoneOf 7 (cancel 7 busy).wait_callback
    × (lookup 7 (cancel 7 busy).coro_waits ≡ none)
    × (lookup 3 (cancel 7 busy).wait_callback ≡ some (record { coro_id = 8; user_cb = 30 }))
    × IsTracked (cancel 7 busy)
cancel_lem_example = cancel_lem busy 7 3 busy-IsTracked

run-expires_example :
    let l = run new_loop happenings in
    ((process_expired_timeout 70 l).ready_queue ≡ l.ready_queue ++ due 70 l.scheduled)
    × ((process_expired_timeout 70 l).scheduled ≡ late 70 l.scheduled)
    × IsSorted l.scheduled
    × IsSorted (process_expired_timeout 70 l).scheduled
run-expires_example = run-expires happenings 70

-- A descriptor with a reader.
abbrev read_only : Epoll
read_only = record {
  event_map = (4, record { reader = 1; writer = 0; inp = true; out = false; edge = true }) ∷ [];
  wait_to_fd = (1, 4) ∷ [];
}

cancel_wait-add_reader_example :
    let e' = Selector.cancel_wait 2 (Selector.add_reader true 5 2 read_only).1 in
    (lookup 5 e'.event_map ≡ none) × (lookup 1 e'.wait_to_fd ≡ some 4)
cancel_wait-add_reader_example = cancel_wait-add_reader 5 2 5 1 read_only refl (λ e. cc)
