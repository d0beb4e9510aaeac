-- ===== src/Loop/Readers.antt =====
-- Waits for a descriptor: what the epoll wrapper keeps of them, and what their numbers mean.
use mcoro_rpc.Common.{
  ℕ, ◌≡◌, ◌≢◌, ◌↔◌, ◌⊎◌, [], ◌∷◌, append-nil, Bool, true, false, none, some, ◌==◌, if◌then◌else◌,
  arith,
}
use mcoro_rpc.Common.Dict.{lookup, erase, insert, lookup-erase, lookup-insert}
use mcoro_rpc.Loop.Selector
use mcoro_rpc.Loop.Selector.{Epoll, Event, Report, new_event, event_at}
use mcoro_rpc.Loop.{Eventloop, add_reader, process_epoll_event}

-- Adding a reader to a descriptor that has none, under a number that is not its writer's, and
-- cancelling it again takes its number from the map of waits and its interest from the descriptor:
-- the event of a writer stays, an event without one is gone, and the other descriptors' are as they
-- were.
pub cancel_wait-add_reader :
    (fd w fd' j : ℕ) (e : Epoll)
    → (event_at fd e).reader ≡ 0
    → (event_at fd e).writer ≢ w
    → let e' = Selector.cancel_wait w (Selector.add_reader true fd w e).1 in
      (lookup fd' e'.event_map ≡ (
        if fd == fd'
        then if (event_at fd e).out
          then some (record (event_at fd e) { reader = 0; inp = false; edge = true })
          else none
        else lookup fd' e.event_map))
      × (lookup j e'.wait_to_fd ≡ (if w == j then none else lookup j e.wait_to_fd))
unfolding Selector.cancel_wait Selector.add_reader
cancel_wait-add_reader fd w fd' j e r n =
    let ev = event_at fd e in
    let here = record ev { reader = w; inp = true; edge = true } in
    let left = record ev { reader = 0; inp = false; edge = true } in
    let m = insert fd here e.event_map in
    ground (
      arith,
      lookup-erase fd fd' e.event_map,
      lookup-erase fd fd' m,
      lookup-insert fd fd' left m,
      lookup-insert fd fd' here e.event_map,
      lookup-erase w j e.wait_to_fd,
      lookup-erase w j (erase w e.wait_to_fd),
      lookup-insert w j fd e.wait_to_fd,
    )

-- A failed registration of a writer takes the whole event of the descriptor, and cancelling another
-- wait that was registered with it, of a number that is not 0, the failed one's or the event's
-- writer's, then makes an empty event: the loop does not find its epoll object idle.
pub cancel_wait_leaves :
    (fd w r : ℕ) (e : Epoll)
    → lookup r e.wait_to_fd ≡ some fd
    → r ≢ 0
    → w ≢ r
    → (event_at fd e).writer ≢ r
    → let e' = Selector.cancel_wait r (Selector.add_writer false fd w e).1 in
      (lookup fd e'.event_map ≡ some new_event) × (Selector.is_stop e' ≡ false)
unfolding Selector.cancel_wait Selector.add_writer Selector.is_stop
cancel_wait_leaves fd w r e h p d n =
    let ev = event_at fd e in
    ground (
      arith,
      lookup-erase fd fd e.event_map,
      lookup-erase w r e.wait_to_fd,
      lookup-erase w r (erase ev.writer e.wait_to_fd),
      lookup-erase ev.writer r e.wait_to_fd,
    )

-- The number 0, which stands for a failed registration, is answered just where `epoll_ctl` fails or
-- where the counter of waits stands at 0, as it does for the loop's first wait.
pub add_reader-zero :
    (ctl : Bool) (fd id user_cb : ℕ) (l : Eventloop)
    → ((add_reader ctl fd id user_cb l).0 ≡ 0) ↔ ((ctl ≡ false) ⊎ (l.next_wait_id ≡ 0))
unfolding add_reader Selector.add_reader
add_reader-zero true fd id user_cb l = ground arith
add_reader-zero false fd id user_cb l = ground arith

-- A reader that is registered when the counter of waits stands at 0, on a descriptor without a
-- writer, is not made ready by a report of the descriptor, whatever it says: the loop stays as it
-- is.
pub first_reader_lost :
    (fd id user_cb : ℕ) (inp out : Bool) (l : Eventloop)
    → l.next_wait_id ≡ 0
    → (event_at fd l.epoll).writer ≡ 0
    → let l' = (add_reader true fd id user_cb l).1 in
      process_epoll_event (record { fd = fd; inp = inp; out = out } ∷ []) l' ≡ some l'
unfolding add_reader Selector.add_reader process_epoll_event
first_reader_lost fd id user_cb inp out l z w = ground (arith, append-nil l.ready_queue)
