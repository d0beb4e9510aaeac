-- ===== src/Loop/Selector.antt =====
-- The epoll wrapper: include/selector/epoll.hpp and src/epoll.cc. Whether `epoll_ctl` succeeds is
-- an argument. Of the event mask the model has the three flags that the code sets.
use mcoro_rpc.Common.{
  ℕ, List, [], ◌∷◌, Bool, true, false, ◌&&◌, ◌||◌, not, none, some, ◌==◌, if◌then◌else◌,
}
use mcoro_rpc.Common.Dict.{lookup, erase, insert}

pub record Event : Type 0 where
  pub reader : ℕ
  pub writer : ℕ
  pub inp : Bool
  pub out : Bool
  pub edge : Bool

-- An `epoll_event` that `epoll_wait` reports, by its descriptor.
pub record Report : Type 0 where
  pub fd : ℕ
  pub inp : Bool
  pub out : Bool

pub record Epoll : Type 0 where
  pub event_map : List (ℕ × Event)
  pub wait_to_fd : List (ℕ × ℕ)

unfoldable pub new_epoll : Epoll
new_epoll = record { event_map = []; wait_to_fd = [] }

abbrev pub new_event : Event
new_event = record { reader = 0; writer = 0; inp = false; out = false; edge = false }

-- `m_event_map[fd]`
abbrev pub event_at : ℕ → Epoll → Event
event_at fd e = elim (lookup fd e.event_map) [ none ↦ new_event | some ev ↦ ev ]

-- The end of `add_reader` and `add_writer`: the event is in its place, then `epoll_ctl` answers.
abbrev pub settle : Bool → ℕ → ℕ → Event → List (ℕ × ℕ) → Epoll → Bool × Epoll
settle ctl fd wait_id ev waits e =
    if ctl
    then (
      true,
      record { event_map = insert fd ev e.event_map; wait_to_fd = insert wait_id fd waits },
    )
    else (false, record { event_map = erase fd e.event_map; wait_to_fd = erase wait_id waits })

unfoldable pub add_reader : Bool → ℕ → ℕ → Epoll → Bool × Epoll
add_reader ctl fd wait_id e =
    let ev = event_at fd e in
    let waits = if ev.reader == 0 then e.wait_to_fd else erase ev.reader e.wait_to_fd in
    settle ctl fd wait_id (record ev { inp = true; edge = true; reader = wait_id }) waits e

unfoldable pub add_writer : Bool → ℕ → ℕ → Epoll → Bool × Epoll
add_writer ctl fd wait_id e =
    let ev = event_at fd e in
    let waits = if ev.writer == 0 then e.wait_to_fd else erase ev.writer e.wait_to_fd in
    settle ctl fd wait_id (record ev { out = true; edge = true; writer = wait_id }) waits e

-- The answers of `epoll_ctl` are not looked at here.
unfoldable pub cancel_wait : ℕ → Epoll → Epoll
cancel_wait wait_id e = elim (lookup wait_id e.wait_to_fd) [
  | none ↦ e
  | some fd ↦
      let ev = event_at fd e in
      let reads = ev.reader == wait_id in
      let writes = ev.writer == wait_id in
      let left = record ev {
        reader = if reads then 0 else ev.reader;
        inp = not reads && ev.inp;
        writer = if writes then 0 else ev.writer;
        out = not writes && ev.out;
      } in
      record {
        wait_to_fd = erase wait_id e.wait_to_fd;
        event_map =
            if (reads || writes) && not (left.inp || left.out)
            then erase fd e.event_map
            else insert fd left e.event_map;
      }
]

unfoldable pub is_stop : Epoll → Bool
is_stop e = elim e.event_map [ [] ↦ true | ev ∷ evs ↦ false ]
