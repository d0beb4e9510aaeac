-- ===== src/Loop.antt =====
-- The event loop: include/coro/event_loop.hpp and src/event_loop.cc. A callback of the program is
-- known by a number, a `coroutine_handle` beside it is only stored and is left out. Time points
-- are nanoseconds. The heap of timers is a list sorted by time; the standard leaves open which of
-- two timers of one time stands first, and here the older one does.
pub mod Selector
pub mod Tracked
pub mod Cancel
pub mod Runs
pub mod Timers
pub mod Readers
pub mod Ready
pub mod Pool
pub mod Awaiters
use mcoro_rpc.Common.{
  ℕ, zero, suc, ◌+◌, ◌-◌, ◌/◌, ◌%◌, ◌^◌, List, [], ◌∷◌, ◌++◌, Bool, true, false, ◌&&◌, ◌||◌, not,
  Option, none, some, ltb, leb, ◌==◌, if◌then◌else◌,
}
use mcoro_rpc.Common.Dict.{lookup, erase, insert, remove, add}
use mcoro_rpc.Loop.Selector.{Epoll, Report, new_epoll, event_at}

-- What `make_warped_callback` captures.
pub record WaitCallback : Type 0 where
  pub coro_id : ℕ
  pub user_cb : ℕ

pub record Eventloop : Type 0 where
  pub next_wait_id : ℕ
  pub ready_queue : List ℕ
  pub coro_waits : List (ℕ × List ℕ)
  pub wait_callback : List (ℕ × WaitCallback)
  pub scheduled : List (ℕ × ℕ)
  pub stopped : Bool
  pub epoll : Epoll

-- The counter is value-initialised, so the first wait has the number 0.
unfoldable pub new_loop : Eventloop
unfolding new_epoll
new_loop = record {
  next_wait_id = 0;
  ready_queue = [];
  coro_waits = [];
  wait_callback = [];
  scheduled = [];
  stopped = false;
  epoll = new_epoll;
}

-- `m_coro_waits[id]`, and the insertion and removal of a wait there. An emptied set is erased.
abbrev pub waits_of : ℕ → List (ℕ × List ℕ) → List ℕ
waits_of id waits = elim (lookup id waits) [ none ↦ [] | some s ↦ s ]

abbrev pub add_wait : ℕ → ℕ → List (ℕ × List ℕ) → List (ℕ × List ℕ)
add_wait id wait_id waits = insert id (add wait_id (waits_of id waits)) waits

abbrev pub drop_wait : ℕ → ℕ → List (ℕ × List ℕ) → List (ℕ × List ℕ)
drop_wait id wait_id waits = elim (lookup id waits) [
  | none ↦ waits
  | some s ↦ elim (remove wait_id s) [ [] ↦ erase id waits | w ∷ s' ↦ insert id (w ∷ s') waits ]
]

-- What `call_soon`, `call_at`, `add_writer` and `add_reader` begin with.
abbrev pub new_wait : ℕ → ℕ → Eventloop → Eventloop
new_wait id user_cb l = record l {
  next_wait_id = (l.next_wait_id + 1) % 2 ^ 64;
  wait_callback =
      insert l.next_wait_id (record { coro_id = id; user_cb = user_cb }) l.wait_callback;
  coro_waits = add_wait id l.next_wait_id l.coro_waits;
}

unfoldable pub call_soon : ℕ → ℕ → Eventloop → ℕ × Eventloop
call_soon id user_cb l =
    let l' = new_wait id user_cb l in
    (l.next_wait_id, record l' { ready_queue = l'.ready_queue ++ (l.next_wait_id ∷ []) })

-- `push_heap`
unfoldable pub push_timer : ℕ → ℕ → List (ℕ × ℕ) → List (ℕ × ℕ)
push_timer wait_id when [] = (wait_id, when) ∷ []
push_timer wait_id when ((w, t) ∷ rest) =
    let later = push_timer wait_id when rest in
    if ltb when t then (wait_id, when) ∷ (w, t) ∷ rest else (w, t) ∷ later

unfoldable pub call_at : ℕ → ℕ → ℕ → Eventloop → ℕ × Eventloop
unfolding push_timer
call_at when id user_cb l =
    let l' = new_wait id user_cb l in
    (l.next_wait_id, record l' { scheduled = push_timer l.next_wait_id when l'.scheduled })

-- The end of `add_writer` and `add_reader`, with the answer of the epoll object.
abbrev pub settle_wait : ℕ → ℕ → Bool × Epoll → Eventloop → ℕ × Eventloop
settle_wait id wait_id (ok, epoll) l = if ok then (wait_id, record l { epoll = epoll }) else (
  0,
  record l {
    epoll = epoll;
    wait_callback = erase wait_id l.wait_callback;
    coro_waits = drop_wait id wait_id l.coro_waits;
  },
)

-- `ctl` is whether `epoll_ctl` succeeds.
unfoldable pub add_writer : Bool → ℕ → ℕ → ℕ → Eventloop → ℕ × Eventloop
add_writer ctl fd id user_cb l =
    let l' = new_wait id user_cb l in
    settle_wait id l.next_wait_id (Selector.add_writer ctl fd l.next_wait_id l'.epoll) l'

unfoldable pub add_reader : Bool → ℕ → ℕ → ℕ → Eventloop → ℕ × Eventloop
add_reader ctl fd id user_cb l =
    let l' = new_wait id user_cb l in
    settle_wait id l.next_wait_id (Selector.add_reader ctl fd l.next_wait_id l'.epoll) l'

-- `find_if` and `erase`, then `make_heap`.
unfoldable pub erase_timer : ℕ → List (ℕ × ℕ) → List (ℕ × ℕ)
erase_timer wait_id [] = []
erase_timer wait_id ((w, t) ∷ rest) =
    let later = erase_timer wait_id rest in if w == wait_id then rest else (w, t) ∷ later

unfoldable pub cancel_wait : ℕ → Eventloop → Option WaitCallback × Eventloop
unfolding erase_timer
cancel_wait wait_id l = (
  lookup wait_id l.wait_callback,
  record l {
    wait_callback = erase wait_id l.wait_callback;
    epoll = Selector.cancel_wait wait_id l.epoll;
    scheduled = erase_timer wait_id l.scheduled;
  },
)

pub cancel_waits : List ℕ → Eventloop → Eventloop
unfolding cancel_wait
cancel_waits [] l = l
cancel_waits (w ∷ ws) l = cancel_waits ws (cancel_wait w l).1

pub cancel : ℕ → Eventloop → Eventloop
unfolding cancel_waits
cancel cancelled_id l = elim (lookup cancelled_id l.coro_waits) [
  | none ↦ l
  | some ws ↦
      let l' = cancel_waits ws l in record l' { coro_waits = erase cancelled_id l'.coro_waits }
]

pub stop : Eventloop → Eventloop
stop l = record l { stopped = true }

unfoldable pub is_stop : Eventloop → Bool
is_stop l = l.stopped || elim l.ready_queue [
  | w ∷ ws ↦ false
  | [] ↦ elim l.scheduled [
    | t ∷ ts ↦ false
    | [] ↦ Selector.is_stop l.epoll && elim l.coro_waits [ [] ↦ true | s ∷ ss ↦ false ]
  ]
]

-- One round of `execute_ready_callback` up to the user's callback, which is the answer.
unfoldable pub take_ready : Eventloop → Option ℕ × Eventloop
take_ready l = elim l.ready_queue [
  | [] ↦ (none, l)
  | wait_id ∷ rest ↦ elim (lookup wait_id l.wait_callback) [
    | none ↦ (none, record l { ready_queue = rest })
    | some cb ↦ (
      some cb.user_cb,
      record l {
        ready_queue = rest;
        wait_callback = erase wait_id l.wait_callback;
        coro_waits = drop_wait cb.coro_id wait_id l.coro_waits;
      },
    )
  ]
]

-- The waits that the reports of `epoll_wait` make ready, in their order. The pointer in a report
-- is that of its descriptor's event; `none` stands for one that is no longer there.
pub ready_waits : List Report → Epoll → Option (List ℕ)
ready_waits [] e = some []
ready_waits (r ∷ rs) e = elim (lookup r.fd e.event_map) [
  | none ↦ none
  | some ev ↦ elim (ready_waits rs e) [
    | none ↦ none
    | some later ↦
        let writers = if not (ev.writer == 0) && r.out then ev.writer ∷ later else later in
        some (if not (ev.reader == 0) && r.inp then ev.reader ∷ writers else writers)
  ]
]

pub process_epoll_event : List Report → Eventloop → Option Eventloop
unfolding ready_waits
process_epoll_event reports l = elim (ready_waits reports l.epoll) [
  | none ↦ none
  | some ws ↦ some (record l { ready_queue = l.ready_queue ++ ws })
]

-- The loop of `process_expired_timeout`, on the timers and the ready queue.
pub expire : ℕ → List (ℕ × ℕ) → List ℕ → List (ℕ × ℕ) × List ℕ
expire now [] ready = ([], ready)
expire now ((wait_id, when) ∷ rest) ready =
    let later = expire now rest (ready ++ (wait_id ∷ [])) in
    if leb when now then later else ((wait_id, when) ∷ rest, ready)

pub process_expired_timeout : ℕ → Eventloop → Eventloop
unfolding expire
process_expired_timeout now l =
    let (scheduled, ready_queue) = expire now l.scheduled l.ready_queue in
    record l { scheduled = scheduled; ready_queue = ready_queue }

-- The time to wait, in milliseconds; `none` is the -1 of `epoll_wait`.
pub poll_timeout : ℕ → Eventloop → Option ℕ
poll_timeout now l = elim l.ready_queue [
  | w ∷ ws ↦ some 0
  | [] ↦ elim l.scheduled [
    | [] ↦ none
    | (w, next) ∷ rest ↦ if ltb now next then some ((next - now) / 10 ^ 6) else some 0
  ]
]

-- Over callbacks `run_cb` of the program, with bounds on the rounds; `none` where they are used up.
module _ (run_cb : ℕ → Eventloop → Eventloop) where
  pub execute_ready_callback : ℕ → Eventloop → Option Eventloop
  execute_ready_callback zero l = elim l.ready_queue [ [] ↦ some l | w ∷ ws ↦ none ]
  execute_ready_callback (suc fuel) l = elim l.ready_queue [
    | [] ↦ some l
    | w ∷ ws ↦
        let (found, l') = take_ready l in
        elim found [
          | none ↦ execute_ready_callback fuel l'
          | some cb ↦ execute_ready_callback fuel (run_cb cb l')
        ]
  ]

  -- With the clock at the start and at the end, and the answer of `epoll_wait` to its timeout.
  pub run_once : ℕ → ℕ → ℕ → (Option ℕ → List Report) → Eventloop → Option Eventloop
  run_once fuel now later wait l =
      let timeout_ms = poll_timeout now l in
      elim (execute_ready_callback fuel l) [
        | none ↦ none
        | some l1 ↦
            let timeout_ms' = elim l1.ready_queue as (λ _. Option ℕ) [
              | [] ↦ timeout_ms
              | w ∷ ws ↦ some 0
            ] in
            elim (process_epoll_event (wait timeout_ms') l1) [
              | none ↦ none
              | some l2 ↦ elim (execute_ready_callback fuel l2) [
                | none ↦ none
                | some l3 ↦ some (process_expired_timeout later l3)
              ]
            ]
      ]
