-- ===== src/Net/Service.antt =====
-- The listening service: include/net/tcpservice.hpp.
use mcoro_rpc.Common.{
  ℕ, zero, suc, ◌≡◌, refl, ap, ◌∙◌, List, [], ◌∷◌, ◌++◌, Bool, true, false, Option, none, some, ltb,
  if◌then◌else◌, Bool-cases, Option-cases, inl, inr, replicate, arith,
}
use mcoro_rpc.Net.{SysCall, opens, closes, open_fds, open-close, with_fd, close_one}
use mcoro_rpc.WaitFor.{Event, fires, ending, wait_for, wait_for_lem}

-- An address to listen on, with the socket made for it and whether `bind` succeeds.
pub record Local : Type 0 where
  pub socket : Option ℕ
  pub binds : Bool

-- The loop over the addresses.
pub bind_first : List Local → Option ℕ × List SysCall
bind_first [] = (none, [])
bind_first (a ∷ rest) =
    let (later, calls) = bind_first rest in
    elim a.socket [
      | none ↦ (later, calls)
      | some fd ↦
          if a.binds then (some fd, opens fd ∷ []) else (later, opens fd ∷ closes fd ∷ calls)
    ]

-- `listen` and `close` fail on the descriptor -1.
abbrev pub close_fd : Option ℕ → List SysCall
close_fd none = []
close_fd (some fd) = closes fd ∷ []

-- `start_tcp_service`, with the service's descriptor; `listens` is whether `listen` succeeds.
pub start_tcp_service : Bool → List Local → Option ℕ × List SysCall
start_tcp_service listens locals =
    let (listenfd, calls) = bind_first locals in
    if listens then (listenfd, calls) else (listenfd, calls ++ close_fd listenfd)

-- `TcpService::close`
unfoldable pub close : Option ℕ → Option ℕ × List SysCall
close listen_fd = (none, close_fd listen_fd)

-- What `accept4` answers.
pub data AcceptAnswer : Type 0 where
  accepts : ℕ → AcceptAnswer
  would_block accept_fails : AcceptAnswer

-- A round of `accept`: whether the service is open before and behind its wait, and the answer.
pub record Turn : Type 0 where
  pub open_before : Bool
  pub open_behind : Bool
  pub answer : AcceptAnswer

pub data Accepted : Type 0 where
  accepted : ℕ → Accepted
  service_closed accept_failed pending : Accepted

-- `accept`; `pending` where the rounds are used up.
pub accept : List Turn → Accepted
accept [] = pending
accept (t ∷ ts) =
    let later = accept ts in
    let answered : Accepted = elim t.answer [
      | accepts fd ↦ accepted fd
      | would_block ↦ later
      | accept_fails ↦ accept_failed
    ] in
    if t.open_before then (if t.open_behind then answered else service_closed) else service_closed

pub data TimedAccept : Type 0 where
  connection : ℕ → TimedAccept
  timeout_exception closed_exception failed_exception waiting : TimedAccept

-- Whether the awaited `accept` returns, and the descriptor of a stream that goes out of scope.
abbrev pub returns_stream : Accepted → Bool
returns_stream (accepted fd) = true
returns_stream _ = false

abbrev pub dropped : Accepted → List SysCall
dropped (accepted fd) = closes fd ∷ []
dropped _ = []

-- The events of the wait: the timer has gone off so often before `accept` ends, if it does.
abbrev pub events : ℕ → Accepted → List Event
events fired pending = replicate fired fires
events fired a = replicate fired fires ++ (ending (returns_stream a) ∷ [])

abbrev pub value_of : Accepted → TimedAccept
value_of (accepted fd) = connection fd
value_of _ = failed_exception

-- `accept` with a time limit, `is_open` being what it finds of the service behind the wait.
unfoldable pub accept_within : ℕ → Bool → Accepted → TimedAccept × List SysCall
accept_within fired is_open a = elim (wait_for (events fired a)) [
  | none ↦ (waiting, [])
  | some r ↦
      if r.is_timeout
      then (timeout_exception, dropped a)
      else (if r.ok
          then (value_of a, [])
          else (if is_open then (failed_exception, []) else (closed_exception, [])))
]

pub open_fds-append :
    (calls more : List SysCall) (fds : List ℕ)
    → open_fds (calls ++ more) fds ≡ open_fds more (open_fds calls fds)
open_fds-append [] more fds = refl
open_fds-append (opens fd ∷ calls) more fds = open_fds-append calls more (fd ∷ fds)
open_fds-append (closes fd ∷ calls) more fds = open_fds-append calls more (close_one fd fds)

bind_first_leaves :
    (locals : List Local) (fds : List ℕ)
    → open_fds (bind_first locals).1 fds ≡ with_fd (bind_first locals).0 fds
unfolding bind_first
bind_first_leaves [] fds = refl
bind_first_leaves (a ∷ rest) fds = elim (Option-cases a.socket) [
  | inl e ↦ rw (e, bind_first) (bind_first_leaves rest fds)
  | inr (fd, e) ↦ elim (Bool-cases a.binds) [
    | inl b ↦ rw (e, b, bind_first) refl
    | inr b ↦
        rw (e, b, bind_first) (open-close fd (bind_first rest).1 fds ∙ bind_first_leaves rest fds)
  ]
]

closed_again : (fd : Option ℕ) (fds : List ℕ) → open_fds (close_fd fd) (with_fd fd fds) ≡ fds
closed_again none fds = refl
closed_again (some fd) fds = ground arith

-- Of all the sockets that are made to listen, the only one that is left open is that of the service,
-- and none where `listen` fails; the service then has the number of a closed descriptor all the same.
pub start_tcp_service_lem :
    (listens : Bool) (locals : List Local) (fds : List ℕ)
    → ((start_tcp_service listens locals).0 ≡ (bind_first locals).0)
      × (open_fds (start_tcp_service listens locals).1 fds
          ≡ (if listens then with_fd (bind_first locals).0 fds else fds))
unfolding start_tcp_service
start_tcp_service_lem true locals fds = (refl, bind_first_leaves locals fds)
start_tcp_service_lem false locals fds =
    let (fd, calls) = bind_first locals in
    (
      refl,
      open_fds-append calls (close_fd fd) fds
          ∙ ap (open_fds (close_fd fd)) (bind_first_leaves locals fds)
          ∙ closed_again fd fds,
    )

-- A round that finds nobody.
abbrev pub nobody : Turn
nobody = record { open_before = true; open_behind = true; answer = would_block }

accept_later :
    (n fd : ℕ) (later : List Turn)
    → accept (replicate n nobody ++ (record nobody { answer = accepts fd } ∷ later)) ≡ accepted fd
unfolding accept
accept_later zero fd later = refl
accept_later (suc n) fd later = accept_later n fd later

accept_none : (n : ℕ) → accept (replicate n nobody) ≡ pending
unfolding accept
accept_none zero = refl
accept_none (suc n) = accept_none n

-- A service with a time limit waits for a client however many rounds it takes, and however often
-- its limit passes. Where the limit has not passed when the client comes, the connection is given
-- out and left open; where it has passed, the client's connection is closed, and an exception says
-- that nobody came.
pub accept_within_lem :
    (rounds fired fd : ℕ) (later : List Turn) (is_open : Bool)
    → (accept_within fired is_open (accept (replicate rounds nobody)) ≡ (waiting, []))
      × (accept_within fired is_open
            (accept (replicate rounds nobody ++ (record nobody { answer = accepts fd } ∷ later)))
          ≡ (if ltb 0 fired then (timeout_exception, closes fd ∷ []) else (connection fd, [])))
unfolding accept_within
accept_within_lem rounds fired fd later is_open =
    let (waits, comes) = wait_for_lem fired true [] in
    (
      ap (accept_within fired is_open) (accept_none rounds) ∙ rw (waits, accept_within) refl,
      ap (accept_within fired is_open) (accept_later rounds fd later)
          ∙ rw (comes, accept_within) refl,
    )
