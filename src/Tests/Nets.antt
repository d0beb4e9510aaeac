-- ===== src/Tests/Nets.antt =====
-- Connections that are made, refused and accepted.
use mcoro_rpc.Common.{
  Bool, false, if◌then◌else◌, Bytes, codes, same, ℕ, ◌≡◌, refl, inl, inr, List, [], ◌∷◌, ◌++◌, true,
  none, some, arith, replicate,
}
use mcoro_rpc.Common.Dict.{lookup}
use mcoro_rpc.Common.Decimal.{digits}
use mcoro_rpc.Rpc.Client.{colon}
use mcoro_rpc.Rpc.Dispatcher.Names.{Lacks}
use mcoro_rpc.Net.Address.{
  create, from_text, from_sock_addr, to_string, is_valid, is_valid_text, inaddr_none,
  from_text-to_string,
}
use mcoro_rpc.Net.{open_fds, closes}
use mcoro_rpc.Net.Connector.{
  Address, AllFail, at_once, in_progress, do_connect, connect, connect_lem, stream, no_address,
}
use mcoro_rpc.Net.Service.{
  accept, accept_within, accept_within_lem, accepts, nobody, waiting, timeout_exception,
}
use mcoro_rpc.Net.Server.{ServerTurn}
use mcoro_rpc.Net.Service.{accepted}
use mcoro_rpc.Loop.{add_wait, is_stop}
use mcoro_rpc.Loop.Awaiters.{new_awaiter, read_suspend, destroy_awaiter, destroy-read_suspend}
use mcoro_rpc.Tests.Loops.{busy}

-- One address without a socket, and one whose connection fails in the end.
abbrev failing : List Address
failing =
    record { socket = none; answer = at_once }
    ∷ record { socket = some 4; answer = in_progress (some 111) }
    ∷ []

abbrev good : Address
good = record { socket = some 5; answer = in_progress (some 0) }

failing-AllFail : AllFail failing
unfolding do_connect
failing-AllFail = (inl refl, (inr (4, refl, refl), tt))

good_connects : do_connect good.answer ≡ some true
unfolding do_connect
good_connects = refl

connect_lem_example :
    ((connect (some failing)).0 ≡ no_address)
    × (open_fds (connect (some failing)).1 (3 ∷ []) ≡ 3 ∷ [])
    × ((connect (some (failing ++ (good ∷ failing)))).0 ≡ stream 5)
    × (open_fds (connect (some (failing ++ (good ∷ failing)))).1 (3 ∷ []) ≡ 5 ∷ 3 ∷ [])
connect_lem_example =
    connect_lem failing failing good 5 true (3 ∷ []) failing-AllFail refl good_connects

accept_within_lem_example :
    (accept_within 1 true (accept (replicate 2 nobody)) ≡ (waiting, []))
    × (accept_within 1 true
          (accept (replicate 2 nobody ++ (record nobody { answer = accepts 7 } ∷ [])))
        ≡ (timeout_exception, closes 7 ∷ []))
accept_within_lem_example = accept_within_lem 2 1 7 [] true

destroy-read_suspend_example :
    let (a, l1) = read_suspend true 7 60 (new_awaiter 5) busy in
    let l2 = destroy_awaiter a l1 in
    (lookup 4 l1.wait_callback ≡ some (record { coro_id = 7; user_cb = 60 }))
    × (lookup 4 l2.wait_callback ≡ none)
    × (lookup 4 l2.epoll.wait_to_fd ≡ none)
    × (lookup 6 l2.epoll.event_map ≡ none)
    × (l2.coro_waits ≡ add_wait 7 4 busy.coro_waits)
    × (is_stop l2 ≡ false)
destroy-read_suspend_example =
    destroy-read_suspend 5 7 60 6 busy (omega arith) (omega arith) refl (omega arith)

-- The system's reading and printing of one address.
abbrev read_home : Bytes → ℕ
read_home ip = if same ip (codes "127.0.0.1") then 0x0100007f else inaddr_none

abbrev print_home : ℕ → Bytes
print_home n = codes "127.0.0.1"

home-Lacks : Lacks colon (codes "127.0.0.1")
home-Lacks = ground arith

from_text-to_string_example :
    let a = create read_home (codes "127.0.0.1") 8080 in
    (from_text read_home (to_string a) ≡ some a)
    × (from_sock_addr print_home a.addr ≡ a)
    × (is_valid_text (to_string a) ≡ some true)
    × (is_valid read_home a ≡ true)
from_text-to_string_example =
    from_text-to_string read_home print_home (codes "127.0.0.1") 8080 home-Lacks (omega arith) refl

printed : to_string (create read_home (codes "127.0.0.1") 8080) ≡ codes "127.0.0.1:8080"
unfolding create to_string digits
printed = refl

abbrev turn : Bool → ℕ → ℕ → ServerTurn
turn stopping fired fd = record {
  stop_before = false;
  stop_behind = stopping;
  fired = fired;
  is_open = true;
  found = accepted fd;
}

-- A client in time, one that comes behind the limit, and one as the server is told to stop.
abbrev told : ServerTurn
told = turn true 0 9

abbrev early : List ServerTurn
early = turn false 0 7 ∷ turn false 2 8 ∷ []
