-- ===== src/Net/Server.antt =====
-- The server of include/net/tcpserver.hpp: the loop that hands connections to `handle_client`.
use mcoro_rpc.Common.{◌∙◌, ℕ, ◌≡◌, ◌∙◌, List, [], ◌∷◌, ◌++◌, Bool, true, false, ltb, if◌then◌else◌}
use mcoro_rpc.Net.{SysCall, opens, closes}
use mcoro_rpc.Net.Service.{
  Accepted, accepted, pending, TimedAccept, connection, timeout_exception, closed_exception,
  failed_exception, waiting, accept_within,
}

-- A round of `run`: whether the server is told to stop before and behind its wait, what `accept`
-- finds, how often its limit passed before, and whether the service is open.
pub record ServerTurn : Type 0 where
  pub stop_before : Bool
  pub stop_behind : Bool
  pub fired : ℕ
  pub is_open : Bool
  pub found : Accepted

abbrev pub opened : Accepted → List SysCall
opened (accepted fd) = opens fd ∷ []
opened _ = []

-- A turn goes on with the streams and calls of those behind it.
pub take_turn : Bool → TimedAccept → List SysCall → List ℕ × List SysCall → List ℕ × List SysCall
take_turn true (connection fd) calls later = ([], calls ++ (closes fd ∷ []))
take_turn false (connection fd) calls later = (fd ∷ later.0, calls ++ later.1)
take_turn stopped timeout_exception calls later = (later.0, calls ++ later.1)
take_turn stopped closed_exception calls later = ([], calls)
take_turn stopped failed_exception calls later = ([], calls)
take_turn stopped waiting calls later = ([], calls)

-- `run`, with the streams that go to `handle_client`. Its tasks hold them, and never run or end.
pub serve : List ServerTurn → List ℕ × List SysCall
serve [] = ([], [])
serve (t ∷ ts) =
    let later = serve ts in
    let (answer, calls) = accept_within t.fired t.is_open t.found in
    if t.stop_before
    then ([], [])
    else take_turn t.stop_behind answer (opened t.found ++ calls) later

abbrev pub with_all : List ℕ → List ℕ → List ℕ
with_all [] fds = fds
with_all (fd ∷ more) fds = with_all more (fd ∷ fds)

-- What a turn with a limit answers and closes.
abbrev pub answer_of : ℕ → Bool → Accepted → TimedAccept × List SysCall
answer_of fired is_open (accepted fd) =
    if ltb 0 fired then (timeout_exception, closes fd ∷ []) else (connection fd, [])
answer_of fired is_open pending = (waiting, [])
answer_of fired is_open _ =
    if ltb 0 fired
    then (timeout_exception, [])
    else (if is_open then (failed_exception, []) else (closed_exception, []))

-- In each turn a client comes, in time or behind the limit, and the server is not told to stop.
abbrev pub Goes : List ServerTurn → Type 0
Goes [] = Unit {0}
Goes (t ∷ ts) =
    (t.stop_before ≡ false)
    × (t.stop_behind ≡ false)
    × ((fd : ℕ) × (t.found ≡ accepted fd))
    × Goes ts

-- The clients that come in time.
abbrev pub fd_of : Accepted → List ℕ
fd_of (accepted fd) = fd ∷ []
fd_of _ = []

abbrev pub in_time : List ServerTurn → List ℕ
in_time [] = []
in_time (t ∷ ts) = let rest = in_time ts in if ltb 0 t.fired then rest else fd_of t.found ++ rest
