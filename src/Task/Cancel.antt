-- ===== src/Task/Cancel.antt =====
-- A task that is cancelled.
use mcoro_rpc.Common.{ℕ, ◌≡◌, none}
use mcoro_rpc.Common.Dict.{lookup}
use mcoro_rpc.Loop.{Eventloop}
use mcoro_rpc.Loop.Tracked.{IsTracked}
use mcoro_rpc.Loop.Cancel.{NoneOf}

-- Nothing of the handle is left in the loop.
abbrev pub Forgotten : ℕ → Eventloop → Type 0
Forgotten id l = NoneOf id l.wait_callback × (lookup id l.coro_waits ≡ none) × IsTracked l
