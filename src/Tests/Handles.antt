-- ===== src/Tests/Handles.antt =====
-- Timers, and instances in turn.
use mcoro_rpc.Common.{ℕ, ◌++◌, ◌≡◌, none, List, [], ◌∷◌, some, true, arith, Bytes, codes}
use mcoro_rpc.Common.Dict.{lookup}
use mcoro_rpc.Loop.Tracked.{IsTracked}
use mcoro_rpc.Loop.Cancel.{NoneOf}
use mcoro_rpc.Loop.{Eventloop}
use mcoro_rpc.Loop.Timers.{IsSorted}
use mcoro_rpc.Tests.Loops.{busy, busy-IsTracked}
use mcoro_rpc.Handle.Sleep.{
  SleepAwaiter, sleep_for, sleep_suspend, cancel_sleep, destroy_sleep, ready_at, sleep_suspend_lem,
}
use mcoro_rpc.Handle.{run, Timer}
use mcoro_rpc.Rpc.Discovery.{join, get_instances, get_instances-join, AllNames}

abbrev instances : List Bytes
instances = codes "a:1" ∷ codes "b:2" ∷ []

instances-AllNames : AllNames instances
instances-AllNames = ground arith

get_instances-join_example : get_instances true (some (join instances)) ≡ instances
get_instances-join_example = get_instances-join instances instances-AllNames

busy-IsSorted : IsSorted busy.scheduled
busy-IsSorted = ground arith

sleep_suspend_lem_example :
    let (a, l1) = sleep_suspend 9 50 60 5 (sleep_for 20) busy in
    (ready_at 24 l1 ≡ ready_at 24 busy)
    × ((pre post : List ℕ) × (ready_at 42 busy ≡ pre ++ post)
        × (ready_at 42 l1 ≡ pre ++ (4 ∷ post)))
    × (lookup 4 l1.wait_callback ≡ some (record { coro_id = 9; user_cb = 50 }))
    × ((t t' : Timer) × (a' : SleepAwaiter) × (l2 : Eventloop) × (a.timer ≡ some t)
        × ((run t).0 ≡ some 60)
        × (cancel_sleep a l1 ≡ some (a', l2))
        × (a'.timer ≡ some t')
        × ((run t').0 ≡ none))
    × NoneOf 9 (destroy_sleep a l1).wait_callback
    × (lookup 9 (destroy_sleep a l1).coro_waits ≡ none)
    × IsTracked (destroy_sleep a l1)
sleep_suspend_lem_example =
    sleep_suspend_lem 9 50 60 5 20 24 42 busy (omega arith) (omega arith) busy-IsSorted
      busy-IsTracked
