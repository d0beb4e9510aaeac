-- ===== src/Tests/Tasks.antt =====
-- Coroutines on an event loop.
use mcoro_rpc.Common.{ℕ, ◌+◌, ◌≤◌, ◌≡◌, refl, [], some, none, true, false, Option, arith}
use mcoro_rpc.Loop.{new_loop, call_soon, take_ready}
use mcoro_rpc.Handle.{generator_id, schedule_on, unschedule}
use mcoro_rpc.Task.{
  Ending, returned, threw, thrown_by_program, Body, ends, creates, awaits, schedules, Frame,
  Runtime, initial, new_task, schedule_task, await_ready, await_resume, await_suspend, run_body,
  run, round, rounds, complete, final_suspend, suspend_on, TaskResult,
}
use mcoro_rpc.Task.Structured.{Program, gives, calls, body_of, run_program}

-- A runtime that has given out three ids, and has no frames left.
abbrev idle : Runtime ℕ
idle = record { frames = λ j. none; last_id = 3; loop = new_loop }

-- Calls a coroutine that throws, and answers 7 to its exception, or what it gives and one more.
abbrev answered : Ending ℕ → Program ℕ
answered (returned v) = gives (returned (v + 1))
answered (threw x) = gives (returned 7)

abbrev catching : Program ℕ
catching = calls (calls (gives (threw (thrown_by_program 2))) (λ e. gives e)) answered

run_program_example :
    let (task, r0) = new_task (body_of catching) idle in
    (k : ℕ) × (r1 r2 : Runtime ℕ) × (schedule_task (some task) r0 ≡ some r1)
    × (rounds k r1 ≡ some r2)
    × (await_ready (some task) r2 ≡ some true)
    × (await_resume (some task) r2 ≡ some (returned 7))
    × (r2.loop.ready_queue ≡ [])
    × ((j : ℕ) → j ≤ 3 → r2.frames j ≡ none)
unfolding new_loop
run_program_example = run_program catching idle refl (omega arith)

abbrev waiting : Frame ℕ
waiting = record {
  handle = record { state = unschedule; id = 3 };
  parent = none;
  is_cancelled = false;
  result = TaskResult.monostate;
  point = initial (ends (returned 5));
}

abbrev holding : Runtime ℕ
holding = record { frames = λ j. some waiting; last_id = 3; loop = new_loop }

-- A task that is scheduled and then awaited is in the ready queue twice, as `schedule` leaves the
-- state as it is: its frame is resumed when it has ended.
abbrev twice : Body ℕ
twice = creates (ends (returned 5)) (λ c. schedules (some c) (awaits (some c) ends))

abbrev scheduled_twice : Option (Runtime ℕ)
scheduled_twice =
    let (task, r0) = new_task twice idle in
    elim (schedule_task (some task) r0) [ none ↦ some idle | some r1 ↦ rounds 3 r1 ]

twice_resumed : scheduled_twice ≡ none
unfolding new_task schedule_task await_ready await_resume await_suspend run_body run round rounds
    complete final_suspend suspend_on take_ready call_soon generator_id schedule_on new_loop
twice_resumed = refl
