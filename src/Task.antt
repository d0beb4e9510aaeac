-- ===== src/Task.antt =====
-- Coroutines and their tasks: include/coro/task.hpp and include/coro/taskresult.hpp, over the event
-- loop. The compiler makes of a coroutine's body a frame that runs up to its next suspension: a body
-- is data here, and runs as the language says. A frame is known by the id of its handle, which is
-- also the number of the callback that resumes it. `none` stands for undefined behaviour: a use of a
-- frame that is destroyed, a resumption of one that has ended, or a failed `assert`.
pub mod Calls
pub mod Back
pub mod Cancel
pub mod Structured
use mcoro_rpc.Common.{
  ℕ, zero, suc, ◌+◌, ◌≡◌, List, [], ◌∷◌, Bool, true, false, Option, none, some, ◌==◌, if◌then◌else◌,
}
use mcoro_rpc.Loop.{Eventloop, call_soon, cancel, take_ready}
use mcoro_rpc.Handle.{
  State, unschedule, schedule, suspend, CoroHandle, generator_id, schedule_on, cancel_handle,
}

-- An exception of the program, and those that the library throws.
pub data Exception : Type 0 where
  thrown_by_program : ℕ → Exception
  no_result invalid_future : Exception

-- How a coroutine ends, and what an awaiting one sees.
pub data Ending (V : Type 0) : Type 0 where
  returned : V → Ending V
  threw : Exception → Ending V

-- `m_result` of `TaskResult`
pub data TaskResult (V : Type 0) : Type 0 where
  monostate : TaskResult V
  value : V → TaskResult V
  exception : Exception → TaskResult V

-- A body: it ends, or it calls a coroutine function and has its task, awaits a task, schedules or
-- cancels one, and goes on. What `co_await` throws is an argument of the rest, which may catch it, and
-- so is what `cancel` leaves of the task.
pub data Body (V : Type 0) : Type 0 where
  ends : Ending V → Body V
  creates : Body V → (ℕ → Body V) → Body V
  awaits : Option ℕ → (Ending V → Body V) → Body V
  schedules : Option ℕ → Body V → Body V
  cancels : Option ℕ → (Option ℕ → Body V) → Body V

-- Where a frame is suspended: at its beginning, in a `co_await` of a task, or at its end.
pub data Point (V : Type 0) : Type 0 where
  initial : Body V → Point V
  awaiting : ℕ → (Ending V → Body V) → Point V
  final : Point V

-- `Promise` with the frame around it. A task is its handle, an `Option ℕ`.
pub record Frame (V : Type 0) : Type 0 where
  pub handle : CoroHandle
  pub parent : Option ℕ
  pub is_cancelled : Bool
  pub result : TaskResult V
  pub point : Point V

-- The frames, the last id given out, and the loop of the thread.
pub record Runtime (V : Type 0) : Type 0 where
  pub frames : ℕ → Option (Frame V)
  pub last_id : ℕ
  pub loop : Eventloop

module _ {V : Type 0} where
  abbrev pub has_value : TaskResult V → Bool
  has_value monostate = false
  has_value (value v) = true
  has_value (exception x) = true

  -- `return_value` and `unhandled_exception`
  abbrev pub set_result : Ending V → TaskResult V
  set_result (returned v) = value v
  set_result (threw x) = exception x

  abbrev pub get_result : TaskResult V → Ending V
  get_result (exception x) = threw x
  get_result (value v) = returned v
  get_result monostate = threw no_result

  abbrev pub changed : Bool → (Frame V → Frame V) → Option (Frame V) → Option (Frame V)
  changed b g none = none
  changed true g (some f) = some (g f)
  changed false g (some f) = some f

  abbrev pub change : ℕ → (Frame V → Frame V) → (ℕ → Option (Frame V)) → ℕ → Option (Frame V)
  change n g frames j = changed (n == j) g (frames j)

  abbrev pub place : ℕ → Option (Frame V) → (ℕ → Option (Frame V)) → ℕ → Option (Frame V)
  place n f frames j = if n == j then f else frames j

  abbrev pub set_state : State → Frame V → Frame V
  set_state s f = record f { handle = record f.handle { state = s } }

  -- A call of a coroutine function: the frame is made, and suspends before the body.
  unfoldable pub new_task : Body V → Runtime V → ℕ × Runtime V
  new_task body r =
      let id = generator_id r.last_id in
      let f : Frame V = record {
        handle = record { state = unschedule; id = id };
        parent = none;
        is_cancelled = false;
        result = monostate;
        point = initial body;
      } in
      (id, record r { frames = place id (some f) r.frames; last_id = id })

  abbrev pub is_final : Point V → Bool
  is_final final = true
  is_final _ = false

  -- `Task::done`, and `await_ready`
  unfoldable pub await_ready : Option ℕ → Runtime V → Option Bool
  await_ready none r = some true
  await_ready (some c) r = elim (r.frames c) [ none ↦ none | some f ↦ some (is_final f.point) ]

  unfoldable pub schedule_task : Option ℕ → Runtime V → Option (Runtime V)
  schedule_task none r = some r
  schedule_task (some c) r = elim (r.frames c) [
    | none ↦ none
    | some f ↦ some (record r { loop = schedule_on c f.handle r.loop })
  ]

  -- `await_suspend` in the coroutine `n`, which awaits the task of the frame `c`.
  unfoldable pub await_suspend : ℕ → ℕ → Runtime V → Option (Runtime V)
  await_suspend n c r = elim (r.frames c) [
    | none ↦ none
    | some f ↦ elim f.parent [
      | some _ ↦ none
      | none ↦
          let suspended = change n (set_state suspend) r.frames in
          let adopted = change c (λ child. record child { parent = some n }) suspended in
          schedule_task (some c) (record r { frames = adopted })
    ]
  ]

  unfoldable pub await_resume : Option ℕ → Runtime V → Option (Ending V)
  await_resume none r = some (threw invalid_future)
  await_resume (some c) r = elim (r.frames c) [ none ↦ none | some f ↦ some (get_result f.result) ]

  -- `FinalAwaiter::await_suspend`
  unfoldable pub final_suspend : Option ℕ → Runtime V → Option (Runtime V)
  final_suspend none r = some r
  final_suspend (some p) r = elim (r.frames p) [
    | none ↦ none
    | some f ↦ some (record r {
      frames = change p (set_state schedule) r.frames;
      loop = (call_soon f.handle.id p r.loop).1;
    })
  ]

  -- `Task::cancel`, with the destruction of the frame and of the handle in it: the task behind it, and
  -- the runtime.
  unfoldable pub cancel_task : Option ℕ → Runtime V → Option (Option ℕ × Runtime V)
  cancel_task none r = some (none, r)
  cancel_task (some c) r = elim (r.frames c) [
    | none ↦ none
    | some f ↦
        let destroyed : Runtime V = record r {
          frames = place c none r.frames;
          loop = (cancel_handle f.handle (cancel f.handle.id r.loop)).1;
        } in
        some (if is_final f.point then (some c, r) else (none, destroyed))
  ]

  -- The end of the body of `n`.
  unfoldable pub complete : ℕ → Ending V → Runtime V → Option (Runtime V)
  complete n ending r = elim (r.frames n) [
    | none ↦ none
    | some f ↦
        let ended = λ (g : Frame V). record g { result = set_result ending; point = final } in
        final_suspend f.parent (record r { frames = change n ended r.frames })
  ]

  -- The suspension of `n` in a `co_await`, where the task is not ready.
  unfoldable pub suspend_on : ℕ → Option ℕ → (Ending V → Body V) → Runtime V → Option (Runtime V)
  suspend_on n none rest r = none
  suspend_on n (some c) rest r =
      let at_await = λ (g : Frame V). record g { point = awaiting c rest } in
      await_suspend n c (record r { frames = change n at_await r.frames })

  -- The body of `n` up to its next suspension.
  unfoldable pub run_body : ℕ → Body V → Runtime V → Option (Runtime V)
  run_body n (ends ending) r = complete n ending r
  run_body n (creates body rest) r = let (c, r') = new_task body r in run_body n (rest c) r'
  run_body n (awaits task rest) r = elim (await_ready task r) [
    | none ↦ none
    | some true ↦ elim (await_resume task r) [ none ↦ none | some seen ↦ run_body n (rest seen) r ]
    | some false ↦ suspend_on n task rest r
  ]
  run_body n (schedules task rest) r = elim (schedule_task task r) [
    | none ↦ none
    | some r' ↦ run_body n rest r'
  ]
  run_body n (cancels task rest) r = elim (cancel_task task r) [
    | none ↦ none
    | some (task', r') ↦ run_body n (rest task') r'
  ]

  -- `Promise::run`
  unfoldable pub run : ℕ → Runtime V → Option (Runtime V)
  run n r = elim (r.frames n) [
    | none ↦ none
    | some f ↦ elim f.point [
      | initial body ↦ run_body n body r
      | awaiting c rest ↦ elim (await_resume (some c) r) [
        | none ↦ none
        | some seen ↦ run_body n (rest seen) r
      ]
      | final ↦ none
    ]
  ]

  -- A round of the ready callbacks.
  unfoldable pub round : Runtime V → Option (Runtime V)
  round r =
      let (found, l) = take_ready r.loop in
      elim found [ none ↦ some (record r { loop = l }) | some cb ↦ run cb (record r { loop = l }) ]

  unfoldable pub rounds : ℕ → Runtime V → Option (Runtime V)
  rounds zero r = some r
  rounds (suc k) r = elim (round r) [ none ↦ none | some r' ↦ rounds k r' ]
