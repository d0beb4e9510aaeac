-- ===== src/Task/Structured.antt =====
-- Coroutines that call each other and await what they called.
use mcoro_rpc.Common.{
  ℕ, suc, ◌+◌, ◌^◌, ◌≤◌, ◌<◌, ◌≡◌, refl, ap, ◌∙◌, [], true, false, none, some, arith,
}
use mcoro_rpc.Loop.{call_soon}
use mcoro_rpc.Handle.{unschedule, generator_id, schedule_on}
use mcoro_rpc.Task.{
  TaskResult, Ending, Body, new_task, schedule_task, await_ready, place, ends, creates, awaits,
  Frame, Runtime, initial, run_body, round, rounds, await_resume,
}
use mcoro_rpc.Task.Calls.{
  ParentOf, Ended, complete-Ended, call_soon-IsNext, call_begins, round_next, rounds_more,
}
use mcoro_rpc.Task.Back.{
  started, round_lem, called-Ended, called-ParentOf, turn_to_caller, caller-Ended, caller-ParentOf,
}

-- A program: it ends, or it calls another, and goes on with how that one ended.
pub data Program (V : Type 0) : Type 0 where
  gives : Ending V → Program V
  calls : Program V → (Ending V → Program V) → Program V

module _ {V : Type 0} where
  -- What the program computes.
  abbrev pub eval : Program V → Ending V
  eval (gives e) = e
  eval (calls p rest) = eval (rest (eval p))

  -- The calls that it makes.
  abbrev pub call_count : Program V → ℕ
  call_count (gives e) = 0
  call_count (calls p rest) = 1 + call_count p + call_count (rest (eval p))

  -- The program with each call as a task that is awaited.
  abbrev pub body_of : Program V → Body V
  body_of (gives e) = ends e
  body_of (calls p rest) = creates (body_of p) (λ c. awaits (some c) (λ seen. body_of (rest seen)))

  chain :
      (k1 k2 : ℕ) (r1 r2 r3 r4 r5 : Runtime V)
      → round r1 ≡ some r2
      → rounds k1 r2 ≡ some r3
      → round r3 ≡ some r4
      → rounds k2 r4 ≡ some r5
      → rounds (suc (k1 + suc k2)) r1 ≡ some r5
  chain k1 k2 r1 r2 r3 r4 r5 first middle later last =
      round_lem (k1 + suc k2) r1 r2 first
      ∙ rounds_more k1 (suc k2) r2 r3 middle
      ∙ round_lem k2 r3 r4 later
      ∙ last

  -- A coroutine `n` that runs the program, where nothing else is ready.
  computes :
      (p : Program V) (n : ℕ) (r : Runtime V) (f : Frame V)
      → r.frames n ≡ some f
      → n ≤ r.last_id
      → r.last_id + call_count p < 2 ^ 32
      → r.loop.ready_queue ≡ []
      → ParentOf n r.last_id f.parent r.frames
      → (k : ℕ) × (r1 r2 : Runtime V) × (run_body n (body_of p) r ≡ some r1)
        × (rounds k r1 ≡ some r2)
        × Ended n r.last_id f.parent (eval p) r.frames r2
        × (r2.last_id ≡ r.last_id + call_count p)
  unfolding run_body rounds
  computes (gives e) n r f here old low idle above =
      let (r', go, over, last) = complete-Ended n r.last_id e r f here idle above in
      (0, r', r', go, refl, over, last ∙ omega arith)
  computes (calls p rest) n r f here old low idle above =
      let c = r.last_id + 1 in
      let then : Ending V → Body V = λ seen. body_of (rest seen) in
      let (r1, go1, called) =
        call_begins n (body_of p) then r f here old (omega (arith, low)) idle in
      let (l1, turn1, idle1) = round_next c r1 called.called_next in
      let r1' : Runtime V = record r1 { loop = l1 } in
      let (k1, r2, r3, go2, turns2, over, last3) =
        computes p c r1' called.callee called.is_callee (omega (arith, called.called_last))
          (omega (arith, low, called.called_last)) idle1
          (called-ParentOf n c (body_of p) then f r r1 old refl called) in
      let back = called-Ended n c (body_of p) then (eval p) f r r1 r3 old refl called over in
      let (l3, turn3, idle3) = round_next n r3 back.is_next in
      let r3' : Runtime V = record r3 { loop = l3 } in
      let grown : r.last_id ≤ r3.last_id = omega (arith, last3, called.called_last) in
      let (k2, r4, r5, go4, turns4, over5, last5) =
        computes (rest (eval p)) n r3' back.caller back.is_caller (omega (arith, old, grown))
          (omega (arith, low, last3, called.called_last)) idle3
          (caller-ParentOf n c r3.last_id then (eval p) f r r3 grown back above) in
      let first : round r1 ≡ some r2 =
        turn1 ∙ started c (body_of p) r1' called.callee called.is_callee called.begins ∙ go2 in
      let later : round r3 ≡ some r4 =
        turn3 ∙ turn_to_caller n c then (eval p) f r r3 l3 back ∙ go4 in
      (
        suc (k1 + suc k2),
        r1,
        r5,
        go1,
        chain k1 k2 r1 r2 r3 r4 r5 first turns2 later turns4,
        caller-Ended n c r3.last_id then (eval p) (eval (rest (eval p))) f r r3 r5 grown back over5,
        omega (arith, last5, last3, called.called_last),
      )

  -- A program whose calls are tasks that are awaited computes what it says: called and scheduled
  -- where nothing else is ready, it is done after finitely many rounds of the loop, of which none
  -- resumes a frame that has ended or is gone; its task then has the value of the program, or throws
  -- its exception, nothing is left to do, and the frames that were there are as they were. The
  -- counter of ids does not wrap.
  pub run_program :
      (p : Program V) (r : Runtime V)
      → r.loop.ready_queue ≡ []
      → r.last_id + 1 + call_count p < 2 ^ 32
      → let (task, r0) = new_task (body_of p) r in
        (k : ℕ) × (r1 r2 : Runtime V) × (schedule_task (some task) r0 ≡ some r1)
        × (rounds k r1 ≡ some r2)
        × (await_ready (some task) r2 ≡ some true)
        × (await_resume (some task) r2 ≡ some (eval p))
        × (r2.loop.ready_queue ≡ [])
        × ((j : ℕ) → j ≤ r.last_id → r2.frames j ≡ r.frames j)
  unfolding new_task generator_id schedule_task schedule_on await_ready await_resume
  run_program p r idle low =
      let id = generator_id r.last_id in
      let is : id ≡ r.last_id + 1 = ground (arith, low) in
      let made : Frame V = record {
        handle = record { state = unschedule; id = id };
        parent = none;
        is_cancelled = false;
        result = TaskResult.monostate;
        point = initial (body_of p);
      } in
      let r0 : Runtime V = record r { frames = place id (some made) r.frames; last_id = id } in
      let there : r0.frames id ≡ some made = ground arith in
      let r1 : Runtime V = record r0 { loop = (call_soon id id r.loop).1 } in
      let (l, turn, idle1) = round_next id r1 (call_soon-IsNext id id r.loop idle) in
      let (k, r2, r3, go, turns, over, last) =
        computes p id (record r1 { loop = l }) made there (omega arith) (omega (arith, low, is))
          idle1 tt in
      let first = turn ∙ started id (body_of p) (record r1 { loop = l }) made there refl ∙ go in
      (
        suc k,
        r1,
        r3,
        rw (there, schedule_task, schedule_on) refl,
        round_lem k r1 r2 first ∙ turns,
        rw (over.is_frame, over.at_end, await_ready) refl,
        rw (over.is_frame, await_resume) (ap some over.has_result),
        over.next,
        λ j le.
            over.others j (omega (arith, le, is)) (λ s. omega (arith, s, le, is))
            ∙ ground (arith, le, is),
      )
