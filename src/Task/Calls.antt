-- ===== src/Task/Calls.antt =====
-- A call of a coroutine that is awaited, and its end.
use mcoro_rpc.Common.{
  ℕ, zero, suc, ◌+◌, ◌^◌, ◌≤◌, ◌<◌, ◌≡◌, ◌≢◌, refl, sym, ap, ◌∙◌, subst, [], ◌∷◌, false, Option,
  none, some, ◌==◌, arith, Option-cases, inl, inr,
}
use mcoro_rpc.Common.Dict.{lookup, lookup-insert}
use mcoro_rpc.Loop.{Eventloop, WaitCallback, call_soon, take_ready}
use mcoro_rpc.Handle.{unschedule, schedule, suspend, generator_id, schedule_on}
use mcoro_rpc.Task.{
  TaskResult, Ending, Body, creates, awaits, Frame, initial, awaiting, final, Runtime, set_result,
  get_result, changed, change, place, set_state, new_task, run_body, run, round, rounds, complete,
  final_suspend, suspend_on, await_suspend, await_ready, schedule_task,
}

-- The wait that stands alone in the ready queue, and resumes the coroutine `n`.
pub record IsNext (n : ℕ) (l : Eventloop) : Type 0 where
  pub wait : ℕ
  pub callback : WaitCallback
  pub queued : l.ready_queue ≡ wait ∷ []
  pub found : lookup wait l.wait_callback ≡ some callback
  pub resumes : callback.user_cb ≡ n

-- What the end of a coroutine leaves: nothing to do, or its parent to resume.
abbrev pub Next : Option ℕ → Eventloop → Type 0
Next none l = l.ready_queue ≡ []
Next (some p) l = IsNext p l

module _ {V : Type 0} where
  get-set_result : (e : Ending V) → get_result (set_result e) ≡ e
  get-set_result (Ending.returned v) = refl
  get-set_result (Ending.threw x) = refl

  abbrev pub told : Option ℕ → (ℕ → Option (Frame V)) → ℕ → Option (Frame V)
  told none frames = frames
  told (some p) frames = change p (set_state schedule) frames

  -- The parent is an older frame than `last`, and not `n`.
  abbrev pub ParentOf : ℕ → ℕ → Option ℕ → (ℕ → Option (Frame V)) → Type 0
  ParentOf n last none frames = Unit {0}
  ParentOf n last (some p) frames = (f : Frame V) × (frames p ≡ some f) × (p ≤ last) × (p ≢ n)

pub call_soon-IsNext :
    (id n : ℕ) (l : Eventloop) → l.ready_queue ≡ [] → IsNext n (call_soon id n l).1
unfolding call_soon
call_soon-IsNext id n l empty = record {
  wait = l.next_wait_id;
  callback = record { coro_id = id; user_cb = n };
  queued = rw empty refl;
  found = lookup-insert l.next_wait_id l.next_wait_id _ l.wait_callback ∙ ground arith;
  resumes = refl;
}

module _ {V : Type 0} where
  unchanged : (g : Frame V → Frame V) (o : Option (Frame V)) → changed false g o ≡ o
  unchanged g none = refl
  unchanged g (some f) = refl

  pub change_other :
      (n j : ℕ) (g : Frame V → Frame V) (frames : ℕ → Option (Frame V))
      → j ≢ n
      → change n g frames j ≡ frames j
  change_other n j g frames d =
      let other : n == j ≡ false = ground (arith, d) in
      ap (λ b. changed b g (frames j)) other ∙ unchanged g (frames j)

  pub change_at :
      (n : ℕ) (g : Frame V → Frame V) (frames : ℕ → Option (Frame V)) (f : Frame V)
      → frames n ≡ some f
      → change n g frames n ≡ some (g f)
  change_at n g frames f e = ground (arith, e)

  pub told_cong :
      (q : Option ℕ) (j : ℕ) (before after : ℕ → Option (Frame V))
      → after j ≡ before j
      → told q after j ≡ told q before j
  told_cong none j before after e = e
  told_cong (some p) j before after e = ap (changed (p == j) (set_state schedule)) e

  pub round_next :
      (n : ℕ) (r : Runtime V)
      → IsNext n r.loop
      → (l : Eventloop) × (round r ≡ run n (record r { loop = l })) × (l.ready_queue ≡ [])
  unfolding round take_ready
  round_next n r next = (
    (take_ready r.loop).1,
    simp (next.queued, next.found, next.resumes, round, take_ready),
    simp (next.queued, next.found, take_ready),
  )

  pub rounds_more :
      (k later : ℕ) (r r' : Runtime V)
      → rounds k r ≡ some r'
      → rounds (k + later) r ≡ rounds later r'
  unfolding rounds
  rounds_more zero later r r' e = ground (arith, e)
  rounds_more (suc k) later r r' e = elim (Option-cases (round r)) [
    | inl f ↦
        let here : rounds (suc k) r ≡ none = rw (f, rounds) refl in absurd (ground (arith, here, e))
    | inr (r1, f) ↦
        let go : rounds (suc (k + later)) r ≡ rounds (k + later) r1 = rw (f, rounds) refl in
        let here : rounds (suc k) r ≡ rounds k r1 = rw (f, rounds) refl in
        ap (λ t. rounds t r) {y = suc (k + later)} (omega arith)
        ∙ go
        ∙ rounds_more k later r1 r' (sym here ∙ e)
  ]

  -- The coroutine `n` has ended with `e`, the other frames up to `last` are as they were but for the
  -- state of its parent `q`, and the parent is next.
  pub record Ended (n last : ℕ) (q : Option ℕ) (e : Ending V) (frames : ℕ → Option (Frame V))
      (r : Runtime V) : Type 0 where
    pub frame : Frame V
    pub is_frame : r.frames n ≡ some frame
    pub at_end : frame.point ≡ final
    pub has_result : get_result frame.result ≡ e
    pub others : (j : ℕ) → j ≤ last → j ≢ n → r.frames j ≡ told q frames j
    pub next : Next q r.loop

  pub complete-Ended :
      (n last : ℕ) (e : Ending V) (r : Runtime V) (f : Frame V)
      → r.frames n ≡ some f
      → r.loop.ready_queue ≡ []
      → ParentOf n last f.parent r.frames
      → (r' : Runtime V) × (complete n e r ≡ some r')
        × Ended n last f.parent e r.frames r'
        × (r'.last_id ≡ r.last_id)
  unfolding complete final_suspend
  complete-Ended n last e r f here idle above =
      let ended : Frame V → Frame V = λ g. record g { result = set_result e; point = final } in
      let frames = change n ended r.frames in
      elim (Option-cases f.parent) [
        | inl alone ↦ (
          record r { frames = frames },
          rw (here, alone, complete, final_suspend) refl,
          record {
            frame = ended f;
            is_frame = change_at n ended r.frames f here;
            at_end = refl;
            has_result = get-set_result e;
            others = λ j le d. rw alone (change_other n j ended r.frames d);
            next = rw alone idle;
          },
          refl,
        )
        | inr (p, known) ↦
            let (g, there, old, apart) = subst (λ q. ParentOf n last q r.frames) known above in
            let there' = change_other n p ended r.frames apart ∙ there in
            (
              record r {
                frames = change p (set_state schedule) frames;
                loop = (call_soon g.handle.id p r.loop).1;
              },
              rw (here, known, there', complete, final_suspend) refl,
              record {
                frame = ended f;
                is_frame =
                    change_other p n (set_state schedule) frames (λ s. apart (sym s))
                    ∙ change_at n ended r.frames f here;
                at_end = refl;
                has_result = get-set_result e;
                others = λ j le d.
                    rw known
                      (told_cong (some p) j r.frames frames (change_other n j ended r.frames d));
                next = rw known (call_soon-IsNext g.handle.id p r.loop idle);
              },
              refl,
            )
      ]

  -- The coroutine `n` has begun to await a new one, `c`, which is next.
  pub record Called (n c : ℕ) (body : Body V) (rest : Ending V → Body V) (f : Frame V)
      (frames : ℕ → Option (Frame V)) (r : Runtime V) : Type 0 where
    pub caller : Frame V
    pub is_caller : r.frames n ≡ some caller
    pub same_parent : caller.parent ≡ f.parent
    pub waits : caller.point ≡ awaiting c rest
    pub callee : Frame V
    pub is_callee : r.frames c ≡ some callee
    pub from_caller : callee.parent ≡ some n
    pub begins : callee.point ≡ initial body
    pub untouched : (j : ℕ) → j ≢ n → j ≢ c → r.frames j ≡ frames j
    pub called_next : IsNext c r.loop
    pub called_last : r.last_id ≡ c

  await_ready_lem :
      (c : ℕ) (r : Runtime V) (g : Frame V) (body : Body V)
      → r.frames c ≡ some g
      → g.point ≡ initial body
      → await_ready (some c) r ≡ some false
  unfolding await_ready
  await_ready_lem c r g body there new = rw (there, new, await_ready) refl

  -- The frame that awaits, and the one that is awaited.
  abbrev pub halted : ℕ → (Ending V → Body V) → Frame V → Frame V
  halted c rest f = set_state suspend (record f { point = awaiting c rest })

  abbrev pub adopted : ℕ → Frame V → Frame V
  adopted n g = record g { parent = some n }

  suspend_on_lem :
      (n c : ℕ) (rest : Ending V → Body V) (r : Runtime V) (f g : Frame V)
      → r.frames n ≡ some f
      → r.frames c ≡ some g
      → c ≢ n
      → g.parent ≡ none
      → g.handle.state ≡ unschedule
      → (r' : Runtime V) × (suspend_on n (some c) rest r ≡ some r')
        × (r'.frames n ≡ some (halted c rest f))
        × (r'.frames c ≡ some (adopted n g))
        × ((j : ℕ) → j ≢ n → j ≢ c → r'.frames j ≡ r.frames j)
        × (r'.loop ≡ (call_soon g.handle.id c r.loop).1)
        × (r'.last_id ≡ r.last_id)
  unfolding suspend_on await_suspend schedule_task schedule_on
  suspend_on_lem n c rest r f g here there apart orphan new =
      let at_await : Frame V → Frame V = λ h. record h { point = awaiting c rest } in
      let apart' : n ≢ c = λ s. apart (sym s) in
      let frames1 = change n at_await r.frames in
      let frames2 = change n (set_state suspend) frames1 in
      let frames3 = change c (adopted n) frames2 in
      let there1 = change_other n c at_await r.frames apart ∙ there in
      let there2 = change_other n c (set_state suspend) frames1 apart ∙ there1 in
      let there3 = change_at c (adopted n) frames2 g there2 in
      let here1 = change_at n at_await r.frames f here in
      let here2 = change_at n (set_state suspend) frames1 (at_await f) here1 in
      (
        record r { frames = frames3; loop = (call_soon g.handle.id c r.loop).1 },
        rw (there1, orphan, there3, new, suspend_on, await_suspend, schedule_task, schedule_on)
            refl,
        change_other c n (adopted n) frames2 apart' ∙ here2,
        there3,
        (λ j d d'.
            change_other c j (adopted n) frames2 d'
            ∙ change_other n j (set_state suspend) frames1 d
            ∙ change_other n j at_await r.frames d),
        refl,
        refl,
      )

  pub call_begins :
      (n : ℕ) (body : Body V) (rest : Ending V → Body V) (r : Runtime V) (f : Frame V)
      → r.frames n ≡ some f
      → n ≤ r.last_id
      → r.last_id + 1 < 2 ^ 32
      → r.loop.ready_queue ≡ []
      → (r' : Runtime V) × (run_body n (creates body (λ c. awaits (some c) rest)) r ≡ some r')
        × Called n (r.last_id + 1) body rest f r.frames r'
  unfolding run_body new_task generator_id
  call_begins n body rest r f here old low idle =
      let c = generator_id r.last_id in
      let is_next : c ≡ r.last_id + 1 = ground (arith, low) in
      let made : Frame V = record {
        handle = record { state = unschedule; id = c };
        parent = none;
        is_cancelled = false;
        result = TaskResult.monostate;
        point = initial body;
      } in
      let r0 : Runtime V = record r { frames = place c (some made) r.frames; last_id = c } in
      let apart : c ≢ n = λ s. omega (arith, s, is_next, old) in
      let there : r0.frames c ≡ some made = ground arith in
      let here0 : r0.frames n ≡ some f = ground (arith, apart, here) in
      let (r', e, n', c', others, l, last) =
        suspend_on_lem n c rest r0 f made here0 there apart refl refl in
      (
        r',
        rw (await_ready_lem c r0 made body there refl, e, run_body) refl,
        subst (λ d. Called n d body rest f r.frames r') is_next
            (record {
              caller = halted c rest f;
              is_caller = n';
              same_parent = refl;
              waits = refl;
              callee = adopted n made;
              is_callee = c';
              from_caller = refl;
              begins = refl;
              untouched = λ j d d'. others j d d' ∙ ground (arith, d');
              called_next = subst (IsNext c) (sym l) (call_soon-IsNext c c r.loop idle);
              called_last = last;
            }),
      )
