-- ===== src/Task/Back.antt =====
-- A coroutine that goes on behind a call, with the result of what it called.
use mcoro_rpc.Common.{
  ℕ, suc, ◌+◌, ◌≤◌, ◌≡◌, ◌≢◌, refl, sym, ap, ◌∙◌, subst, Option, none, some, arith,
}
use mcoro_rpc.Loop.{Eventloop}
use mcoro_rpc.Handle.{schedule}
use mcoro_rpc.Task.{
  Ending, Body, Frame, Runtime, get_result, initial, awaiting, set_state, run_body, run, round,
  rounds, await_resume,
}
use mcoro_rpc.Task.Calls.{
  IsNext, Next, told, told_cong, ParentOf, Ended, Called, change_at, change_other,
}

module _ {V : Type 0} where
  -- A coroutine that is resumed with the result of the one that it awaited.
  pub resumed :
      (n c : ℕ) (rest : Ending V → Body V) (r : Runtime V) (f g : Frame V)
      → r.frames n ≡ some f
      → f.point ≡ awaiting c rest
      → r.frames c ≡ some g
      → run n r ≡ run_body n (rest (get_result g.result)) r
  unfolding run await_resume
  resumed n c rest r f g here waits there = rw (here, waits, there, run, await_resume) refl

  pub started :
      (n : ℕ) (body : Body V) (r : Runtime V) (f : Frame V)
      → r.frames n ≡ some f
      → f.point ≡ initial body
      → run n r ≡ run_body n body r
  unfolding run
  started n body r f here begins = rw (here, begins, run) refl

  pub round_lem : (k : ℕ) (r r' : Runtime V) → round r ≡ some r' → rounds (suc k) r ≡ rounds k r'
  unfolding rounds
  round_lem k r r' e = rw (e, rounds) refl

  pub parent_kept :
      (n last last' : ℕ) (q : Option ℕ) (before after : ℕ → Option (Frame V))
      → ((j : ℕ) → j ≤ last → j ≢ n → after j ≡ before j)
      → last ≤ last'
      → ParentOf n last q before
      → ParentOf n last' q after
  parent_kept n last last' none before after kept grown above = tt
  parent_kept n last last' (some p) before after kept grown (f, there, le, d) =
      (f, kept p le d ∙ there, omega (arith, le, grown), d)

  -- The coroutine `n` is next again, with the result of the one that it awaited.
  pub record Back (n c : ℕ) (rest : Ending V → Body V) (e : Ending V) (f : Frame V)
      (r r3 : Runtime V) : Type 0 where
    pub caller : Frame V
    pub is_caller : r3.frames n ≡ some caller
    pub same_parent : caller.parent ≡ f.parent
    pub waits : caller.point ≡ awaiting c rest
    pub callee : Frame V
    pub is_callee : r3.frames c ≡ some callee
    pub gave : get_result callee.result ≡ e
    pub kept : (j : ℕ) → j ≤ r.last_id → j ≢ n → r3.frames j ≡ r.frames j
    pub is_next : IsNext n r3.loop

  pub called-Ended :
      (n c : ℕ) (body : Body V) (rest : Ending V → Body V) (e : Ending V) (f : Frame V)
      (r r1 r3 : Runtime V)
      → n ≤ r.last_id
      → c ≡ r.last_id + 1
      → (called : Called n c body rest f r.frames r1)
      → Ended c r1.last_id called.callee.parent e r1.frames r3
      → Back n c rest e f r r3
  called-Ended n c body rest e f r r1 r3 old is called over =
      let caller = called.caller in
      let told1 = λ (j : ℕ). ap (λ (q : Option ℕ). told q r1.frames j) called.from_caller in
      record {
        caller = set_state schedule caller;
        is_caller =
            over.others n (omega (arith, old, is, called.called_last))
              (λ s. omega (arith, s, is, old))
            ∙ told1 n
            ∙ change_at n (set_state schedule) r1.frames caller called.is_caller;
        same_parent = called.same_parent;
        waits = called.waits;
        callee = over.frame;
        is_callee = over.is_frame;
        gave = over.has_result;
        kept = λ j le d.
            over.others j (omega (arith, le, is, called.called_last))
              (λ s. omega (arith, s, is, le))
            ∙ told1 j
            ∙ change_other n j (set_state schedule) r1.frames d
            ∙ called.untouched j d (λ s. omega (arith, s, is, le));
        is_next = subst (λ (q : Option ℕ). Next q r3.loop) called.from_caller over.next;
      }

  pub called-ParentOf :
      (n c : ℕ) (body : Body V) (rest : Ending V → Body V) (f : Frame V) (r r1 : Runtime V)
      → n ≤ r.last_id
      → c ≡ r.last_id + 1
      → (called : Called n c body rest f r.frames r1)
      → ParentOf c r1.last_id called.callee.parent r1.frames
  called-ParentOf n c body rest f r r1 old is called =
      subst (λ (q : Option ℕ). ParentOf c r1.last_id q r1.frames) (sym called.from_caller)
        (
          called.caller,
          called.is_caller,
          omega (arith, old, is, called.called_last),
          λ s. omega (arith, s, old, is),
        )

  pub turn_to_caller :
      (n c : ℕ) (rest : Ending V → Body V) (e : Ending V) (f : Frame V) (r r3 : Runtime V)
      (l : Eventloop)
      → Back n c rest e f r r3
      → run n (record r3 { loop = l }) ≡ run_body n (rest e) (record r3 { loop = l })
  turn_to_caller n c rest e f r r3 l back =
      let r' : Runtime V = record r3 { loop = l } in
      resumed n c rest r' back.caller back.callee back.is_caller back.waits back.is_callee
      ∙ ap (λ (s : Ending V). run_body n (rest s) r') back.gave

  -- What the rest leaves is what the whole leaves.
  pub caller-Ended :
      (n c last : ℕ) (rest : Ending V → Body V) (e e' : Ending V) (f : Frame V)
      (r r3 r5 : Runtime V)
      → r.last_id ≤ last
      → (back : Back n c rest e f r r3) → Ended n last back.caller.parent e' r3.frames r5
      → Ended n r.last_id f.parent e' r.frames r5
  caller-Ended n c last rest e e' f r r3 r5 grown back over = record {
    frame = over.frame;
    is_frame = over.is_frame;
    at_end = over.at_end;
    has_result = over.has_result;
    others = λ j le d.
        over.others j (omega (arith, le, grown)) d
        ∙ ap (λ (q : Option ℕ). told q r3.frames j) back.same_parent
        ∙ told_cong f.parent j r.frames r3.frames (back.kept j le d);
    next = subst (λ (q : Option ℕ). Next q r5.loop) back.same_parent over.next;
  }

  pub caller-ParentOf :
      (n c last : ℕ) (rest : Ending V → Body V) (e : Ending V) (f : Frame V) (r r3 : Runtime V)
      → r.last_id ≤ last
      → (back : Back n c rest e f r r3) → ParentOf n r.last_id f.parent r.frames
      → ParentOf n last back.caller.parent r3.frames
  caller-ParentOf n c last rest e f r r3 grown back above =
      subst (λ (q : Option ℕ). ParentOf n last q r3.frames) (sym back.same_parent)
        (parent_kept n r.last_id last f.parent r.frames r3.frames back.kept grown above)
