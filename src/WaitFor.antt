-- ===== src/WaitFor.antt =====
-- Waiting for a task with a time limit: include/coro/wait_for.hpp. The task and the timer are the
-- event loop's: what they do comes as events in the order in which the loop runs them.
use mcoro_rpc.Common.{
  ℕ, zero, suc, ◌≡◌, refl, ap, ◌∙◌, arith, append-nil, ◌||◌, List, [], ◌∷◌, ◌++◌, Bool, true, false,
  Option, none, some, ltb, if◌then◌else◌, replicate,
}

-- The timer's callback runs, or the awaited task returns or throws.
pub data Event : Type 0 where
  fires returns throws : Event

pub record WaitForResult : Type 0 where
  pub ok : Bool
  pub is_timeout : Bool

pub record Wait : Type 0 where
  pub timeout_fired : Bool
  pub completed : Bool
  pub result : Option WaitForResult

abbrev pub started : Wait
started = record { timeout_fired = false; completed = false; result = none }

-- The part behind the awaited task, which runs once.
complete : Bool → Wait → Wait
complete ok wait = elim wait.result [
  | some _ ↦ wait
  | none ↦ record wait {
    completed = true;
    result = some (record { ok = ok; is_timeout = wait.timeout_fired });
  }
]

step : Event → Wait → Wait
unfolding complete
step fires wait = if wait.completed then wait else record wait { timeout_fired = true }
step returns wait = complete true wait
step throws wait = complete false wait

run : List Event → Wait → Wait
unfolding step
run [] wait = wait
run (e ∷ es) wait = run es (step e wait)

-- What `wait_for` gives back; `none` while it waits.
pub wait_for : List Event → Option WaitForResult
unfolding run
wait_for es = (run es started).result

-- The end of a task that `ok` tells.
abbrev pub ending : Bool → Event
ending true = returns
ending false = throws

run_settled :
    (es : List Event) (wait : Wait) (r : WaitForResult)
    → wait.result ≡ some r
    → (run es wait).result ≡ some r
unfolding run step complete
run_settled [] wait r h = h
run_settled (fires ∷ es) wait r h = run_settled es (step fires wait) r (ground (arith, h))
run_settled (returns ∷ es) wait r h = run_settled es (step returns wait) r (ground (arith, h))
run_settled (throws ∷ es) wait r h = run_settled es (step throws wait) r (ground (arith, h))

abbrev waiting : Bool → Wait
waiting fired = record { timeout_fired = fired; completed = false; result = none }

run_fires :
    (n : ℕ) (fired : Bool) (es : List Event)
    → run (replicate n fires ++ es) (waiting fired) ≡ run es (waiting (fired || ltb 0 n))
unfolding run step
run_fires zero true es = refl
run_fires zero false es = refl
run_fires (suc n) true es = run_fires n true es
run_fires (suc n) false es = run_fires n true es ∙ ap (λ b. run es (waiting b)) some_fired
  where
    some_fired : true ≡ ltb 0 (suc n)
    some_fired = ground arith

run_ends :
    (ok : Bool) (later : List Event) (wait : Wait)
    → wait.result ≡ none
    → (run (ending ok ∷ later) wait).result
      ≡ some (record { ok = ok; is_timeout = wait.timeout_fired })
unfolding run step complete
run_ends true later wait h = run_settled later (step returns wait) _ (rw h refl)
run_ends false later wait h = run_settled later (step throws wait) _ (rw h refl)

-- However often the time limit passes, the wait goes on until the task ends: then it gives whether
-- the task returned, and whether the limit had passed, and nothing later changes this.
pub wait_for_lem :
    (n : ℕ) (ok : Bool) (later : List Event)
    → (wait_for (replicate n fires) ≡ none)
      × (wait_for (replicate n fires ++ (ending ok ∷ later))
          ≡ some (record { ok = ok; is_timeout = ltb 0 n }))
unfolding wait_for run step complete
wait_for_lem n ok later = (
  ap (λ w. w.result) (rw (append-nil (replicate n fires)) at (run_fires n false [])),
  ap (λ w. w.result) (run_fires n false (ending ok ∷ later))
      ∙ run_ends ok later (waiting (ltb 0 n)) refl,
)
