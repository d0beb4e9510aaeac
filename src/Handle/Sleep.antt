-- ===== src/Handle/Sleep.antt =====
-- Sleeping: include/coro/sleep.hpp, over the timers. Times and durations are natural numbers; the
-- callback `resume` goes on with the coroutine.
use mcoro_rpc.Common.{
  ℕ, ◌+◌, ◌≤◌, ◌<◌, ◌≡◌, refl, sym, ap, ap₂, subst, ◌∙◌, List, [], ◌∷◌, ◌++◌, Option, none, some,
  leb, arith, Bool-cases, inl, inr, append_assoc,
}
use mcoro_rpc.Common.Dict.{lookup, lookup-insert}
use mcoro_rpc.Loop.{Eventloop, WaitCallback, push_timer, call_at, process_expired_timeout}
use mcoro_rpc.Loop.Tracked.{IsTracked, insert-AllTracked}
use mcoro_rpc.Loop.Cancel.{NoneOf}
use mcoro_rpc.Loop.Timers.{IsSorted, due, push_timer-IsSorted, process_expired_timeout_lem}
use mcoro_rpc.Handle.{
  CoroHandle, run_once_lem, Timer, new_timer, start, run, abort, destroy, destroy_lem,
  abort-IsTracked, abort-handle, unschedule,
}

pub record SleepAwaiter : Type 0 where
  pub duration : ℕ
  pub timer : Option Timer

pub sleep_for : ℕ → SleepAwaiter
sleep_for delay = record { duration = delay; timer = none }

-- `await_suspend` at the time `now`, with the id of the timer and the callback that runs it.
pub sleep_suspend : ℕ → ℕ → ℕ → ℕ → SleepAwaiter → Eventloop → SleepAwaiter × Eventloop
sleep_suspend id running resume now a l =
    let (t, l') = start running (new_timer id (now + a.duration) resume) l in
    (record a { timer = some t }, l')

-- `cancel`; `none` is a null pointer followed.
pub cancel_sleep : SleepAwaiter → Eventloop → Option (SleepAwaiter × Eventloop)
cancel_sleep a l = elim a.timer [
  | none ↦ none
  | some t ↦ let (t', l') = abort t l in some (record a { timer = some t' }, l')
]

-- `~SleepAwaiter`, and the end of its timer, which it alone holds.
pub destroy_sleep : SleepAwaiter → Eventloop → Eventloop
destroy_sleep a l = elim a.timer [ none ↦ l | some t ↦ let (t', l') = abort t l in destroy t' l' ]

-- A timer that is put among the others is due behind those that it was put behind.
due-push_timer :
    (w when now : ℕ) (s : List (ℕ × ℕ))
    → when ≤ now
    → (pre post : List ℕ) × (due now s ≡ pre ++ post)
      × (due now (push_timer w when s) ≡ pre ++ (w ∷ post))
unfolding push_timer
due-push_timer w when now [] h = ([], [], refl, ground (arith, h))
due-push_timer w when now ((v, u) ∷ s) h =
    let (pre, post, e, e') = due-push_timer w when now s h in
    elim (Bool-cases (leb u when)) [
      | inl b ↦ (v ∷ pre, post, ground (arith, b, h, e), ground (arith, b, h, e'))
      | inr b ↦ ([], due now ((v, u) ∷ s), refl, ground (arith, b, h))
    ]

not_due-push_timer :
    (w when now : ℕ) (s : List (ℕ × ℕ)) → now < when → due now (push_timer w when s) ≡ due now s
unfolding push_timer
not_due-push_timer w when now [] h = ground (arith, h)
not_due-push_timer w when now ((v, u) ∷ s) h = ground (arith, h, not_due-push_timer w when now s h)

-- The waits that are ready when the timers that are due at a time have expired.
abbrev pub ready_at : ℕ → Eventloop → List ℕ
ready_at t l = (process_expired_timeout t l).ready_queue

ready_at_lem :
    (t : ℕ) (l : Eventloop)
    → IsSorted l.scheduled
    → ready_at t l ≡ l.ready_queue ++ due t l.scheduled
ready_at_lem t l o = (process_expired_timeout_lem t l o).0

-- A timer among the others, for the ready waits.
woken :
    (w when early late : ℕ) (l l1 : Eventloop)
    → l1.ready_queue ≡ l.ready_queue
    → l1.scheduled ≡ push_timer w when l.scheduled
    → early < when
    → when ≤ late
    → IsSorted l.scheduled
    → (ready_at early l1 ≡ ready_at early l)
      × ((pre post : List ℕ) × (ready_at late l ≡ pre ++ post)
          × (ready_at late l1 ≡ pre ++ (w ∷ post)))
woken w when early late l l1 queue timers not_yet come o =
    let sorted = subst IsSorted (sym timers) (push_timer-IsSorted w when l.scheduled o) in
    let same_due = ap (due early) timers ∙ not_due-push_timer w when early l.scheduled not_yet in
    let (pre, post, e, e') = due-push_timer w when late l.scheduled come in
    (
      ready_at_lem early l1 sorted
          ∙ ap₂ (λ q d. q ++ d) queue same_due
          ∙ sym (ready_at_lem early l o),
      (
        l.ready_queue ++ pre,
        post,
        ready_at_lem late l o
            ∙ ap (λ d. l.ready_queue ++ d) e
            ∙ sym (append_assoc l.ready_queue pre post),
        ready_at_lem late l1 sorted
            ∙ ap₂ (λ q d. q ++ d) queue (ap (due late) timers ∙ e')
            ∙ sym (append_assoc l.ready_queue pre (w ∷ post)),
      ),
    )

-- The end of an awaiter whose timer's handle is as it was made.
forgotten :
    (a : SleepAwaiter) (t : Timer) (l : Eventloop)
    → a.timer ≡ some t
    → t.handle.state ≡ unschedule
    → IsTracked l
    → NoneOf t.handle.id (destroy_sleep a l).wait_callback
      × (lookup t.handle.id (destroy_sleep a l).coro_waits ≡ none)
      × IsTracked (destroy_sleep a l)
unfolding destroy_sleep
forgotten a t l here made tracked =
    let (t', l') = abort t l in
    let kept : t'.handle ≡ t.handle = abort-handle t l in
    let ended : destroy_sleep a l ≡ destroy t' l' = rw (here, destroy_sleep) refl in
    let gone =
      destroy_lem t' l' (abort-IsTracked t l tracked)
        (ap (λ (h : CoroHandle). h.state) kept ∙ made) in
    let Gone : CoroHandle → Eventloop → Type 0 =
      λ h k. NoneOf h.id k.wait_callback × (lookup h.id k.coro_waits ≡ none) × IsTracked k in
    subst (λ (k : Eventloop). Gone t.handle k) (sym ended)
      (subst (λ (h : CoroHandle). Gone h (destroy t' l')) kept gone)

cancelled_runs_nothing : (t : Timer) (l : Eventloop) → (run (abort t l).0).0 ≡ none
cancelled_runs_nothing t l = ap (λ (r : Option ℕ × Timer). r.0) (run_once_lem t l).1

-- A coroutine that sleeps is woken when its time has come: before, the waits that become ready are
-- those of the loop without it, and from then on its own is one of them, in its place among the
-- timers. The callback of the wait runs the timer, which goes on with the coroutine. If the sleep is
-- cancelled, the timer runs nothing, so the coroutine does not go on. When the awaiter goes out of
-- scope, no callback and no wait of its timer are left. The loop tracks its callbacks and has its
-- timers sorted.
pub sleep_suspend_lem :
    (id running resume now delay early late : ℕ) (l : Eventloop)
    → early < now + delay
    → now + delay ≤ late
    → IsSorted l.scheduled
    → IsTracked l
    → let (a, l1) = sleep_suspend id running resume now (sleep_for delay) l in
      (ready_at early l1 ≡ ready_at early l)
      × ((pre post : List ℕ) × (ready_at late l ≡ pre ++ post)
          × (ready_at late l1 ≡ pre ++ (l.next_wait_id ∷ post)))
      × (lookup l.next_wait_id l1.wait_callback ≡ some (record { coro_id = id; user_cb = running }))
      × ((t t' : Timer) × (a' : SleepAwaiter) × (l2 : Eventloop) × (a.timer ≡ some t)
          × ((run t).0 ≡ some resume)
          × (cancel_sleep a l1 ≡ some (a', l2))
          × (a'.timer ≡ some t')
          × ((run t').0 ≡ none))
      × NoneOf id (destroy_sleep a l1).wait_callback
      × (lookup id (destroy_sleep a l1).coro_waits ≡ none)
      × IsTracked (destroy_sleep a l1)
unfolding sleep_suspend sleep_for start new_timer call_at cancel_sleep destroy_sleep run abort
sleep_suspend_lem id running resume now delay early late l not_yet come o t =
    let (a, l1) = sleep_suspend id running resume now (sleep_for delay) l in
    let timer : Timer = record (new_timer id (now + delay) resume) { wait_id = l.next_wait_id } in
    let (same_ready, in_place) =
      woken l.next_wait_id (now + delay) early late l l1 refl refl not_yet come o in
    let tracked = insert-AllTracked id l.next_wait_id running l.wait_callback l.coro_waits t in
    let callback : WaitCallback = record { coro_id = id; user_cb = running } in
    let (gone, no_waits, kept) = forgotten a timer l1 refl refl tracked in
    let (t', l2) = abort timer l1 in
    (
      same_ready,
      in_place,
      lookup-insert l.next_wait_id l.next_wait_id callback l.wait_callback ∙ ground arith,
      (
        timer,
        t',
        record { duration = delay; timer = some t' },
        l2,
        refl,
        refl,
        refl,
        refl,
        cancelled_runs_nothing timer l1,
      ),
      gone,
      no_waits,
      kept,
    )
