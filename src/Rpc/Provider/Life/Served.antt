-- ===== src/Rpc/Provider/Life/Served.antt =====
-- What becomes of the connections that a provider accepts.
use mathlib.Core.List.{Perm}
use mcoro_rpc.Common.{
  if_false, none, sym, ◌≡◌, refl, ap, ◌∙◌, subst, List, [], ◌∷◌, ◌++◌, append-nil, true, false,
  some, if_true,
}
use mcoro_rpc.Channel.{done, Channel, Call, sends, recvs, call, run, send, recv}
use mcoro_rpc.Channel.Invariant.{IsSettled}
use mcoro_rpc.Channel.Close.{send_stays_active, recv_stays_active}
use mcoro_rpc.Channel.Order.{
  delivered, held, all_delivered, all_accepted, wake_values, answer_values,
}
use mcoro_rpc.Channel.Conserve.{all_lost, run_conserves}
use mcoro_rpc.Rpc.Provider.Life.{
  Stepped, Life, came, timed_out, broke, LifeStep, accept_round, worker_round, stop_called,
  life_step, life_run, accepted_round, asked_round, hand_over, take_connection,
}

module _ {S : Type 0} where
  -- No step stops the provider, and no wait of the accept loop breaks.
  abbrev pub Serving : List (LifeStep S) → Type 0
  Serving [] = Unit {0}
  Serving (accept_round a (came s) ∷ steps) = Serving steps
  Serving (accept_round a timed_out ∷ steps) = Serving steps
  Serving (accept_round a broke ∷ steps) = ⊥
  Serving (worker_round w ∷ steps) = Serving steps
  Serving (stop_called ∷ steps) = ⊥

  abbrev pub streams : List (LifeStep S) → List S
  streams [] = []
  streams (accept_round a (came s) ∷ steps) = s ∷ streams steps
  streams (accept_round a timed_out ∷ steps) = streams steps
  streams (accept_round a broke ∷ steps) = streams steps
  streams (worker_round w ∷ steps) = streams steps
  streams (stop_called ∷ steps) = streams steps

  -- The calls of the channel that the steps make.
  abbrev pub calls_of : List (LifeStep S) → List (Call S)
  calls_of [] = []
  calls_of (accept_round a (came s) ∷ steps) = sends a s ∷ calls_of steps
  calls_of (accept_round a timed_out ∷ steps) = calls_of steps
  calls_of (accept_round a broke ∷ steps) = calls_of steps
  calls_of (worker_round w ∷ steps) = recvs w ∷ calls_of steps
  calls_of (stop_called ∷ steps) = calls_of steps

  -- The connections that a step hands to workers, to one that the channel wakes or in its answer, and
  -- those behind it; nothing is handed over behind a step that is undefined.
  abbrev pub handed_with : Stepped S → (Life S → List S) → List S
  handed_with none later = []
  handed_with (some (l, wakes, answer)) later =
      (wake_values wakes ++ answer_values answer) ++ later l

  abbrev pub all_handed : List (LifeStep S) → Life S → List S
  all_handed [] l = []
  all_handed (s ∷ steps) l = handed_with (life_step s l) (λ l'. all_handed steps l')

  run_calls :
      (steps : List (LifeStep S)) (l : Life S) (c : Channel S)
      → Serving steps
      → l.stopping ≡ false
      → l.channel ≡ some c
      → (l' : Life S) × (life_run steps l ≡ some l')
        × (l'.channel ≡ some (run c (calls_of steps)))
        × (all_handed steps l ≡ all_delivered c (calls_of steps))
  unfolding life_run run life_step accepted_round asked_round hand_over take_connection call
  run_calls [] l c serving goes here = (l, refl, here, refl)
  run_calls (accept_round a (came s) ∷ steps) l c serving goes here =
      let c' = (send a s c).0 in
      let given : hand_over a s l
          ≡ some (record l { channel = some c' }, (send a s c).1, (send a s c).2) =
        rw (here, hand_over) refl in
      let steps_on : life_step (accept_round a (came s)) l
          ≡ some (record l { channel = some c' }, (send a s c).1, (send a s c).2) =
        if_false _ _ goes ∙ given in
      let (l', e, there, same) =
        run_calls steps (record l { channel = some c' }) c' serving goes refl in
      (
        l',
        rw (goes, here, life_run, life_step, accepted_round, hand_over) e,
        there,
        ap (λ r. handed_with r (λ k. all_handed steps k)) steps_on
            ∙ ap (λ t. delivered (call c (sends a s)) ++ t) same,
      )
  run_calls (accept_round a timed_out ∷ steps) l c serving goes here =
      let quiet_step : life_step (accept_round a timed_out) l ≡ some (l, [], done true) =
        if_false _ _ goes in
      let (l', e, there, same) = run_calls steps l c serving goes here in
      (
        l',
        simp (goes, life_run, life_step, accepted_round) e,
        there,
        ap (λ r. handed_with r (λ k. all_handed steps k)) quiet_step ∙ same,
      )
  run_calls (accept_round a broke ∷ steps) l c serving goes here = absurd serving
  run_calls (worker_round w ∷ steps) l c serving goes here =
      let c' = (recv w c).0 in
      let given : take_connection w l
          ≡ some (record l { channel = some c' }, (recv w c).1, (recv w c).2) =
        rw (here, take_connection) refl in
      let steps_on : life_step (worker_round w) l
          ≡ some (record l { channel = some c' }, (recv w c).1, (recv w c).2) =
        if_false _ _ goes ∙ given in
      let (l', e, there, same) =
        run_calls steps (record l { channel = some c' }) c' serving goes refl in
      (
        l',
        rw (goes, here, life_run, life_step, asked_round, take_connection) e,
        there,
        ap (λ r. handed_with r (λ k. all_handed steps k)) steps_on
            ∙ ap (λ t. delivered (call c (recvs w)) ++ t) same,
      )
  run_calls (stop_called ∷ steps) l c serving goes here = absurd serving

  none_lost :
      (steps : List (LifeStep S)) (c : Channel S) → Serving steps → all_lost c (calls_of steps) ≡ []
  none_lost [] c serving = refl
  none_lost (accept_round a (came s) ∷ steps) c serving =
      none_lost steps (call c (sends a s)).0 serving
  none_lost (accept_round a timed_out ∷ steps) c serving = none_lost steps c serving
  none_lost (accept_round a broke ∷ steps) c serving = absurd serving
  none_lost (worker_round w ∷ steps) c serving = none_lost steps (call c (recvs w)).0 serving
  none_lost (stop_called ∷ steps) c serving = absurd serving

  all_taken :
      (steps : List (LifeStep S)) (c : Channel S)
      → Serving steps
      → c.is_active ≡ true
      → all_accepted c (calls_of steps) ≡ streams steps
  all_taken [] c serving active = refl
  all_taken (accept_round a (came s) ∷ steps) c serving active =
      ap (λ t. t ++ all_accepted (call c (sends a s)).0 (calls_of steps)) (if_true _ _ active)
      ∙ ap (λ t. s ∷ t)
          (all_taken steps (call c (sends a s)).0 serving (send_stays_active c a s ∙ active))
  all_taken (accept_round a timed_out ∷ steps) c serving active = all_taken steps c serving active
  all_taken (accept_round a broke ∷ steps) c serving active = absurd serving
  all_taken (worker_round w ∷ steps) c serving active =
      all_taken steps (call c (recvs w)).0 serving (recv_stays_active c w ∙ active)
  all_taken (stop_called ∷ steps) c serving active = absurd serving

  -- In whatever order the accept loop and the workers of a provider that is not stopped take their
  -- rounds, nothing undefined happens, and each connection that came is handed to a worker or still
  -- in the channel, once: those that the steps hand over, in their answers and to the workers that
  -- they wake, and those left are together those that were in the channel at first and those that
  -- came.
  pub connections_conserved :
      (steps : List (LifeStep S)) (l : Life S) (c : Channel S)
      → Serving steps
      → l.stopping ≡ false
      → l.channel ≡ some c
      → c.is_active ≡ true
      → IsSettled c
      → (l' : Life S) × (c' : Channel S) × (life_run steps l ≡ some l')
        × (l'.channel ≡ some c')
        × Perm (all_handed steps l ++ held c') (held c ++ streams steps)
  connections_conserved steps l c serving goes here active settled =
      let (l', e, there, same) = run_calls steps l c serving goes here in
      let c' = run c (calls_of steps) in
      let out = all_delivered c (calls_of steps) ++ held c' in
      (
        l',
        c',
        e,
        there,
        subst (λ d. Perm (d ++ held c') (held c ++ streams steps)) (sym same)
            (subst (λ t. Perm out (held c ++ t)) (all_taken steps c serving active)
              (subst (λ t. Perm t (held c ++ all_accepted c (calls_of steps)))
                (ap (λ t. out ++ t) (none_lost steps c serving) ∙ append-nil out)
                (run_conserves c (calls_of steps) settled))),
      )
