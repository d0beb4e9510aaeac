-- ===== src/Loop/Ready.antt =====
-- The round of ready callbacks.
use mcoro_rpc.Common.{
  ℕ, zero, suc, ◌≡◌, List, ◌∷◌, none, some, Option-cases, inl, inr, arith, if◌then◌else◌, ◌==◌,
}
use mcoro_rpc.Common.Dict.{lookup, lookup-erase}
use mcoro_rpc.Loop.{Eventloop, take_ready}

-- The next ready wait leaves the queue, and its callback the loop: a second entry of the same wait
-- in the queue finds none. Other waits keep theirs.
pub take_ready_lem :
    (w j : ℕ) (rest : List ℕ) (l : Eventloop)
    → l.ready_queue ≡ w ∷ rest
    → ((take_ready l).1.ready_queue ≡ rest)
      × (lookup j (take_ready l).1.wait_callback
          ≡ (if w == j then none else lookup j l.wait_callback))
      × ((take_ready l).0
          ≡ elim (lookup w l.wait_callback) [ none ↦ none | some cb ↦ some cb.user_cb ])
unfolding take_ready
take_ready_lem w j rest l e = elim (Option-cases (lookup w l.wait_callback)) [
  | inl f ↦ ground (arith, f)
  | inr (cb, f) ↦ ground (arith, f, lookup-erase w j l.wait_callback)
]

-- The next ready wait is taken, and its callback run where it still has one.
abbrev pub one_round : (ℕ → Eventloop → Eventloop) → Eventloop → Eventloop
one_round run_cb l = elim (take_ready l).0 [
  | none ↦ (take_ready l).1
  | some cb ↦ run_cb cb (take_ready l).1
]

abbrev pub rounds : (ℕ → Eventloop → Eventloop) → ℕ → Eventloop → Eventloop
rounds run_cb zero l = l
rounds run_cb (suc n) l = rounds run_cb n (one_round run_cb l)
