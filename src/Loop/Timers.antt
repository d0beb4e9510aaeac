-- ===== src/Loop/Timers.antt =====
-- The timers of the event loop: which of them become ready, and in which order.
use mcoro_rpc.Common.{
  ℕ, ◌≤◌, ◌≡◌, refl, List, [], ◌∷◌, ◌++◌, append-nil, append_assoc, false, leb, if◌then◌else◌,
  Bool-cases, inl, inr, arith,
}
use mcoro_rpc.Loop.{Eventloop, push_timer, erase_timer, expire, process_expired_timeout}

-- No timer is due before this time.
abbrev pub NotBefore : ℕ → List (ℕ × ℕ) → Type 0
NotBefore t [] = Unit {0}
NotBefore t ((w, u) ∷ rest) = (t ≤ u) × NotBefore t rest

abbrev pub IsSorted : List (ℕ × ℕ) → Type 0
IsSorted [] = Unit {0}
IsSorted ((w, t) ∷ rest) = NotBefore t rest × IsSorted rest

-- The waits of the timers that are due, and the timers that are not.
abbrev pub due : ℕ → List (ℕ × ℕ) → List ℕ
due now [] = []
due now ((w, t) ∷ rest) = let later = due now rest in if leb t now then w ∷ later else later

abbrev pub late : ℕ → List (ℕ × ℕ) → List (ℕ × ℕ)
late now [] = []
late now ((w, t) ∷ rest) = let later = late now rest in if leb t now then later else (w, t) ∷ later

NotBefore-le : (t u : ℕ) (s : List (ℕ × ℕ)) → t ≤ u → NotBefore u s → NotBefore t s
NotBefore-le t u [] le n = tt
NotBefore-le t u ((w, v) ∷ s) le n = (omega (arith, n.0), NotBefore-le t u s le n.1)

push_timer-NotBefore :
    (w when t : ℕ) (s : List (ℕ × ℕ)) → t ≤ when → NotBefore t s → NotBefore t (push_timer w when s)
unfolding push_timer
push_timer-NotBefore w when t [] le n = (le, tt)
push_timer-NotBefore w when t ((v, u) ∷ s) le n =
    ground (arith, push_timer-NotBefore w when t s le n.1)

pub push_timer-IsSorted :
    (w when : ℕ) (s : List (ℕ × ℕ)) → IsSorted s → IsSorted (push_timer w when s)
unfolding push_timer
push_timer-IsSorted w when [] o = (tt, tt)
push_timer-IsSorted w when ((v, u) ∷ s) o = elim (Bool-cases (leb u when)) [
  | inl h ↦ ground (
    arith,
    push_timer-NotBefore w when u s (ground (arith, h)) o.0,
    push_timer-IsSorted w when s o.1,
  )
  | inr h ↦ ground (arith, h, NotBefore-le when u s (ground (arith, h)) o.0)
]

erase_timer-NotBefore : (w t : ℕ) (s : List (ℕ × ℕ)) → NotBefore t s → NotBefore t (erase_timer w s)
unfolding erase_timer
erase_timer-NotBefore w t [] n = tt
erase_timer-NotBefore w t ((v, u) ∷ s) n = ground (arith, erase_timer-NotBefore w t s n.1)

pub erase_timer-IsSorted : (w : ℕ) (s : List (ℕ × ℕ)) → IsSorted s → IsSorted (erase_timer w s)
unfolding erase_timer
erase_timer-IsSorted w [] o = tt
erase_timer-IsSorted w ((v, u) ∷ s) o =
    ground (arith, erase_timer-NotBefore w u s o.0, erase_timer-IsSorted w s o.1)

-- Where nothing is due, everything is late.
none_due :
    (now t : ℕ) (s : List (ℕ × ℕ))
    → leb t now ≡ false
    → NotBefore t s
    → (due now s ≡ []) × (late now s ≡ s)
none_due now t [] h n = (refl, refl)
none_due now t ((w, u) ∷ s) h n = ground (arith, h, none_due now t s h n.1)

expire_lem :
    (now : ℕ) (s : List (ℕ × ℕ)) (ready : List ℕ)
    → IsSorted s
    → expire now s ready ≡ (late now s, ready ++ due now s)
unfolding expire
expire_lem now [] ready o = rw (append-nil ready) refl
expire_lem now ((w, t) ∷ s) ready o = elim (Bool-cases (leb t now)) [
  | inl h ↦
      ground (
        arith,
        h,
        expire_lem now s (ready ++ (w ∷ [])) o.1,
        append_assoc ready (w ∷ []) (due now s),
      )
  | inr h ↦ ground (arith, h, none_due now t s h o.0, append-nil ready)
]

late-IsSorted : (now : ℕ) (s : List (ℕ × ℕ)) → IsSorted s → IsSorted (late now s)
late-IsSorted now [] o = tt
late-IsSorted now ((w, t) ∷ s) o = elim (Bool-cases (leb t now)) [
  | inl h ↦ rw h (late-IsSorted now s o.1)
  | inr h ↦ rw (h, (none_due now t s h o.0).1) o
]

-- Expiry of sorted timers moves the waits of just those that are due behind the ready queue,
-- earliest first, and keeps the others, sorted.
pub process_expired_timeout_lem :
    (now : ℕ) (l : Eventloop)
    → IsSorted l.scheduled
    → ((process_expired_timeout now l).ready_queue ≡ l.ready_queue ++ due now l.scheduled)
      × ((process_expired_timeout now l).scheduled ≡ late now l.scheduled)
      × IsSorted (process_expired_timeout now l).scheduled
unfolding process_expired_timeout
process_expired_timeout_lem now l o =
    rw (expire_lem now l.scheduled l.ready_queue o, process_expired_timeout)
      (refl, refl, late-IsSorted now l.scheduled o)
