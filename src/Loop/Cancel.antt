-- ===== src/Loop/Cancel.antt =====
-- What the cancellation of a coroutine takes from the loop, and what it leaves.
use mcoro_rpc.Common.{
  ℕ, ◌≡◌, refl, sym, List, [], ◌∷◌, true, false, ◌||◌, not, none, ◌==◌, if◌then◌else◌, Bool-cases,
  Option-cases, inl, inr, arith,
}
use mcoro_rpc.Common.Dict.{lookup, erase, lookup-erase, member}
use mcoro_rpc.Loop.{Eventloop, WaitCallback, waits_of, cancel_wait, cancel_waits, cancel}
use mcoro_rpc.Loop.Tracked.{AllTracked, IsTracked, erase-AllTracked}

-- Every callback of the coroutine is of one of these waits.
abbrev pub OwnedBy : ℕ → List ℕ → List (ℕ × WaitCallback) → Type 0
OwnedBy id s [] = Unit {0}
OwnedBy id s ((w, cb) ∷ m) = ((not (cb.coro_id == id) || member w s) ≡ true) × OwnedBy id s m

-- No callback is the coroutine's.
abbrev pub NoneOf : ℕ → List (ℕ × WaitCallback) → Type 0
NoneOf id [] = Unit {0}
NoneOf id ((w, cb) ∷ m) = ((cb.coro_id == id) ≡ false) × NoneOf id m

erase_all : List ℕ → List (ℕ × WaitCallback) → List (ℕ × WaitCallback)
erase_all [] m = m
erase_all (w ∷ ws) m = erase_all ws (erase w m)

cancel_waits_lem :
    (s : List ℕ) (l : Eventloop)
    → ((cancel_waits s l).wait_callback ≡ erase_all s l.wait_callback)
      × ((cancel_waits s l).coro_waits ≡ l.coro_waits)
unfolding cancel_waits erase_all
cancel_waits_lem [] l = (refl, refl)
cancel_waits_lem (w ∷ ws) l = cancel_waits_lem ws (cancel_wait w l).1

erase-OwnedBy :
    (id w : ℕ) (s : List ℕ) (m : List (ℕ × WaitCallback))
    → OwnedBy id (w ∷ s) m
    → OwnedBy id s (erase w m)
erase-OwnedBy id w s [] o = tt
erase-OwnedBy id w s ((j, cb) ∷ m) o = ground (arith, erase-OwnedBy id w s m o.1)

none-OwnedBy : (id : ℕ) (m : List (ℕ × WaitCallback)) → OwnedBy id [] m → NoneOf id m
none-OwnedBy id [] o = tt
none-OwnedBy id ((j, cb) ∷ m) o = ground (arith, none-OwnedBy id m o.1)

erase_all-NoneOf :
    (id : ℕ) (s : List ℕ) (m : List (ℕ × WaitCallback)) → OwnedBy id s m → NoneOf id (erase_all s m)
unfolding erase_all
erase_all-NoneOf id [] m o = none-OwnedBy id m o
erase_all-NoneOf id (w ∷ s) m o = erase_all-NoneOf id s (erase w m) (erase-OwnedBy id w s m o)

owned_of_tracked :
    (id : ℕ) (m : List (ℕ × WaitCallback)) (waits : List (ℕ × List ℕ))
    → AllTracked m waits
    → OwnedBy id (waits_of id waits) m
owned_of_tracked id [] waits t = tt
owned_of_tracked id ((j, cb) ∷ m) waits t = elim (Bool-cases (cb.coro_id == id)) [
  | inl h ↦
      let e : cb.coro_id ≡ id = ground (arith, h) in
      (rw (h, sym e) (t.0), owned_of_tracked id m waits t.1)
  | inr h ↦ (rw h refl, owned_of_tracked id m waits t.1)
]

erase_all-AllTracked :
    (s : List ℕ) (m : List (ℕ × WaitCallback)) (waits : List (ℕ × List ℕ))
    → AllTracked m waits
    → AllTracked (erase_all s m) waits
unfolding erase_all
erase_all-AllTracked [] m waits t = t
erase_all-AllTracked (w ∷ s) m waits t =
    erase_all-AllTracked s (erase w m) waits (erase-AllTracked w m waits t)

-- The account of the other coroutines stays right where one is struck off.
tracked_without :
    (id : ℕ) (m : List (ℕ × WaitCallback)) (waits : List (ℕ × List ℕ))
    → AllTracked m waits
    → NoneOf id m
    → AllTracked m (erase id waits)
tracked_without id [] waits t n = tt
tracked_without id ((j, cb) ∷ m) waits t n =
    ground (arith, lookup-erase id cb.coro_id waits, tracked_without id m waits t.1 n.1)

lookup-erase_all :
    (s : List ℕ) (m : List (ℕ × WaitCallback)) (j : ℕ)
    → lookup j (erase_all s m) ≡ (if member j s then none else lookup j m)
unfolding erase_all
lookup-erase_all [] m j = refl
lookup-erase_all (w ∷ s) m j = ground (arith, lookup-erase_all s (erase w m) j, lookup-erase w j m)

-- In a loop that tracks its callbacks, cancelling a coroutine leaves no callback of it and no wait
-- under its name, and drops of the callbacks those of its waits and no others; the loop goes on
-- tracking.
pub cancel_lem :
    (l : Eventloop) (id j : ℕ)
    → IsTracked l
    → NoneOf id (cancel id l).wait_callback
      × (lookup id (cancel id l).coro_waits ≡ none)
      × (lookup j (cancel id l).wait_callback
          ≡ (if member j (waits_of id l.coro_waits) then none else lookup j l.wait_callback))
      × IsTracked (cancel id l)
unfolding cancel
cancel_lem l id j t =
    let owned = owned_of_tracked id l.wait_callback l.coro_waits t in
    elim (Option-cases (lookup id l.coro_waits)) [
      | inl e ↦
          let o = rw (e, waits_of) at owned in
          rw (e, cancel) (none-OwnedBy id l.wait_callback o, e, ground (arith, e), t)
      | inr (s, e) ↦
          let o = rw (e, waits_of) at owned in
          let left = erase_all-NoneOf id s l.wait_callback o in
          let (f, g) = cancel_waits_lem s l in
          rw (e, cancel, f, g)
            (
              left,
              ground (arith, lookup-erase id id l.coro_waits),
              ground (arith, e, lookup-erase_all s l.wait_callback j),
              tracked_without id (erase_all s l.wait_callback) l.coro_waits
                  (erase_all-AllTracked s l.wait_callback l.coro_waits t) left,
            )
    ]

pub cancel_wait-IsTracked : (w : ℕ) (l : Eventloop) → IsTracked l → IsTracked (cancel_wait w l).1
unfolding cancel_wait
cancel_wait-IsTracked w l t = erase-AllTracked w l.wait_callback l.coro_waits t
