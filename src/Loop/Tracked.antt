-- ===== src/Loop/Tracked.antt =====
-- The event loop's account of who waits: every callback is listed under its coroutine, so that a
-- cancelled coroutine leaves none behind.
use mcoro_rpc.Common.{
  ℕ, ◌≡◌, List, [], ◌∷◌, true, ◌&&◌, ◌||◌, not, ◌==◌, Option-cases, List-cases, inl, inr, arith,
}
use mcoro_rpc.Common.Dict.{
  lookup, erase, insert, lookup-erase, lookup-insert, member, remove, add, member-remove,
  member-add,
}
use mcoro_rpc.Loop.{Eventloop, WaitCallback, waits_of, add_wait, drop_wait, take_ready}

-- Each of these callbacks is listed under its coroutine.
abbrev pub AllTracked : List (ℕ × WaitCallback) → List (ℕ × List ℕ) → Type 0
AllTracked [] waits = Unit {0}
AllTracked ((w, cb) ∷ m) waits = (member w (waits_of cb.coro_id waits) ≡ true) × AllTracked m waits

abbrev pub IsTracked : Eventloop → Type 0
IsTracked l = AllTracked l.wait_callback l.coro_waits

member-add_wait :
    (id w c j : ℕ) (waits : List (ℕ × List ℕ))
    → member j (waits_of c (add_wait id w waits))
      ≡ ((id == c && w == j) || member j (waits_of c waits))
member-add_wait id w c j waits = ground (
  arith,
  lookup-insert id c (add w (waits_of id waits)) waits,
  member-add w j (waits_of id waits),
)

waits_of-drop_wait :
    (id w c j : ℕ) (waits : List (ℕ × List ℕ))
    → member j (waits_of c (drop_wait id w waits))
      ≡ (not (id == c && w == j) && member j (waits_of c waits))
waits_of-drop_wait id w c j waits = elim (Option-cases (lookup id waits)) [
  | inl h ↦ ground (arith, h)
  | inr (s, h) ↦ elim (List-cases (remove w s)) [
    | inl e ↦ ground (arith, h, e, lookup-erase id c waits, member-remove w j s)
    | inr (x, xs, e) ↦ ground (arith, h, e, lookup-insert id c (x ∷ xs) waits, member-remove w j s)
  ]
]

pub erase-AllTracked :
    (w : ℕ) (m : List (ℕ × WaitCallback)) (waits : List (ℕ × List ℕ))
    → AllTracked m waits
    → AllTracked (erase w m) waits
erase-AllTracked w [] waits t = tt
erase-AllTracked w ((j, cb) ∷ m) waits t = ground (arith, erase-AllTracked w m waits t.1)

add_wait-AllTracked :
    (id w : ℕ) (m : List (ℕ × WaitCallback)) (waits : List (ℕ × List ℕ))
    → AllTracked m waits
    → AllTracked m (add_wait id w waits)
add_wait-AllTracked id w [] waits t = tt
add_wait-AllTracked id w ((j, cb) ∷ m) waits t =
    (ground (arith, member-add_wait id w cb.coro_id j waits), add_wait-AllTracked id w m waits t.1)

pub drop_wait-AllTracked :
    (id w : ℕ) (m : List (ℕ × WaitCallback)) (waits : List (ℕ × List ℕ))
    → AllTracked m waits
    → AllTracked (erase w m) (drop_wait id w waits)
drop_wait-AllTracked id w [] waits t = tt
drop_wait-AllTracked id w ((j, cb) ∷ m) waits t =
    ground
      (arith, waits_of-drop_wait id w cb.coro_id j waits, drop_wait-AllTracked id w m waits t.1)

pub insert-AllTracked :
    (id w user_cb : ℕ) (m : List (ℕ × WaitCallback)) (waits : List (ℕ × List ℕ))
    → AllTracked m waits
    → AllTracked (insert w (record { coro_id = id; user_cb = user_cb }) m) (add_wait id w waits)
insert-AllTracked id w user_cb m waits t = (
  ground (arith, member-add_wait id w id w waits),
  add_wait-AllTracked id w (erase w m) waits (erase-AllTracked w m waits t),
)

pub take_ready-IsTracked : (l : Eventloop) → IsTracked l → IsTracked (take_ready l).1
unfolding take_ready
take_ready-IsTracked l t = elim (List-cases l.ready_queue) [
  | inl e ↦ rw (e, take_ready) t
  | inr (w, rest, e) ↦ elim (Option-cases (lookup w l.wait_callback)) [
    | inl f ↦ rw (e, f, take_ready) t
    | inr (cb, f) ↦
        rw (e, f, take_ready) (drop_wait-AllTracked cb.coro_id w l.wait_callback l.coro_waits t)
  ]
]
