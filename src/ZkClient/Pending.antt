-- ===== src/ZkClient/Pending.antt =====
-- The pending operations of the ZooKeeper client.
use mcoro_rpc.Common.{
  ℕ, ◌+◌, ◌<◌, ◌≡◌, refl, subst, ◌∙◌, List, [], ◌∷◌, ◌++◌, true, false, none, some, Bytes, ℤ, arith,
  ◌==◌, Bool-cases, inl, inr,
}
use mcoro_rpc.Common.Dict.{lookup, lookup-erase, erase, remove, member}
use mcoro_rpc.ZkClient.{
  zok, ZkResult, OpType, PendingOp, ZkClient, waits, begin_op, set_op, delete_ops, push_op,
  complete_op, finish_op, cleanup_pending_ops, on_session, zoo_expired, result_of,
}

-- Each number of the list is below.
abbrev pub AllBelow : ℕ → List ℕ → Type 0
AllBelow n [] = Unit {0}
AllBelow n (m ∷ ms) = (m < n) × AllBelow n ms

abbrev pub keys : {V : Type 0} → List (ℕ × V) → List ℕ
keys [] = []
keys ((n, v) ∷ m) = n ∷ keys m

-- The list has exactly the objects that are allocated, and none of them has the next number.
pub record IsTracked (c : ZkClient) : Type 0 where
  pub same : c.pending_ops ≡ keys c.heap
  pub below : AllBelow c.next_op c.pending_ops

module _ {V : Type 0} where
  lookup-append :
      (n : ℕ) (v : V) (m : List (ℕ × V))
      → AllBelow n (keys m)
      → lookup n (m ++ ((n, v) ∷ [])) ≡ some v
  lookup-append n v [] b = ground arith
  lookup-append n v ((j, w) ∷ m) b = ground (arith, b.0, lookup-append n v m b.1)

  erase_absent : (n : ℕ) (m : List (ℕ × V)) → AllBelow n (keys m) → erase n m ≡ m
  erase_absent n [] b = refl
  erase_absent n ((j, w) ∷ m) b = ground (arith, b.0, erase_absent n m b.1)

  erase-append :
      (n : ℕ) (v : V) (m : List (ℕ × V)) → AllBelow n (keys m) → erase n (m ++ ((n, v) ∷ [])) ≡ m
  erase-append n v [] b = ground arith
  erase-append n v ((j, w) ∷ m) b = ground (arith, b.0, erase-append n v m b.1)

remove-append : (n : ℕ) (s : List ℕ) → AllBelow n s → remove n (s ++ (n ∷ [])) ≡ s
remove-append n [] b = ground arith
remove-append n (j ∷ s) b = ground (arith, b.0, remove-append n s b.1)

set_op-append :
    (n : ℕ) (op op' : PendingOp) (m : List (ℕ × PendingOp))
    → AllBelow n (keys m)
    → set_op n op' (m ++ ((n, op) ∷ [])) ≡ m ++ ((n, op') ∷ [])
set_op-append n op op' [] b = ground arith
set_op-append n op op' ((j, w) ∷ m) b = ground (arith, b.0, set_op-append n op op' m b.1)

member-append : (n : ℕ) (s : List ℕ) → member n (s ++ (n ∷ [])) ≡ true
member-append n [] = ground arith
member-append n (j ∷ s) = ground (arith, member-append n s)

stays_absent :
    {V : Type 0} (n j : ℕ) (m : List (ℕ × V)) → lookup n m ≡ none → lookup n (erase j m) ≡ none
stays_absent n j m e = ground (arith, lookup-erase j n m, e)

delete_ops_absent :
    (n : ℕ) (ns : List ℕ) (heap : List (ℕ × PendingOp))
    → lookup n heap ≡ none
    → lookup n (delete_ops ns heap) ≡ none
delete_ops_absent n [] heap e = e
delete_ops_absent n (m ∷ ns) heap e =
    delete_ops_absent n ns (erase m heap) (stays_absent n m heap e)

lookup-delete_ops :
    (n : ℕ) (ns : List ℕ) (heap : List (ℕ × PendingOp))
    → member n ns ≡ true
    → lookup n (delete_ops ns heap) ≡ none
lookup-delete_ops n [] heap is = ground (arith, is)
lookup-delete_ops n (m ∷ ns) heap is = elim (Bool-cases (m == n)) [
  | inl e ↦ delete_ops_absent n ns (erase m heap) (lookup-erase m n heap ∙ rw e refl)
  | inr e ↦ lookup-delete_ops n ns (erase m heap) (ground (arith, is, e))
]

-- An operation whose call the library takes is pending until its completion comes, and is then over
-- with the result of the completion: the operations in flight are those that were before.
pub finish_op_of_begin_op :
    (op_type : OpType) (path data_text : Bytes) (flags version : ℤ) (result : ZkResult)
    (c : ZkClient)
    → IsTracked c
    → c.connected ≡ true
    → (c1 c2 : ZkClient) × (begin_op op_type path data_text flags version zok c
        ≡ (waits c.next_op, c1))
      × (finish_op c.next_op c1 ≡ some (none, c1))
      × (complete_op c.next_op result c1 ≡ some c2)
      × (finish_op c.next_op c2 ≡ some (some result, record c { next_op = c.next_op + 1 }))
unfolding begin_op complete_op finish_op
finish_op_of_begin_op op_type path data_text flags version result c t live =
    let op : PendingOp = record {
      op_type = op_type;
      path = path;
      data_text = data_text;
      flags = flags;
      version = version;
      result = result_of zok;
      ready = false;
    } in
    let op' : PendingOp = record op { result = result; ready = true } in
    let n = c.next_op in
    let low : AllBelow n (keys c.heap) = subst (AllBelow n) t.same t.below in
    let c1 = push_op op c in
    let c2 : ZkClient = record c1 { heap = c.heap ++ ((n, op') ∷ []) } in
    (
      c1,
      c2,
      rw live refl,
      simp (lookup-append n op c.heap low, finish_op),
      simp (lookup-append n op c.heap low, set_op-append n op op' c.heap low, complete_op),
      simp (
        lookup-append n op' c.heap low,
        erase-append n op' c.heap low,
        remove-append n c.pending_ops t.below,
        finish_op,
      ),
    )

-- When the session expires while an operation is pending, its object is deleted: its completion and
-- its caller, which still waits for it, both use an object that is deleted.
pub expired_frees :
    (n : ℕ) (result : ZkResult) (c : ZkClient)
    → member n c.pending_ops ≡ true
    → (complete_op n result (on_session zoo_expired c) ≡ none)
      × (finish_op n (on_session zoo_expired c) ≡ none)
unfolding on_session cleanup_pending_ops complete_op finish_op
expired_frees n result c is =
    let gone = lookup-delete_ops n c.pending_ops c.heap is in
    (rw (gone, complete_op) refl, rw (gone, finish_op) refl)
