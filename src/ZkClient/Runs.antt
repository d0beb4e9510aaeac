-- ===== src/ZkClient/Runs.antt =====
-- What becomes of the pending operations of the ZooKeeper client over its life.
use mcoro_rpc.Common.{
  ℕ, ◌+◌, ◌≡◌, refl, sym, ap, subst, ◌∙◌, List, [], ◌∷◌, ◌++◌, Bool, true, false, Option, none,
  some, Bytes, ℤ, arith, ◌==◌, Bool-cases, Option-cases, inl, inr, if◌then◌else◌, if_true, if_false,
}
use mcoro_rpc.Common.Dict.{lookup, erase, remove, member}
use mcoro_rpc.ZkClient.{
  Rc, zok, ZkResult, OpType, PendingOp, ZkClient, begin_op, set_op, delete_ops, push_op, drop_op,
  complete_op, finish_op, cleanup_pending_ops, on_session, SessionState, zoo_connected, zoo_expired,
  zoo_auth_failed, zoo_other, close, start, poll, is_ok, new_zk_client, result_of,
}
use mcoro_rpc.ZkClient.Pending.{AllBelow, keys, IsTracked}

-- What happens to a client after it was made: a call of an operation with the library's answer, a
-- completion, the end of a wait, a session event, `close` and `start`.
pub data ZkStep : Type 0 where
  begins : OpType → Bytes → Bytes → ℤ → ℤ → Rc → ZkStep
  completes : ℕ → ZkResult → ZkStep
  finishes : ℕ → ZkStep
  session : SessionState → ZkStep
  closes : ZkStep
  starts : Bool → List SessionState → ZkStep

unfoldable pub zk_step : ZkStep → ZkClient → Option ZkClient
zk_step (begins op_type path text flags version rc) c =
    some (begin_op op_type path text flags version rc c).1
zk_step (completes n result) c = complete_op n result c
zk_step (finishes n) c = elim (finish_op n c) [ none ↦ none | some r ↦ some r.1 ]
zk_step (session e) c = some (on_session e c)
zk_step closes c = some (close c)
zk_step (starts made events) c = some (start made events c).1

-- `none` where a step uses an object that is deleted.
unfoldable pub zk_run : List ZkStep → ZkClient → Option ZkClient
zk_run [] c = some c
zk_run (s ∷ steps) c = elim (zk_step s c) [ none ↦ none | some c' ↦ zk_run steps c' ]

abbrev pub TrackedIfAny : Option ZkClient → Type 0
TrackedIfAny none = Unit {0}
TrackedIfAny (some c) = IsTracked c

module _ {V : Type 0} where
  keys-append : (n : ℕ) (v : V) (m : List (ℕ × V)) → keys (m ++ ((n, v) ∷ [])) ≡ keys m ++ (n ∷ [])
  keys-append n v [] = refl
  keys-append n v ((j, w) ∷ m) = ap (λ s. j ∷ s) (keys-append n v m)

  keys-erase : (n : ℕ) (m : List (ℕ × V)) → keys (erase n m) ≡ remove n (keys m)
  keys-erase n [] = refl
  keys-erase n ((j, w) ∷ m) = elim (Bool-cases (j == n)) [
    | inl e ↦ rw e (keys-erase n m)
    | inr e ↦ rw e (ap (λ s. j ∷ s) (keys-erase n m))
  ]

keys-set_op : (n : ℕ) (op : PendingOp) (m : List (ℕ × PendingOp)) → keys (set_op n op m) ≡ keys m
keys-set_op n op [] = refl
keys-set_op n op ((j, w) ∷ m) = elim (Bool-cases (j == n)) [
  | inl e ↦ rw e (ap (λ s. j ∷ s) (keys-set_op n op m))
  | inr e ↦ rw e (ap (λ s. j ∷ s) (keys-set_op n op m))
]

below-append : (n : ℕ) (s : List ℕ) → AllBelow n s → AllBelow (n + 1) (s ++ (n ∷ []))
below-append n [] b = (omega arith, tt)
below-append n (j ∷ s) b = (omega (arith, b.0), below-append n s b.1)

below-suc : (n : ℕ) (s : List ℕ) → AllBelow n s → AllBelow (n + 1) s
below-suc n [] b = tt
below-suc n (j ∷ s) b = (omega (arith, b.0), below-suc n s b.1)

below-remove : (n k : ℕ) (s : List ℕ) → AllBelow n s → AllBelow n (remove k s)
below-remove n k [] b = tt
below-remove n k (j ∷ s) b = elim (Bool-cases (j == k)) [
  | inl e ↦ rw e (below-remove n k s b.1)
  | inr e ↦ rw e (b.0, below-remove n k s b.1)
]

-- Each number of the second list is in the first.
abbrev AllIn : List ℕ → List ℕ → Type 0
AllIn ns [] = Unit {0}
AllIn ns (j ∷ s) = (member j ns ≡ true) × AllIn ns s

each_in_more : (k : ℕ) (ns s : List ℕ) → AllIn ns s → AllIn (k ∷ ns) s
each_in_more k ns [] a = tt
each_in_more k ns (j ∷ s) a = (ground (arith, a.0), each_in_more k ns s a.1)

each_in_itself : (s : List ℕ) → AllIn s s
each_in_itself [] = tt
each_in_itself (j ∷ s) = (ground arith, each_in_more j s s (each_in_itself s))

AllIn-erase :
    (n : ℕ) (ns : List ℕ) (m : List (ℕ × PendingOp))
    → AllIn (n ∷ ns) (keys m)
    → AllIn ns (keys (erase n m))
AllIn-erase n ns [] a = tt
AllIn-erase n ns ((j, w) ∷ m) a = elim (Bool-cases (j == n)) [
  | inl e ↦ rw e (AllIn-erase n ns m a.1)
  | inr e ↦ rw e (ground (arith, a.0, e), AllIn-erase n ns m a.1)
]

delete_ops_all : (ns : List ℕ) (m : List (ℕ × PendingOp)) → AllIn ns (keys m) → delete_ops ns m ≡ []
delete_ops_all [] [] a = refl
delete_ops_all [] ((j, w) ∷ m) a = ground (arith, a.0)
delete_ops_all (n ∷ ns) m a = delete_ops_all ns (erase n m) (AllIn-erase n ns m a)

push_op-IsTracked : (op : PendingOp) (c : ZkClient) → IsTracked c → IsTracked (push_op op c)
push_op-IsTracked op c t = record {
  same = ap (λ s. s ++ (c.next_op ∷ [])) t.same ∙ sym (keys-append c.next_op op c.heap);
  below = below-append c.next_op c.pending_ops t.below;
}

drop_op-IsTracked : (n : ℕ) (c : ZkClient) → IsTracked c → IsTracked (drop_op n c)
drop_op-IsTracked n c t = record {
  same = ap (remove n) t.same ∙ sym (keys-erase n c.heap);
  below = below-remove c.next_op n c.pending_ops t.below;
}

cleanup_pending_ops-IsTracked : (c : ZkClient) → IsTracked c → IsTracked (cleanup_pending_ops c)
unfolding cleanup_pending_ops
cleanup_pending_ops-IsTracked c t = record {
  same = ap keys (
      sym (
        delete_ops_all c.pending_ops c.heap
          (subst (λ s. AllIn s (keys c.heap)) (sym t.same) (each_in_itself (keys c.heap)))));
  below = tt;
}

-- Only the objects, their list and the next number count.
same-IsTracked :
    (c d : ZkClient)
    → c.heap ≡ d.heap
    → c.pending_ops ≡ d.pending_ops
    → c.next_op ≡ d.next_op
    → IsTracked c
    → IsTracked d
same-IsTracked c d h p n t = record {
  same = sym p ∙ t.same ∙ ap keys h;
  below = subst (λ k. AllBelow k d.pending_ops) n (subst (AllBelow c.next_op) p t.below);
}

on_session-IsTracked : (e : SessionState) (c : ZkClient) → IsTracked c → IsTracked (on_session e c)
unfolding on_session
on_session-IsTracked zoo_connected c t = same-IsTracked c _ refl refl refl t
on_session-IsTracked zoo_expired c t =
    let off : ZkClient = record c { connected = false } in
    let t' = cleanup_pending_ops-IsTracked off (same-IsTracked c off refl refl refl t) in
    same-IsTracked (cleanup_pending_ops off) _ refl refl refl t'
on_session-IsTracked zoo_auth_failed c t = same-IsTracked c _ refl refl refl t
on_session-IsTracked zoo_other c t = t

poll-IsTracked :
    (events : List SessionState) (c : ZkClient) → IsTracked c → IsTracked (poll events c)
poll-IsTracked [] c t = t
poll-IsTracked (e ∷ es) c t = elim (Bool-cases c.conn_notified) [
  | inl on ↦ subst IsTracked (sym (if_true _ _ on)) t
  | inr off ↦
      subst IsTracked (sym (if_false _ _ off))
        (poll-IsTracked es (on_session e c) (on_session-IsTracked e c t))
]

if-IsTracked :
    {A : Type 0} (b : Bool) (x y : A × ZkClient)
    → IsTracked x.1
    → IsTracked y.1
    → IsTracked (if b then x else y).1
if-IsTracked true x y s t = s
if-IsTracked false x y s t = t

if-client-IsTracked :
    (b : Bool) (c d : ZkClient) → IsTracked c → IsTracked d → IsTracked (if b then c else d)
if-client-IsTracked true c d s t = s
if-client-IsTracked false c d s t = t

begin_op-IsTracked :
    (op_type : OpType) (path text : Bytes) (flags version : ℤ) (rc : Rc) (c : ZkClient)
    → IsTracked c
    → IsTracked (begin_op op_type path text flags version rc c).1
unfolding begin_op
begin_op-IsTracked op_type path text flags version rc c t =
    let op : PendingOp = record {
      op_type = op_type;
      path = path;
      data_text = text;
      flags = flags;
      version = version;
      result = result_of zok;
      ready = false;
    } in
    let pushed = push_op-IsTracked op c t in
    if-IsTracked c.connected _ _
      (if-IsTracked (is_ok rc) _ _ pushed (drop_op-IsTracked c.next_op (push_op op c) pushed)) t

close-IsTracked : (c : ZkClient) → IsTracked c → IsTracked (close c)
unfolding close
close-IsTracked c t =
    let cleaned = cleanup_pending_ops c in
    let s = cleanup_pending_ops-IsTracked c t in
    let told =
      if-client-IsTracked c.conn_notified cleaned _ s (same-IsTracked cleaned _ refl refl refl s) in
    if-client-IsTracked c.has_handle _ c (same-IsTracked _ _ refl refl refl told) t

start-IsTracked :
    (made : Bool) (events : List SessionState) (c : ZkClient)
    → IsTracked c
    → IsTracked (start made events c).1
unfolding start
start-IsTracked made events c t =
    let opened : ZkClient = record c { has_handle = true } in
    let polled = poll events opened in
    let t1 = poll-IsTracked events opened (same-IsTracked c opened refl refl refl t) in
    let keep : (h n m : Bool)
        → IsTracked (record polled { has_handle = h; connected = n; conn_notified = m }) =
      λ h n m. same-IsTracked polled _ refl refl refl t1 in
    if-IsTracked c.connected _ _ t (
      if-IsTracked made _ _
        (if-IsTracked polled.conn_notified _ _
          (if-client-IsTracked (is_ok polled.conn_result.rc) _ _ (keep _ _ _) (keep _ _ _))
          (keep _ _ _))
        (same-IsTracked c _ refl refl refl t))

complete_op-IsTracked :
    (n : ℕ) (result : ZkResult) (c : ZkClient) → IsTracked c → TrackedIfAny (complete_op n result c)
unfolding complete_op
complete_op-IsTracked n result c t = elim (Option-cases (lookup n c.heap)) [
  | inl e ↦ rw (e, complete_op) tt
  | inr (op, e) ↦
      rw (e, complete_op) (record { same = t.same ∙ sym (keys-set_op n _ c.heap); below = t.below })
]

zk_step-IsTracked : (s : ZkStep) (c : ZkClient) → IsTracked c → TrackedIfAny (zk_step s c)
unfolding zk_step finish_op
zk_step-IsTracked (begins op_type path text flags version rc) c t =
    begin_op-IsTracked op_type path text flags version rc c t
zk_step-IsTracked (completes n result) c t = complete_op-IsTracked n result c t
zk_step-IsTracked (finishes n) c t = elim (Option-cases (lookup n c.heap)) [
  | inl e ↦ rw (e, zk_step, finish_op) tt
  | inr (op, e) ↦ elim (Bool-cases op.ready) [
    | inl f ↦ rw (e, f, zk_step, finish_op) (drop_op-IsTracked n c t)
    | inr f ↦ rw (e, f, zk_step, finish_op) t
  ]
]
zk_step-IsTracked (session e) c t = on_session-IsTracked e c t
zk_step-IsTracked closes c t = close-IsTracked c t
zk_step-IsTracked (starts made events) c t = start-IsTracked made events c t

run_from-IsTracked :
    (steps : List ZkStep) (c : ZkClient) → IsTracked c → TrackedIfAny (zk_run steps c)
unfolding zk_run
run_from-IsTracked [] c t = t
run_from-IsTracked (s ∷ steps) c t = elim (Option-cases (zk_step s c)) [
  | inl e ↦ rw (e, zk_run) tt
  | inr (c', e) ↦
      rw (e, zk_run) (run_from-IsTracked steps c' (subst TrackedIfAny e (zk_step-IsTracked s c t)))
]

-- After any steps of a new client that use no deleted object, the list of pending operations has
-- exactly the operations that are allocated, and the next one to allocate is not among them.
pub zk_run-IsTracked :
    (steps : List ZkStep) (c : ZkClient) → zk_run steps new_zk_client ≡ some c → IsTracked c
unfolding new_zk_client
zk_run-IsTracked steps c e =
    subst TrackedIfAny e
      (run_from-IsTracked steps new_zk_client (record { same = refl; below = tt }))
