-- ===== src/Rpc/Discovery.antt =====
-- Service discovery: the list of instances that `ServiceDiscovery` of src/rpc_provider.cc cuts out
-- of the text that `getChildrenCompletion` of src/zkclient.cc makes, and the round robin of
-- include/rpc/rpc_provider.hpp. What ZooKeeper answers is an argument.
use native.Mathlib.Nat.{suc-mod, mod-eq_of_lt}
use mcoro_rpc.Common.{
  ℕ, zero, suc, ◌+◌, ◌%◌, ◌^◌, ◌≤◌, ◌<◌, ◌≡◌, ◌≢◌, refl, sym, ap, ◌∙◌, List, [], ◌∷◌, ◌++◌, Bool,
  true, Option, none, some, Bytes, length, get_or, take, drop, ◌==◌, if◌then◌else◌, arith,
  Bool-cases, inl, inr,
}

abbrev pub comma : ℕ
comma = 0x2c

-- `getChildrenCompletion`
pub join : List Bytes → Bytes
join [] = []
join (name ∷ []) = name
join (name ∷ next ∷ rest) = name ++ (comma ∷ join (next ∷ rest))

abbrev pub onto_first : ℕ → List Bytes → List Bytes
onto_first c [] = (c ∷ []) ∷ []
onto_first c (piece ∷ rest) = (c ∷ piece) ∷ rest

-- The pieces that `std::getline` with a comma reads one after another: none from an empty rest.
pub pieces : Bytes → List Bytes
pieces [] = []
pieces (c ∷ cs) = let later = pieces cs in if c == comma then [] ∷ later else onto_first c later

abbrev pub not_empty : List Bytes → List Bytes
not_empty [] = []
not_empty ([] ∷ rest) = not_empty rest
not_empty ((c ∷ cs) ∷ rest) = (c ∷ cs) ∷ not_empty rest

-- With whether the client is connected, and what ZooKeeper answers.
pub get_instances : Bool → Option Bytes → List Bytes
unfolding pieces
get_instances connected result =
    if connected then elim result [ none ↦ [] | some text ↦ not_empty (pieces text) ] else []

pub discover_all_methods : Bool → Option Bytes → List Bytes
unfolding pieces
discover_all_methods connected result =
    if connected then elim result [ none ↦ [] | some text ↦ pieces text ] else []

-- `RoundRobinLoadBalancer::select`, with the counter.
pub select : ℕ → List Bytes → Bytes × ℕ
select index [] = ([], index)
select index (i ∷ is) = (get_or (i ∷ is) (index % length (i ∷ is)) [], (index + 1) % 2 ^ 64)

-- `discover`, with the counter that it keeps.
pub discover : Bool → Option Bytes → ℕ → Bytes × ℕ
unfolding select get_instances
discover connected result round_robin =
    if connected then select round_robin (get_instances connected result) else ([], round_robin)

-- Selections one after another.
pub selects : ℕ → ℕ → List Bytes → List Bytes
unfolding select
selects zero index is = []
selects (suc k) index is = let (i, next) = select index is in i ∷ selects k next is

-- A name as ZooKeeper gives it: with characters, and none of them a comma.
abbrev pub NoComma : Bytes → Type 0
NoComma [] = Unit {0}
NoComma (c ∷ cs) = (c ≢ comma) × NoComma cs

abbrev pub AllNames : List Bytes → Type 0
AllNames [] = Unit {0}
AllNames (name ∷ rest) = (name ≢ []) × NoComma name × AllNames rest

pieces_nil : not_empty (pieces []) ≡ []
unfolding pieces
pieces_nil = refl

pieces_last : (c : ℕ) (cs : Bytes) → NoComma (c ∷ cs) → pieces (c ∷ cs) ≡ (c ∷ cs) ∷ []
unfolding pieces
pieces_last c [] n = ground (arith, n.0)
pieces_last c (d ∷ cs) n = ground (arith, n.0, pieces_last d cs n.1)

pieces_first :
    (name rest : Bytes) → NoComma name → pieces (name ++ (comma ∷ rest)) ≡ name ∷ pieces rest
unfolding pieces
pieces_first [] rest n = refl
pieces_first (c ∷ cs) rest n = ground (arith, n.0, pieces_first cs rest n.1)

pieces-join : (names : List Bytes) → AllNames names → not_empty (pieces (join names)) ≡ names
unfolding join
pieces-join [] a = pieces_nil
pieces-join ([] ∷ []) a = absurd (a.0 refl)
pieces-join ((c ∷ cs) ∷ []) a = rw (pieces_last c cs a.1) refl
pieces-join ([] ∷ next ∷ rest) a = absurd (a.0 refl)
pieces-join ((c ∷ cs) ∷ next ∷ rest) a =
    rw (pieces_first (c ∷ cs) (join (next ∷ rest)) a.1)
      (ap (λ l. (c ∷ cs) ∷ l) (pieces-join (next ∷ rest) a.2))

-- The names of a service's children, joined as the completion joins them and cut as the discovery
-- cuts them, are the names, where each has characters and none has a comma.
pub get_instances-join :
    (names : List Bytes) → AllNames names → get_instances true (some (join names)) ≡ names
unfolding get_instances
get_instances-join names a = pieces-join names a

drop-get_or : (l : List Bytes) (j : ℕ) → j < length l → drop j l ≡ get_or l j [] ∷ drop (suc j) l
drop-get_or [] j h = absurd (omega arith)
drop-get_or (i ∷ is) zero h = refl
drop-get_or (i ∷ is) (suc j) h = drop-get_or is j (omega arith)

next_mod : (index n : ℕ) → suc (index % n) < n → (index + 1) % n ≡ suc (index % n)
next_mod index n h = ap (λ t. t % n) (omega arith) ∙ suc-mod index n ∙ mod-eq_of_lt h

-- Up to the end of the list, and while the counter does not wrap, successive selections take the
-- instances in their order from where the counter points: from a multiple of the number of
-- instances on, a round takes each once.
pub selects_lem :
    (k index : ℕ) (is : List Bytes)
    → 0 < length is
    → index % length is + k ≤ length is
    → index + k < 2 ^ 64
    → selects k index is ≡ take k (drop (index % length is) is)
unfolding selects select
selects_lem zero index is h le low = refl
selects_lem (suc k) index [] h le low = absurd (omega arith)
selects_lem (suc k) index (i ∷ is) h le low =
    let n = length (i ∷ is) in
    let j = index % n in
    let inside = drop-get_or (i ∷ is) j (omega arith) in
    let unwrapped : (index + 1) % 2 ^ 64 ≡ index + 1 = omega arith in
    let later : selects k (index + 1) (i ∷ is) ≡ take k (drop (suc j) (i ∷ is)) =
      elim (Bool-cases (k == 0)) [
        | inl none_left ↦ ground (arith, none_left)
        | inr more_left ↦
            let inner : suc j < n = ground (arith, more_left, le) in
            let next = next_mod index n inner in
            selects_lem k (index + 1) (i ∷ is) h (rw next (omega arith)) (omega arith)
            ∙ ap (λ t. take k (drop t (i ∷ is))) next
      ] in
    ap (λ t. get_or (i ∷ is) j [] ∷ selects k t (i ∷ is)) unwrapped
    ∙ ap (λ t. get_or (i ∷ is) j [] ∷ t) later
    ∙ sym (ap (take (suc k)) inside)
