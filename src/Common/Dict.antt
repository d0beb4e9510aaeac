-- ===== src/Common/Dict.antt =====
-- `std::unordered_map` with whole-number keys as an association list, and `std::unordered_set` as a
-- list. `insert` replaces, `erase` takes every entry of the key away.
use Prim.Native.Nat.{ℕ}
use mathlib.Core.Path.{◌≡◌}
use mathlib.Core.Bool.{Bool, false, ◌||◌, not, ◌&&◌}
use mathlib.Core.Option.{Option, none, some}
use mathlib.Core.List.{List, [], ◌∷◌}
use native.Mathlib.Omega.{arith}
use mcoro_rpc.Common.Tests.{◌==◌, if◌then◌else◌}

module _ {ℓ} {V : Type ℓ} where
  abbrev pub lookup : ℕ → List (ℕ × V) → Option V
  lookup k [] = none
  lookup k ((j, v) ∷ m) = if j == k then some v else lookup k m

  abbrev pub erase : ℕ → List (ℕ × V) → List (ℕ × V)
  erase k [] = []
  erase k ((j, v) ∷ m) = let rest = erase k m in if j == k then rest else (j, v) ∷ rest

  abbrev pub insert : ℕ → V → List (ℕ × V) → List (ℕ × V)
  insert k v m = (k, v) ∷ erase k m

module _ {V : Type 0} where
  pub lookup-erase :
      (k j : ℕ) (m : List (ℕ × V)) → lookup j (erase k m) ≡ (if k == j then none else lookup j m)
  lookup-erase k j [] = ground arith
  lookup-erase k j ((i, v) ∷ m) = ground (arith, lookup-erase k j m)

  pub lookup-insert :
      (k j : ℕ) (v : V) (m : List (ℕ × V))
      → lookup j (insert k v m) ≡ (if k == j then some v else lookup j m)
  lookup-insert k j v m = ground (arith, lookup-erase k j m)

abbrev pub member : ℕ → List ℕ → Bool
member k [] = false
member k (j ∷ s) = j == k || member k s

abbrev pub remove : ℕ → List ℕ → List ℕ
remove k [] = []
remove k (j ∷ s) = let rest = remove k s in if j == k then rest else j ∷ rest

abbrev pub add : ℕ → List ℕ → List ℕ
add k s = if member k s then s else k ∷ s

pub member-remove : (k j : ℕ) (s : List ℕ) → member j (remove k s) ≡ (not (k == j) && member j s)
member-remove k j [] = ground arith
member-remove k j (i ∷ s) = ground (arith, member-remove k j s)

pub member-add : (k j : ℕ) (s : List ℕ) → member j (add k s) ≡ (k == j || member j s)
member-add k j s = ground arith
