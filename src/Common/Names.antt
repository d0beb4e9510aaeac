-- ===== src/Common/Names.antt =====
-- Maps and sets with strings for keys, as association lists and lists: `std::unordered_map` and
-- `std::set` of `std::string`.

use mathlib.Core.Path.{◌≡◌, refl}
use mathlib.Core.Bool.{Bool, true, false, ◌||◌, not, ◌&&◌}
use mathlib.Core.Option.{Option, none, some}
use mathlib.Core.List.{List, [], ◌∷◌}
use native.Mathlib.Omega.{arith}
use mcoro_rpc.Common.Tests.{if◌then◌else◌}
use mcoro_rpc.Common.Texts.{Bytes, same, same_iff}

abbrev pub has_name : Bytes → List Bytes → Bool
has_name a [] = false
has_name a (b ∷ s) = same b a || has_name a s

abbrev pub add_name : Bytes → List Bytes → List Bytes
add_name a s = if has_name a s then s else a ∷ s

abbrev pub remove_name : Bytes → List Bytes → List Bytes
remove_name a [] = []
remove_name a (b ∷ s) = let rest = remove_name a s in if same b a then rest else b ∷ rest

-- The names of the list that the set has not.
abbrev pub names_without : List Bytes → List Bytes → List Bytes
names_without [] s = []
names_without (a ∷ l) s = let rest = names_without l s in if has_name a s then rest else a ∷ rest

module _ {ℓ} {V : Type ℓ} where
  abbrev pub at_name : Bytes → List (Bytes × V) → Option V
  at_name a [] = none
  at_name a ((b, v) ∷ m) = let rest = at_name a m in if same b a then some v else rest

  abbrev pub erase_name : Bytes → List (Bytes × V) → List (Bytes × V)
  erase_name a [] = []
  erase_name a ((b, v) ∷ m) = let rest = erase_name a m in if same b a then rest else (b, v) ∷ rest

  abbrev pub put_name : Bytes → V → List (Bytes × V) → List (Bytes × V)
  put_name a v m = (a, v) ∷ erase_name a m

  -- Every key is a name of the list.
  abbrev pub KeysIn : List Bytes → List (Bytes × V) → Type 0
  KeysIn l [] = Unit {0}
  KeysIn l ((a, v) ∷ m) = (has_name a l ≡ true) × KeysIn l m

module _ {V : Type 0} where
  pub erase_name-KeysIn :
      (a : Bytes) (l : List Bytes) (m : List (Bytes × V)) → KeysIn l m → KeysIn l (erase_name a m)
  erase_name-KeysIn a l [] k = tt
  erase_name-KeysIn a l ((b, v) ∷ m) k = ground (arith, k, erase_name-KeysIn a l m k.1)

pub has_name-names_without :
    (a : Bytes) (l s : List Bytes)
    → has_name a (names_without l s) ≡ (has_name a l && not (has_name a s))
has_name-names_without a [] s = refl
has_name-names_without a (b ∷ l) s = ground (arith, has_name-names_without a l s, (same_iff b a).0)
