-- ===== src/Common/Decimal.antt =====
-- Numbers as decimal text: `std::to_string` and `std::atoi`.
use Prim.Native.Nat.{ℕ, zero, suc, ◌+◌, ◌*◌, ◌/◌, ◌%◌, ◌^◌, ◌-◌, ◌≤◌, ◌<◌}
use mathlib.Core.Path.{◌≡◌, refl, sym, ap, subst, ◌∙◌}
use mathlib.Core.Logic.{inl, inr}
use mathlib.Core.Bool.{Bool, ◌&&◌, ◌||◌}
use mathlib.Core.Option.{Option, none, some}
use mathlib.Core.List.{[], ◌∷◌, ◌++◌}
use native.Mathlib.Omega.{arith}
use mcoro_rpc.Common.Tests.{ltb, leb, ◌==◌, if◌then◌else◌, Bool-cases}
use mcoro_rpc.Common.Int.{ℤ, pos, negsuc}
use mcoro_rpc.Common.Texts.{Bytes}

-- The last digits of a number, so many at most; a 64-bit number has no more than twenty.
unfoldable pub digits : ℕ → ℕ → Bytes
digits zero n = []
digits (suc k) n =
    let higher = digits k (n / 10) in
    if ltb n 10 then (48 + n) ∷ [] else higher ++ ((48 + n % 10) ∷ [])

abbrev pub to_string : ℕ → Bytes
to_string n = digits 20 n

abbrev pub is_digit : ℕ → Bool
is_digit c = leb 48 c && leb c 57

abbrev pub is_space : ℕ → Bool
is_space c = c == 32 || (leb 9 c && leb c 13)

-- The number that the digits at the beginning go on with.
abbrev pub digits_value : ℕ → Bytes → ℕ
digits_value n [] = n
digits_value n (c ∷ cs) =
    let more = digits_value (n * 10 + (c - 48)) cs in if is_digit c then more else n

abbrev pub skip_space : Bytes → Bytes
skip_space [] = []
skip_space (c ∷ cs) = let rest = skip_space cs in if is_space c then rest else c ∷ cs

abbrev pub minus : ℕ → ℤ
minus zero = pos 0
minus (suc n) = negsuc n

abbrev pub signed_value : Bytes → ℤ
signed_value [] = pos 0
signed_value (c ∷ cs) =
    if c == 45
    then minus (digits_value 0 cs)
    else (if c == 43 then pos (digits_value 0 cs) else pos (digits_value 0 (c ∷ cs)))

abbrev pub in_int : ℤ → Option ℤ
in_int (pos n) = if ltb n (2 ^ 31) then some (pos n) else none
in_int (negsuc n) = if ltb n (2 ^ 31) then some (negsuc n) else none

-- `none` where no `int` is the number: that is undefined.
pub atoi : Bytes → Option ℤ
atoi text = in_int (signed_value (skip_space text))

abbrev pub pow10 : ℕ → ℕ
pow10 zero = 1
pow10 (suc k) = 10 * pow10 k

abbrev AllDigits : Bytes → Type 0
AllDigits [] = Unit {0}
AllDigits (c ∷ cs) = (48 ≤ c) × (c ≤ 57) × AllDigits cs

append-AllDigits : (xs : Bytes) (d : ℕ) → AllDigits xs → d < 10 → AllDigits (xs ++ ((48 + d) ∷ []))
append-AllDigits [] d a h = (omega arith, omega arith, tt)
append-AllDigits (c ∷ cs) d a h = (a.0, a.1, append-AllDigits cs d a.2 h)

digits-AllDigits : (k n : ℕ) → AllDigits (digits k n)
unfolding digits
digits-AllDigits zero n = tt
digits-AllDigits (suc k) n = elim (Bool-cases (ltb n 10)) [
  | inl h ↦ rw (h, digits) (omega arith, ground (arith, h), tt)
  | inr h ↦
      rw (h, digits)
        (append-AllDigits (digits k (n / 10)) (n % 10) (digits-AllDigits k (n / 10)) (omega arith))
]

digits_value-append :
    (n d : ℕ) (xs : Bytes)
    → AllDigits xs
    → d < 10
    → digits_value n (xs ++ ((48 + d) ∷ [])) ≡ digits_value n xs * 10 + d
digits_value-append n d [] a h = ground arith
digits_value-append n d (c ∷ cs) a h =
    ground (arith, digits_value-append (n * 10 + (c - 48)) d cs a.2 h)

digits_value-digits : (k n : ℕ) → n < pow10 k → digits_value 0 (digits k n) ≡ n
unfolding digits
digits_value-digits zero n h = omega arith
digits_value-digits (suc k) n h = elim (Bool-cases (ltb n 10)) [
  | inl b ↦ ground (arith, b)
  | inr b ↦
      let e =
        digits_value-append 0 (n % 10) (digits k (n / 10)) (digits-AllDigits k (n / 10))
          (omega arith) in
      let f = digits_value-digits k (n / 10) (omega arith) in rw (b, e, f, digits) (omega arith)
]

append-cons : (xs : Bytes) (d : ℕ) → (c : ℕ) × (cs : Bytes) × (xs ++ (d ∷ []) ≡ c ∷ cs)
append-cons [] d = (d, [], refl)
append-cons (c ∷ xs) d = (c, xs ++ (d ∷ []), refl)

digits-cons : (k n : ℕ) → (c : ℕ) × (cs : Bytes) × (digits (suc k) n ≡ c ∷ cs)
unfolding digits
digits-cons k n = elim (Bool-cases (ltb n 10)) [
  | inl h ↦ (48 + n, [], rw (h, digits) refl)
  | inr h ↦
      let (c, cs, e) = append-cons (digits k (n / 10)) (48 + n % 10) in (c, cs, rw (h, digits) e)
]

-- Digits have no space and no sign before them.
signed_value_digits :
    (c : ℕ) (cs : Bytes)
    → AllDigits (c ∷ cs)
    → signed_value (skip_space (c ∷ cs)) ≡ pos (digits_value 0 (c ∷ cs))
signed_value_digits c cs a = ground (arith, a.0, a.1)

-- A number below 2 ^ 31 is read as it was printed.
pub atoi-to_string : (n : ℕ) → n < 2 ^ 31 → atoi (to_string n) ≡ some (pos n)
unfolding atoi
atoi-to_string n h =
    let (c, cs, e) = digits-cons 19 n in
    let all = subst AllDigits e (digits-AllDigits 20 n) in
    let value = digits_value-digits 20 n (omega arith) in
    ap (λ t. in_int (signed_value (skip_space t))) e
    ∙ ap in_int
        (signed_value_digits c cs all ∙ ap (λ t. pos (digits_value 0 t)) (sym e) ∙ ap pos value)
    ∙ ground (arith, h)

-- The text of a number is not empty.
pub to_string-cons : (n : ℕ) → (c : ℕ) × (cs : Bytes) × (to_string n ≡ c ∷ cs)
to_string-cons n = digits-cons 19 n
