-- ===== src/Codec/Decode/Fields.antt =====
-- A cursor into the copy of the vector, and what each read of `decode` gives where the bytes that
-- the encoder wrote stand at the cursor.
use mcoro_rpc.Common.{
  ℕ, suc, ◌+◌, ◌-◌, ◌<◌, ◌≡◌, refl, sym, ap, ◌∙◌, [], ◌∷◌, ◌++◌, append_assoc, some, arith, Bytes,
  length, get_elem?, replicate, slice_of_prefix, length-append, ℤ, pos, IsInt32, pattern32,
  get_elem?-append_right,
}
use mcoro_rpc.Wire.{net_bytes, get_int32_from_net_byte, get_int32-net_bytes}
use mcoro_rpc.Codec.Decode.{ok, until_nul, copy_field, copy_data, before_end, or_fault}

-- No byte is NUL.
abbrev pub NulFree : Bytes → Type 0
NulFree [] = Unit {0}
NulFree (c ∷ cs) = (0 < c) × NulFree cs

until_nul_of_NulFree :
    (s : Bytes) (n : ℕ) → NulFree s → until_nul (s ++ replicate (suc n) 0) ≡ some s
unfolding until_nul
until_nul_of_NulFree [] n h = refl
until_nul_of_NulFree (c ∷ cs) n h = ground (arith, until_nul_of_NulFree cs n h.1)

-- `rest` stands in `tmp` from index `at` on.
pub record At (tmp : Bytes) (at : ℕ) (rest : Bytes) : Type 0 where
  pub before : Bytes
  pub layout : tmp ≡ before ++ rest
  pub index : at ≡ length before

pub advance :
    {tmp : Bytes} {at : ℕ} (xs rest : Bytes) (n : ℕ)
    → length xs ≡ n
    → At tmp at (xs ++ rest)
    → At tmp (at + n) rest
advance xs rest n e c = record {
  before = c.before ++ xs;
  layout = c.layout ∙ sym (append_assoc c.before xs rest);
  index = omega (arith, c.index, length-append c.before xs);
}

pub int-At :
    {tmp : Bytes} {at : ℕ} (z : ℤ) (rest : Bytes)
    → IsInt32 z
    → At tmp at (net_bytes (pattern32 z) ++ rest)
    → or_fault (get_int32_from_net_byte tmp at) ≡ ok z
int-At {at = at} z rest h c = rw (c.layout, get_int32-net_bytes c.before rest z at h c.index)

-- A field of fewer bytes than its array, with no NUL, is copied whole.
pub field-At :
    (cap : ℕ) {tmp : Bytes} {at : ℕ} (s rest : Bytes)
    → NulFree s
    → length s < cap
    → At tmp at (s ++ rest)
    → copy_field cap tmp at (pos (length s)) ≡ ok (length s, s)
unfolding copy_field
field-At cap {at = at} s rest h small c =
    let room : cap - length s ≡ suc (cap - length s - 1) = omega arith in
    let part = slice_of_prefix c.before s rest at (length s) c.index refl in
    let text = until_nul_of_NulFree s (cap - length s - 1) h in
    rw (c.layout, copy_field)
      (ground (arith, part, ap (λ k. until_nul (s ++ replicate k 0)) room, text))

pub data-At :
    {tmp : Bytes} {at : ℕ} (s rest : Bytes)
    → At tmp at (s ++ rest)
    → copy_data tmp at (pos (length s)) ≡ ok s
unfolding copy_data
data-At {at = at} s rest c =
    rw (c.layout, copy_data, slice_of_prefix c.before s rest at (length s) c.index refl)

pub before_end_lt : (i e : ℕ) → i < e → before_end i e ≡ ok tt
before_end_lt i e h = ground arith

pub byte-At :
    {tmp : Bytes} {at : ℕ} (x : ℕ) (rest : Bytes) → At tmp at (x ∷ rest) → get_elem? tmp at ≡ some x
byte-At {at = at} x rest c =
    let e : at ≡ length c.before + 0 = omega (arith, c.index) in
    rw (c.layout, e) (get_elem?-append_right c.before (x ∷ rest) 0)
