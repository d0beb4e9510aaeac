-- ===== src/Wire.antt =====
-- 32-bit integers in network byte order: `htonl`/`ntohl` as include/utils/utils.hpp and
-- src/tinypb_coder.cc use them. An `int32_t` is an integer in range.
use mcoro_rpc.Common.{
  ℕ, ◌+◌, ◌*◌, ◌/◌, ◌%◌, ◌^◌, ◌<◌, ◌≡◌, refl, sym, [], ◌∷◌, ◌++◌, Option, none, some, arith, Bytes,
  length, ℤ, signed32, pattern32, IsInt32, signed32-pattern32, pattern32-lt, slice, slice_of_prefix,
}

-- The four bytes of a 32-bit pattern, the highest first.
unfoldable pub net_bytes : ℕ → Bytes
net_bytes w = w / 2 ^ 24 % 256 ∷ w / 2 ^ 16 % 256 ∷ w / 2 ^ 8 % 256 ∷ w % 256 ∷ []

abbrev pub from_net : Bytes → Option ℕ
from_net (a ∷ b ∷ c ∷ d ∷ []) = some (a * 2 ^ 24 + b * 2 ^ 16 + c * 2 ^ 8 + d)
from_net _ = none

-- `getInt32FromNetByte(&tmp[at])`; `none` reads outside the vector.
pub get_int32_from_net_byte : Bytes → ℕ → Option ℤ
get_int32_from_net_byte tmp at = elim (slice tmp at 4) [
  | none ↦ none
  | some raw ↦ elim (from_net raw) [ none ↦ none | some w ↦ some (signed32 w) ]
]

pub length-net_bytes : (w : ℕ) → length (net_bytes w) ≡ 4
unfolding net_bytes
length-net_bytes w = refl

pub from_net-net_bytes : (w : ℕ) → w < 2 ^ 32 → from_net (net_bytes w) ≡ some w
unfolding net_bytes
from_net-net_bytes w h = ground arith

-- Reading where a 32-bit integer was written gives that integer.
pub get_int32-net_bytes :
    (pre post : Bytes) (z : ℤ) (at : ℕ)
    → IsInt32 z
    → at ≡ length pre
    → get_int32_from_net_byte (pre ++ (net_bytes (pattern32 z) ++ post)) at ≡ some z
unfolding get_int32_from_net_byte
get_int32-net_bytes pre post z at h e = rw (
  slice_of_prefix pre (net_bytes (pattern32 z)) post at 4 e (sym (length-net_bytes (pattern32 z))),
  from_net-net_bytes (pattern32 z) (pattern32-lt z h),
  signed32-pattern32 z h,
  get_int32_from_net_byte,
)
