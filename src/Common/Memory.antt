-- ===== src/Common/Memory.antt =====
-- `memcpy` between vectors of bytes: a copy in or out, or `none` where it leaves a vector.
use mcoro_rpc.Common.Tests.{leb, if◌then◌else◌}
use mcoro_rpc.Common.Texts.{Bytes}
use mcoro_rpc.Common.Lists.{length, take, drop, length-append, take-append, drop-append, drop-drop}
use Prim.Native.Nat.{ℕ, ◌+◌, ◌≤◌}
use mathlib.Core.Path.{◌≡◌}
use mathlib.Core.Option.{Option, none, some}
use mathlib.Core.List.{◌++◌}
use native.Mathlib.Omega.{arith}

-- `std::memcpy(&dst[at], src, n)` for a list of `n` bytes.
abbrev pub copy_to : Bytes → ℕ → Bytes → Option Bytes
copy_to dst at src =
    if leb (at + length src) (length dst)
    then some (take at dst ++ (src ++ drop (at + length src) dst))
    else none

-- The `n` bytes from `&src[at]` on.
abbrev pub slice : Bytes → ℕ → ℕ → Option Bytes
slice src at n = if leb (at + n) (length src) then some (take n (drop at src)) else none

pub slice_of_prefix :
    (pre q post : Bytes) (at n : ℕ)
    → at ≡ length pre
    → n ≡ length q
    → slice (pre ++ (q ++ post)) at n ≡ some q
slice_of_prefix pre q post at n e f = ground (
  arith,
  length-append pre (q ++ post),
  length-append q post,
  drop-append at pre (q ++ post),
  take-append n q post,
)

pub copy_to_prefix :
    (dst pre post src : Bytes) (at : ℕ)
    → dst ≡ pre ++ post
    → at ≡ length pre
    → length src ≤ length post
    → copy_to dst at src ≡ some (pre ++ (src ++ drop (length src) post))
copy_to_prefix dst pre post src at e f h = ground (
  arith,
  length-append pre post,
  take-append at pre post,
  drop-append at pre post,
  drop-drop (length src) at (pre ++ post),
)
