-- ===== src/Buffer/Holds.antt =====
-- The representation of a TcpBuffer: the vector is `pre ++ (q ++ post)`, the read index stands
-- before `q` and the write index behind it. Each private step of src/tcp_buffer.cc keeps `q`.
use mcoro_rpc.Common.{
  slice, slice_of_prefix, copy_to_prefix, ℕ, ◌+◌, ◌-◌, ◌/◌, ◌≤◌, ◌≡◌, refl, ap, ◌∙◌, [], ◌++◌,
  Option, some, arith, Bytes, ltb, leb, ◌==◌, length, drop, replicate, length-append, length-drop,
  length-replicate, take-append, drop-append, Bool-cases, nil_of_length, ==_iff, pos, inl, inr,
}
use mcoro_rpc.Buffer.{TcpBuffer, create, resize_buffer, adjust_buffer, contents, read_able}

pub record Holds (b : TcpBuffer) (q : Bytes) : Type 0 where
  pub pre : Bytes
  pub post : Bytes
  pub layout : b.buffer ≡ pre ++ (q ++ post)
  pub at_read : b.read_index ≡ length pre
  pub at_write : b.write_index ≡ length pre + length q

-- What an operation that may fault leaves: no fault, and a buffer holding `q`.
abbrev pub Leaves : Option TcpBuffer → Bytes → Type 0
Leaves r q = (b : TcpBuffer) × (r ≡ some b) × Holds b q

pub create-Holds : (n : ℕ) → Holds (create n) []
unfolding create
create-Holds n = record {
  pre = [];
  post = replicate n 0;
  layout = refl;
  at_read = refl;
  at_write = omega arith;
}

pub read_index-create : (n : ℕ) → (create n).read_index ≡ 0
unfolding create
read_index-create n = refl

pub contents_of_Holds : {b : TcpBuffer} {q : Bytes} → Holds b q → contents b ≡ q
unfolding contents
contents_of_Holds {b} {q} h =
    rw (h.layout, h.at_read, drop-append (length h.pre) h.pre (q ++ h.post) refl)
      (take-append (b.write_index - length h.pre) q h.post (omega (arith, h.at_write)))

pub Holds_of_start :
    {b : TcpBuffer} (q post : Bytes)
    → b.buffer ≡ q ++ post
    → b.read_index ≡ 0
    → b.write_index ≡ length q
    → Holds b q
Holds_of_start q post e r w = record {
  pre = [];
  post = post;
  layout = e;
  at_read = r;
  at_write = w ∙ omega arith;
}

-- The indices of a buffer that holds `q` lie within the vector.
pub Holds_bounds :
    {b : TcpBuffer} (q : Bytes)
    → Holds b q
    → (b.read_index ≤ b.write_index)
      × (b.write_index ≤ length b.buffer)
      × (b.write_index - b.read_index ≡ length q)
Holds_bounds {b} q h = omega (
  arith,
  ap length h.layout,
  length-append h.pre (q ++ h.post),
  length-append q h.post,
  h.at_read,
  h.at_write,
)

pub read_able_of_Holds : {b : TcpBuffer} (q : Bytes) → Holds b q → read_able b ≡ pos (length q)
unfolding read_able
read_able_of_Holds {b} q h = ground (arith, Holds_bounds q h)

pub slice_of_Holds :
    {b : TcpBuffer} (q : Bytes) → Holds b q → slice b.buffer b.read_index (length q) ≡ some q
slice_of_Holds {b} q h =
    rw h.layout (slice_of_prefix h.pre q h.post b.read_index (length q) h.at_read refl)

-- `resizeBuffer` keeps the unread bytes, gives the size asked for, and does not move them up.
pub resize_buffer-Leaves :
    {b : TcpBuffer} (q : Bytes) (n : ℕ)
    → Holds b q
    → (b' : TcpBuffer) × (resize_buffer b n ≡ some b')
      × Holds b' q
      × (n ≤ length b'.buffer)
      × (b'.write_index ≤ b.write_index)
unfolding resize_buffer
resize_buffer-Leaves {b} q n h = elim (Bool-cases (leb n (length b.buffer))) [
  | inl small ↦ (b, rw small, h, ground arith, omega arith)
  | inr large ↦
      let fits : length q ≤ n = ground (arith, Holds_bounds q h) in
      (
        record b {
          read_index = 0;
          write_index = length q;
          buffer = q ++ drop (length q) (replicate n 0);
        },
        rw (
          large,
          read_able_of_Holds q h,
          slice_of_Holds q h,
          copy_to_prefix (replicate n 0) [] (replicate n 0) q 0 refl refl
              (omega (arith, fits, length-replicate {A = ℕ} n 0)),
        ),
        Holds_of_start q (drop (length q) (replicate n 0)) refl refl refl,
        omega (
          arith,
          fits,
          length-append q (drop (length q) (replicate n 0)),
          length-drop {A = ℕ} (length q) (replicate n 0),
          length-replicate {A = ℕ} n 0,
        ),
        omega (arith, Holds_bounds q h),
      )
]

-- `adjustBuffer` keeps the unread bytes.
pub adjust_buffer-Leaves : {b : TcpBuffer} (q : Bytes) → Holds b q → Leaves (adjust_buffer b) q
unfolding adjust_buffer
adjust_buffer-Leaves {b} q h = elim (Bool-cases (ltb b.read_index (length b.buffer / 3))) [
  | inl early ↦ (b, rw early, h)
  | inr late ↦ elim (Bool-cases (length q == 0)) [
    | inl none_left ↦ (
      record b { read_index = 0; write_index = 0 },
      rw (late, read_able_of_Holds q h, none_left),
      rw (nil_of_length q ((==_iff (length q) 0).0 none_left))
          (Holds_of_start [] b.buffer refl refl refl),
    )
    | inr some_left ↦ (
      record b { read_index = 0; write_index = length q; buffer = q ++ drop (length q) b.buffer },
      rw (
        late,
        read_able_of_Holds q h,
        some_left,
        slice_of_Holds q h,
        copy_to_prefix b.buffer [] b.buffer q 0 refl refl (omega (arith, Holds_bounds q h)),
      ),
      Holds_of_start q (drop (length q) b.buffer) refl refl refl,
    )
  ]
]
