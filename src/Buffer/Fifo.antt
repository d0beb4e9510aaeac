-- ===== src/Buffer/Fifo.antt =====
-- A TcpBuffer is a queue of bytes: the public operations of src/tcp_buffer.cc on a buffer that
-- holds the bytes `q`, and the class of skips after which it holds none.
use mcoro_rpc.Common.{
  copy_to, slice, slice_of_prefix, copy_to_prefix, ℕ, ◌⊎◌, ◌+◌, ◌*◌, ◌/◌, ◌≤◌, ◌<◌, ◌≡◌, sym, ap,
  ◌∙◌, [], ◌++◌, append_assoc, Option, none, some, arith, Bytes, ltb, ltb_ℤ, ◌==◌, if◌then◌else◌,
  length, take, drop, length-append, length-take, length-drop, take-append-drop, take_all, drop_all,
  Bool-cases, nil_of_length, take-nil, drop-nil, inl, inr, pos-add, pos,
}
use mcoro_rpc.Buffer.{
  resize_buffer, TcpBuffer, adjust_buffer, write_able, write_to_buffer, read_from_buffer,
  move_read_index, move_write_index,
}
use mcoro_rpc.Buffer.Holds.{
  Holds, Leaves, Holds_bounds, resize_buffer-Leaves, adjust_buffer-Leaves, read_able_of_Holds,
}

behind_read :
    {b : TcpBuffer} (q : Bytes) (h : Holds b q) → b.write_index + length h.post ≡ length b.buffer
behind_read {b} q h = omega (
  arith,
  ap length h.layout,
  length-append h.pre (q ++ h.post),
  length-append q h.post,
  h.at_write,
)

slice_of_part :
    {b : TcpBuffer} (q : Bytes) (k : ℕ)
    → Holds b q
    → k ≤ length q
    → slice b.buffer b.read_index k ≡ some (take k q)
slice_of_part {b} q k h le =
    rw (h.layout, ← take-append-drop k q, append_assoc, take-append-drop)
      (slice_of_prefix h.pre (take k q) (drop k q ++ h.post) b.read_index k h.at_read
        (omega (arith, length-take k q)))

-- Room for `n` bytes behind the write index.
append_at :
    {b : TcpBuffer} (q src : Bytes)
    → Holds b q
    → b.write_index + length src ≤ length b.buffer
    → Leaves
        (elim (copy_to b.buffer b.write_index src) [
          | none ↦ none
          | some filled ↦
              some (record b { write_index = b.write_index + length src; buffer = filled })
        ])
        (q ++ src)
append_at {b} q src h room = (
  record b {
    write_index = b.write_index + length src;
    buffer = (h.pre ++ q) ++ (src ++ drop (length src) h.post);
  },
  rw (
      copy_to_prefix b.buffer (h.pre ++ q) h.post src b.write_index
        (h.layout ∙ sym (append_assoc h.pre q h.post))
        (omega (arith, h.at_write, length-append h.pre q)) (omega (arith, room, behind_read q h))),
  record {
    pre = h.pre;
    post = drop (length src) h.post;
    layout =
        append_assoc h.pre q (src ++ drop (length src) h.post)
        ∙ ap (λ t. h.pre ++ t) (sym (append_assoc q src (drop (length src) h.post)));
    at_read = h.at_read;
    at_write = omega (arith, h.at_write, length-append q src);
  },
)

-- A write appends its bytes to those unread, growing the vector if it has to.
pub write_to_buffer-Leaves :
    {b : TcpBuffer} (q src : Bytes) → Holds b q → Leaves (write_to_buffer b src) (q ++ src)
unfolding write_to_buffer write_able
write_to_buffer-Leaves {b} q src h = elim (Bool-cases (ltb_ℤ (write_able b) (pos (length src)))) [
  | inl short ↦
      let (b', e, h', room, low) =
        resize_buffer-Leaves q ((b.write_index + length src) * 3 / 2) h in
      rw (short, e, write_to_buffer) (append_at q src h' (omega arith))
  | inr enough ↦ rw (enough, write_to_buffer) (append_at q src h (ground arith))
]

-- A write to a buffer that nothing was read from leaves the read index at 0.
pub read_index-write_to_buffer :
    (b : TcpBuffer) (src : Bytes) (b' : TcpBuffer)
    → b.read_index ≡ 0
    → write_to_buffer b src ≡ some b'
    → b'.read_index ≡ 0
unfolding write_to_buffer resize_buffer
read_index-write_to_buffer b src b' z e = ground arith

-- The read index moved over the first `n` bytes.
skip-Holds :
    {b : TcpBuffer} (q : Bytes) (n : ℕ)
    → Holds b q
    → n ≤ length q
    → Holds (record b { read_index = b.read_index + n }) (drop n q)
skip-Holds {b} q n h le = record {
  pre = h.pre ++ take n q;
  post = h.post;
  layout =
      h.layout ∙ ap (λ t. h.pre ++ (t ++ h.post)) (sym (take-append-drop n q)) ∙ simp append_assoc;
  at_read = omega (arith, h.at_read, length-append h.pre (take n q), length-take n q);
  at_write =
      omega (arith, h.at_write, length-append h.pre (take n q), length-take n q, length-drop n q);
}

write_index-adjust_buffer :
    (b b' : TcpBuffer) → adjust_buffer b ≡ some b' → b'.write_index ≤ b.write_index
unfolding adjust_buffer
write_index-adjust_buffer b b' e = ground arith

-- A skip never moves the write index up.
pub write_index-move_read_index :
    (b : TcpBuffer) (n : ℕ) {b' : TcpBuffer}
    → move_read_index b (pos n) ≡ some b'
    → b'.write_index ≤ b.write_index
unfolding move_read_index
write_index-move_read_index b n {b' = b'} e =
    let e' = rw (pos-add b.read_index n, move_read_index) at e in
    ground (arith, write_index-adjust_buffer (record b { read_index = b.read_index + n }) b')

-- A skip that ends in the first third of the vector moves the read index and nothing else.
pub move_early :
    (b : TcpBuffer) (n : ℕ)
    → b.read_index + n < length b.buffer / 3
    → move_read_index b (pos n) ≡ some (record b { read_index = b.read_index + n })
unfolding move_read_index adjust_buffer
move_early b n h = rw (pos-add b.read_index n, move_read_index) (ground arith)

-- Skipping `n` unread bytes, where there are as many, leaves the others.
pub move_read_index-Leaves :
    {b : TcpBuffer} (q : Bytes) (n : ℕ)
    → Holds b q
    → n ≤ length q
    → Leaves (move_read_index b (pos n)) (drop n q)
unfolding move_read_index
move_read_index-Leaves {b} q n h le =
    rw (pos-add b.read_index n, move_read_index)
      (elim (Bool-cases (ltb (length b.buffer) (b.read_index + n))) [
        | inl out ↦ absurd (ground (arith, Holds_bounds q h))
        | inr inside ↦ rw inside (adjust_buffer-Leaves (drop n q) (skip-Holds q n h le))
      ])

read_step :
    {b : TcpBuffer} (q : Bytes) (k : ℕ)
    → Holds b q
    → k ≤ length q
    → (b' : TcpBuffer) × ◌≡◌ {A = Option (Bytes × TcpBuffer)}
        (if b.write_index == b.read_index
          then some ([], b)
          else elim (slice b.buffer b.read_index k) [
            | none ↦ none
            | some out ↦ elim (adjust_buffer (record b { read_index = b.read_index + k })) [
              | none ↦ none
              | some b' ↦ some (out, b')
            ]
          ])
        (some (take k q, b'))
      × Holds b' (drop k q)
read_step {b} q k h le = elim (Bool-cases (b.write_index == b.read_index)) [
  | inl same_index ↦
      let e = nil_of_length q (ground (arith, Holds_bounds q h)) in
      (b, rw (same_index, e) (rw take-nil), rw (e, drop-nil) (rw e at h))
  | inr apart ↦
      let (b', e, h') = adjust_buffer-Leaves (drop k q) (skip-Holds q k h le) in
      (b', rw (apart, slice_of_part q k h le, e), h')
]

-- A read returns the oldest bytes, as many as asked for and present, and leaves the others.
pub read_from_buffer_refines :
    {b : TcpBuffer} (q : Bytes) (n : ℕ)
    → Holds b q
    → (b' : TcpBuffer) × (read_from_buffer b (pos n) ≡ some (take n q, b')) × Holds b' (drop n q)
unfolding read_from_buffer
read_from_buffer_refines {b} q n h = elim (Bool-cases (ltb_ℤ (pos (length q)) (pos n))) [
  | inl more ↦
      let le : length q ≤ n = ground arith in
      rw (read_able_of_Holds q h, more, read_from_buffer, take_all n q le, drop_all n q le)
        (rw (take_all (length q) q (omega arith), drop_all (length q) q (omega arith)) at
          (read_step q (length q) h (omega arith)))
  | inr enough ↦
      rw (read_able_of_Holds q h, enough, read_from_buffer) (read_step q n h (ground arith))
]

-- Bytes that stand behind the write index join the queue when the index moves over them.
pub move_write_index-Leaves :
    {b : TcpBuffer} (q src rest : Bytes) (h : Holds b q)
    → h.post ≡ src ++ rest
    → Leaves (move_write_index b (pos (length src))) (q ++ src)
unfolding move_write_index
move_write_index-Leaves {b} q src rest h e =
    rw (pos-add b.write_index (length src), move_write_index)
      (elim (Bool-cases (ltb (length b.buffer) (b.write_index + length src))) [
        | inl out ↦ absurd (ground (arith, behind_read q h, ap length e, length-append src rest))
        | inr inside ↦ rw inside (
            adjust_buffer-Leaves (q ++ src) (record {
              pre = h.pre;
              post = rest;
              layout =
                  h.layout
                  ∙ ap (λ t. h.pre ++ (q ++ t)) e
                  ∙ ap (λ t. h.pre ++ t) (sym (append_assoc q src rest));
              at_read = h.at_read;
              at_write = omega (arith, h.at_write, length-append q src);
            }))
      ])

-- A skip over more than the unread bytes that stays inside the vector is not refused: it faults, or
-- leaves the read index behind the write index, so that the buffer holds no bytes at all.
pub move_read_index_past_end :
    {b : TcpBuffer} (q : Bytes) (n : ℕ)
    → Holds b q
    → length q < n
    → b.read_index + n ≤ length b.buffer
    → (move_read_index b (pos n) ≡ none)
      ⊎ ((b' : TcpBuffer) × (move_read_index b (pos n) ≡ some b')
          × (b'.write_index < b'.read_index)
          × ((q' : Bytes) → ¬ Holds b' q'))
unfolding move_read_index adjust_buffer
move_read_index_past_end {b} q n h past inside =
    let bounds = Holds_bounds q h in
    let behind : b.write_index < b.read_index + n = omega arith in
    rw (pos-add b.read_index n, move_read_index)
      (elim (Bool-cases (ltb (b.read_index + n) (length b.buffer / 3))) [
        | inl early ↦ inr (
          record b { read_index = b.read_index + n },
          ground arith,
          behind,
          λ q' h'. absurd (omega (arith, Holds_bounds q' h')),
        )
        | inr late ↦ inl (ground arith)
      ])
