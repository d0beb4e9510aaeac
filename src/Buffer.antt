-- ===== src/Buffer.antt =====
-- The byte buffer of a TCP stream: src/tcp_buffer.cc and include/net/tcp/tcp_buffer.h.
-- An `int64_t` index is a number, and `none` is an access that C++ leaves undefined: outside the
-- vector, or `memcpy`/`memmove` with a negative count. A resize that would leave the write index
-- negative is counted there too.
use mcoro_rpc.Common.{
  copy_to, slice, ℕ, ◌+◌, ◌-◌, ◌*◌, ◌/◌, ◌++◌, [], Option, none, some, Bytes, ltb, leb, ◌==◌,
  if◌then◌else◌, length, take, drop, replicate, ℤ, pos, negsuc, sub_ℕ, ◌+ℤ◌, ltb_ℤ,
}
pub mod Holds
pub mod Fifo
pub mod Calls

pub record TcpBuffer : Type 0 where
  pub read_index : ℕ
  pub write_index : ℕ
  pub size : ℕ
  pub buffer : Bytes

unfoldable pub create : ℕ → TcpBuffer
create size = record { read_index = 0; write_index = 0; size = size; buffer = replicate size 0 }

unfoldable pub read_able : TcpBuffer → ℤ
read_able b = sub_ℕ b.write_index b.read_index

unfoldable pub write_able : TcpBuffer → ℤ
write_able b = sub_ℕ (length b.buffer) b.write_index

unfoldable pub resize_buffer : TcpBuffer → ℕ → Option TcpBuffer
unfolding read_able
resize_buffer b new_size = if leb new_size (length b.buffer) then some b else elim (read_able b) [
  | negsuc _ ↦ none
  | pos count ↦ elim (slice b.buffer b.read_index count) [
    | none ↦ none
    | some old ↦ elim (copy_to (replicate new_size 0) 0 old) [
      | none ↦ none
      | some tmp ↦ some (record b { read_index = 0; write_index = count; buffer = tmp })
    ]
  ]
]

unfoldable pub adjust_buffer : TcpBuffer → Option TcpBuffer
unfolding read_able
adjust_buffer b = if ltb b.read_index (length b.buffer / 3) then some b else elim (read_able b) [
  | negsuc _ ↦ none
  | pos count ↦
      if count == 0
      then some (record b { read_index = 0; write_index = 0 })
      else elim (slice b.buffer b.read_index count) [
        | none ↦ none
        | some kept ↦ elim (copy_to b.buffer 0 kept) [
          | none ↦ none
          | some moved ↦ some (record b { read_index = 0; write_index = count; buffer = moved })
        ]
      ]
]

unfoldable pub write_to_buffer : TcpBuffer → Bytes → Option TcpBuffer
unfolding write_able
write_to_buffer b src =
    elim (if ltb_ℤ (write_able b) (pos (length src))
      then resize_buffer b ((b.write_index + length src) * 3 / 2)
      else some b) [
        | none ↦ none
        | some b' ↦ elim (copy_to b'.buffer b'.write_index src) [
          | none ↦ none
          | some filled ↦
              some (record b' { write_index = b'.write_index + length src; buffer = filled })
        ]
      ]

-- The bytes appended to `re`, beside the buffer that is left.
pub read_from_buffer : TcpBuffer → ℤ → Option (Bytes × TcpBuffer)
unfolding read_able
read_from_buffer b size = elim (if ltb_ℤ (read_able b) size then read_able b else size) [
  | negsuc _ ↦ if b.write_index == b.read_index then some ([], b) else none
  | pos read_size ↦
      if b.write_index == b.read_index
      then some ([], b)
      else elim (slice b.buffer b.read_index read_size) [
        | none ↦ none
        | some out ↦ elim (adjust_buffer (record b { read_index = b.read_index + read_size })) [
          | none ↦ none
          | some b' ↦ some (out, b')
        ]
      ]
]

-- `newIndex > m_buffer.size()` compares as `size_t`, where a negative index is huge.
unfoldable pub move_read_index : TcpBuffer → ℤ → Option TcpBuffer
move_read_index b size = elim (pos b.read_index +ℤ size) [
  | negsuc _ ↦ some b
  | pos i ↦ if ltb (length b.buffer) i then some b else adjust_buffer (record b { read_index = i })
]

unfoldable pub move_write_index : TcpBuffer → ℤ → Option TcpBuffer
move_write_index b size = elim (pos b.write_index +ℤ size) [
  | negsuc _ ↦ some b
  | pos i ↦ if ltb (length b.buffer) i then some b else adjust_buffer (record b { write_index = i })
]

-- The bytes written and not yet read.
unfoldable pub contents : TcpBuffer → Bytes
contents b = take (b.write_index - b.read_index) (drop b.read_index b.buffer)
