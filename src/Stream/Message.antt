-- ===== src/Stream/Message.antt =====
-- `TcpStream::readProtocolMessage` of src/tcpstream.cc. Both loops are bounded by one fuel, and
-- each read of the socket by another.
pub mod Waits
use mcoro_rpc.Common.{
  ℕ, zero, suc, ◌+◌, ◌-◌, List, [], ◌∷◌, Option, none, some, Bytes, ℤ, pos, negsuc, ltb, ltb_ℤ,
  if◌then◌else◌, get_elem?, ◌==◌, ◌+ℤ◌, slice, ◌^◌, pos_part,
}
use mcoro_rpc.Buffer.{TcpBuffer, read_able, move_read_index}
use mcoro_rpc.Wire.{get_int32_from_net_byte}
use mcoro_rpc.Codec.{pb_start}
use mcoro_rpc.Stream.{Socket, End, done, thrown, more}
use mcoro_rpc.Stream.Tcp.{TcpStream, read_stream}

module _ {K : Type 0} (socket : Socket K) (io_fuel : ℕ) where
  -- The inner loop, which ends when the buffer has `total_len` bytes to read.
  pub read_whole : ℕ → ℤ → TcpStream K → Option (End × TcpStream K)
  read_whole zero total_len stream = some (more, stream)
  read_whole (suc fuel) total_len stream =
      if ltb_ℤ (read_able stream.read_buffer) total_len
      then elim (read_stream socket io_fuel stream) [
        | none ↦ none
        | some (end, _, s) ↦
            let rest = read_whole fuel total_len s in
            elim end [ done ↦ rest | thrown ↦ some (thrown, s) | more ↦ some (more, s) ]
      ]
      else some (done, stream)

  -- The message and the buffer behind it. A negative length is one that `reserve` refuses.
  pub take_message : ℤ → TcpStream K → Option (End × Bytes × TcpStream K)
  take_message (negsuc n) stream = some (thrown, [], stream)
  take_message (pos total_len) stream =
      elim (slice stream.read_buffer.buffer stream.read_buffer.read_index total_len) [
        | none ↦ none
        | some result ↦ elim (move_read_index stream.read_buffer (pos total_len)) [
          | none ↦ none
          | some b ↦ some (done, result, record stream { read_buffer = b })
        ]
      ]

  -- The part behind a start byte, with `1 + 4 + pk_len` as an `int`.
  pub read_body : ℕ → TcpStream K → Option (End × Bytes × TcpStream K)
  unfolding read_whole take_message
  read_body fuel stream =
      elim (get_int32_from_net_byte stream.read_buffer.buffer (stream.read_buffer.read_index + 1)) [
        | none ↦ none
        | some pk_len ↦
            let total_len = pos 5 +ℤ pk_len in
            if ltb (pos_part total_len) (2 ^ 31)
            then elim (read_whole fuel total_len stream) [
              | none ↦ none
              | some (end, s) ↦ elim end [
                | done ↦ take_message total_len s
                | thrown ↦ some (thrown, [], s)
                | more ↦ some (more, [], s)
              ]
            ]
            else none
      ]

  pub read_protocol_message : ℕ → TcpStream K → Option (End × Bytes × TcpStream K)
  unfolding read_body
  read_protocol_message zero stream = some (more, [], stream)
  read_protocol_message (suc fuel) stream =
      if ltb_ℤ (read_able stream.read_buffer) (pos 5)
      then elim (read_stream socket io_fuel stream) [
        | none ↦ none
        | some (end, _, s) ↦
            let rest = read_protocol_message fuel s in
            elim end [ done ↦ rest | thrown ↦ some (thrown, [], s) | more ↦ some (more, [], s) ]
      ]
      else elim (get_elem? stream.read_buffer.buffer stream.read_buffer.read_index) [
        | none ↦ none
        | some first_byte ↦
            if first_byte == pb_start
            then read_body fuel stream
            else elim (move_read_index stream.read_buffer (pos 1)) [
              | none ↦ none
              | some b ↦ read_protocol_message fuel (record stream { read_buffer = b })
            ]
      ]
