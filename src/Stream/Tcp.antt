-- ===== src/Stream/Tcp.antt =====
-- The stream as an object: `TcpStream` of include/net/tcpstream.hpp and src/tcpstream.cc with its
-- descriptor and its two buffers. The addresses are the kernel's.
use mcoro_rpc.Common.{ℕ, [], Option, none, some, Bytes, refl, ℤ, pos, negsuc}
use mcoro_rpc.Buffer.{TcpBuffer, create, read_able, read_from_buffer}
use mcoro_rpc.Stream.{
  Socket, recv_failed, send_failed, End, done, thrown, more, read_to_buffer, write,
}

-- `m_fd` is `none` for -1. `K` is the kernel's state of the socket.
pub record TcpStream (K : Type 0) : Type 0 where
  pub fd : Option ℕ
  pub read_buffer : TcpBuffer
  pub write_buffer : TcpBuffer
  pub kernel : K

module _ {K : Type 0} where
  pub new_stream : Option ℕ → ℕ → K → TcpStream K
  new_stream fd buffer_size kernel = record {
    fd = fd;
    read_buffer = create buffer_size;
    write_buffer = create buffer_size;
    kernel = kernel;
  }

  -- With the descriptor that the kernel is told to close.
  unfoldable pub close : TcpStream K → TcpStream K × Option ℕ
  close stream = (record stream { fd = none }, stream.fd)

  -- A call on the descriptor -1 fails.
  abbrev pub closed_socket : Socket K → Socket K
  closed_socket socket = record {
    incoming = socket.incoming;
    outgoing = socket.outgoing;
    recv = λ n k. (recv_failed, k);
    send = λ text k. (send_failed, k);
    recv_takes = λ n k. refl;
    recv_sends_none = λ n k. refl;
    send_gives = λ text k. refl;
  }

  unfoldable pub socket_of : Socket K → Option ℕ → Socket K
  socket_of socket none = closed_socket socket
  socket_of socket (some fd) = socket

  module _ (socket : Socket K) where
    unfoldable pub read_stream : ℕ → TcpStream K → Option (End × ℕ × TcpStream K)
    read_stream fuel stream =
        elim (read_to_buffer (socket_of socket stream.fd) fuel 0 stream.read_buffer stream.kernel) [
          | none ↦ none
          | some (end, total, b, k) ↦
              some (end, total, record stream { read_buffer = b; kernel = k })
        ]

    unfoldable pub write_stream : ℕ → Bytes → TcpStream K → Option (End × TcpStream K)
    write_stream fuel text stream =
        elim (write (socket_of socket stream.fd) fuel text stream.write_buffer stream.kernel) [
          | none ↦ none
          | some (end, b, k) ↦ some (end, record stream { write_buffer = b; kernel = k })
        ]

    -- The bytes that `read` and `read_until_eof` take from the buffer behind `readToBuffer`.
    take_bytes : ℤ → TcpStream K → Option (End × Bytes × TcpStream K)
    take_bytes size stream = elim (read_from_buffer stream.read_buffer size) [
      | none ↦ none
      | some (out, b) ↦ some (done, out, record stream { read_buffer = b })
    ]

    pub read_until_eof : ℕ → TcpStream K → Option (End × Bytes × TcpStream K)
    unfolding read_stream take_bytes
    read_until_eof fuel stream = elim (read_stream fuel stream) [
      | none ↦ none
      | some (end, _, s) ↦ elim end [
        | done ↦ take_bytes (read_able s.read_buffer) s
        | thrown ↦ some (thrown, [], s)
        | more ↦ some (more, [], s)
      ]
    ]

    pub read : ℕ → ℤ → TcpStream K → Option (End × Bytes × TcpStream K)
    unfolding read_stream take_bytes
    read fuel (negsuc n) stream = read_until_eof fuel stream
    read fuel (pos size) stream = elim (read_stream fuel stream) [
      | none ↦ none
      | some (end, _, s) ↦ elim end [
        | done ↦ take_bytes (pos size) s
        | thrown ↦ some (thrown, [], s)
        | more ↦ some (more, [], s)
      ]
    ]
