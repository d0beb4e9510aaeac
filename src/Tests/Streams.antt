-- ===== src/Tests/Streams.antt =====
-- Streams over a socket that never blocks.
use mcoro_rpc.Common.{
  refl, sym, [], ◌∷◌, ◌++◌, Bytes, length, take, drop, take-append-drop, arith, length-take, ap,
  take_all,
}
use mcoro_rpc.Stream.{Socket, received, sent, read_to_buffer}
use mcoro_rpc.Stream.Reads.{Reads, read_to_buffer-Reads}
use mcoro_rpc.Tests.Buffers.{two_bytes, two_bytes-Holds}

-- Its state is the bytes to come and the bytes taken.
abbrev pub ready_socket : Socket (Bytes × Bytes)
ready_socket = record {
  incoming = λ k. k.0;
  outgoing = λ k. k.1;
  recv = λ n k. (received (take n k.0), (drop n k.0, k.1));
  send = λ text k. (sent (length text), (k.0, k.1 ++ text));
  recv_takes = λ n k. (omega (arith, length-take n k.0), sym (take-append-drop n k.0));
  recv_sends_none = λ n k. refl;
  send_gives =
      λ text k. (omega arith, ap (λ t. k.1 ++ t) (sym (take_all (length text) text (omega arith))));
}

read_to_buffer-Reads_example :
    Reads ready_socket
      (7 ∷ 8 ∷ [])
      0
      (1 ∷ 2 ∷ 3 ∷ [], [])
      (read_to_buffer ready_socket 9 0 two_bytes (1 ∷ 2 ∷ 3 ∷ [], []))
read_to_buffer-Reads_example =
    read_to_buffer-Reads ready_socket 9 0 (7 ∷ 8 ∷ []) (1 ∷ 2 ∷ 3 ∷ [], []) two_bytes-Holds
