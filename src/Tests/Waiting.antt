-- ===== src/Tests/Waiting.antt =====
-- Waiting: for a task, for a socket and for a message.
use mcoro_rpc.Common.{◌≡◌, refl, [], ◌∷◌, some, none, true, Bytes, arith, inl, length}
use mcoro_rpc.WaitFor.{fires, ending, wait_for, wait_for_lem}
use mcoro_rpc.Buffer.{TcpBuffer}
use mcoro_rpc.Buffer.Holds.{Holds}
use mcoro_rpc.Stream.{done, write}
use mcoro_rpc.Stream.Progress.{IsPatient, write_done}
use mcoro_rpc.Tests.Buffers.{two_bytes, two_bytes-Holds}
use mcoro_rpc.Tests.Streams.{ready_socket}

wait_for_lem_example :
    (wait_for (fires ∷ fires ∷ []) ≡ none)
    × (wait_for (fires ∷ fires ∷ ending true ∷ []) ≡ some (record { ok = true; is_timeout = true }))
wait_for_lem_example = wait_for_lem 2 true []

pub ready_socket-IsPatient : IsPatient ready_socket (λ k. 0)
ready_socket-IsPatient = record { goes = λ c cs k. inl (length cs, refl, omega arith) }

write_done_example :
    (b' : TcpBuffer) × (k' : Bytes × Bytes) × (write ready_socket 5 (1 ∷ 2 ∷ []) two_bytes ([], [])
      ≡ some (done, b', k'))
    × Holds b' []
    × (ready_socket.outgoing k' ≡ 7 ∷ 8 ∷ 1 ∷ 2 ∷ [])
write_done_example =
    write_done ready_socket (λ k. 0) 5 (7 ∷ 8 ∷ []) (1 ∷ 2 ∷ []) ([], []) ready_socket-IsPatient
      two_bytes-Holds (omega arith)
