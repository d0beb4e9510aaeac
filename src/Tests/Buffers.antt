-- ===== src/Tests/Buffers.antt =====
-- TcpBuffer at small sizes.
use mcoro_rpc.Common.{◌≡◌, refl, [], ◌∷◌, some}
use mcoro_rpc.Buffer.{TcpBuffer}
use mcoro_rpc.Buffer.Holds.{Holds}
use mcoro_rpc.Buffer.Calls.{put, get, run, run_queue, run_refines}

-- Two unread bytes, 7 and 8, in a vector of four.
abbrev pub two_bytes : TcpBuffer
two_bytes = record { read_index = 1; write_index = 3; size = 4; buffer = 9 ∷ 7 ∷ 8 ∷ 6 ∷ [] }

abbrev pub two_bytes-Holds : Holds two_bytes (7 ∷ 8 ∷ [])
two_bytes-Holds = record {
  pre = 9 ∷ [];
  post = 6 ∷ [];
  layout = refl;
  at_read = refl;
  at_write = refl;
}

run_refines_example :
    run two_bytes (get 1 ∷ put (1 ∷ 2 ∷ 3 ∷ []) ∷ get 9 ∷ [])
    ≡ some ((7 ∷ []) ∷ (8 ∷ 1 ∷ 2 ∷ 3 ∷ []) ∷ [])
unfolding run_queue
run_refines_example =
    run_refines (7 ∷ 8 ∷ []) (get 1 ∷ put (1 ∷ 2 ∷ 3 ∷ []) ∷ get 9 ∷ []) two_bytes-Holds
