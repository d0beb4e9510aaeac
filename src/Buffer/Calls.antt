-- ===== src/Buffer/Calls.antt =====
-- Sequences of writes to and reads from a TcpBuffer, against a queue of bytes.
use mathlib.Core.Option
use mcoro_rpc.Common.{ℕ, ◌≡◌, refl, List, [], ◌∷◌, ◌++◌, Option, none, some, Bytes, take, drop, pos}
use mcoro_rpc.Buffer.{TcpBuffer, write_to_buffer, read_from_buffer}
use mcoro_rpc.Buffer.Holds.{Holds}
use mcoro_rpc.Buffer.Fifo.{write_to_buffer-Leaves, read_from_buffer_refines}

-- What a caller can do with a buffer, and what it sees of each call.
pub data Op : Type 0 where
  put : Bytes → Op
  get : ℕ → Op

-- The calls in order, with the bytes that each read returns; `none` is a fault.
unfoldable pub run : TcpBuffer → List Op → Option (List Bytes)
run b [] = some []
run b (put src ∷ ops) = elim (write_to_buffer b src) [ none ↦ none | some b' ↦ run b' ops ]
run b (get n ∷ ops) = elim (read_from_buffer b (pos n)) [
  | none ↦ none
  | some (out, b') ↦ Option.map (λ outs. out ∷ outs) (run b' ops)
]

-- A queue of bytes, oldest first.
unfoldable pub run_queue : Bytes → List Op → List Bytes
run_queue q [] = []
run_queue q (put src ∷ ops) = run_queue (q ++ src) ops
run_queue q (get n ∷ ops) = take n q ∷ run_queue (drop n q) ops

-- No sequence of writes and reads on a buffer that holds a queue of bytes faults, or tells the
-- buffer from that queue.
pub run_refines :
    (q : Bytes) (ops : List Op) {b : TcpBuffer} → Holds b q → run b ops ≡ some (run_queue q ops)
unfolding run run_queue
run_refines q [] h = refl
run_refines q (put src ∷ ops) h =
    let (b', e, h') = write_to_buffer-Leaves q src h in rw (e, run) (run_refines (q ++ src) ops h')
run_refines q (get n ∷ ops) h =
    let (b', e, h') = read_from_buffer_refines q n h in rw (e, run, run_refines (drop n q) ops h')
