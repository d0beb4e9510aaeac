-- ===== src/Rpc/Provider/Serving.antt =====
-- The loop of `RpcProvider::handleClient` over a connection, of src/rpc_provider.cc: the requests of
-- a round are handled and their answers written one after the other, until the connection ends.
pub mod Replies
pub mod Closed
use mcoro_rpc.Common.{
  ℕ, zero, suc, ◌+◌, List, [], ◌∷◌, Bool, true, false, Option, none, some, Bytes, ◌==◌,
  if◌then◌else◌,
}
use mcoro_rpc.Buffer.{TcpBuffer, read_able, move_read_index}
use mcoro_rpc.Stream.{Socket, End, done, thrown, more}
use mcoro_rpc.Stream.Tcp.{TcpStream, read_stream, write_stream, close}
use mcoro_rpc.Codec.{TinyPbProtocol}
use mcoro_rpc.Codec.Decode.{decode, returned, threw, faulted, out_of_fuel}
use mcoro_rpc.Rpc.Provider.{Provider, handle_message, recycle_outer}

-- How the requests of a round, or the whole connection, come to an end: `ended` behind the last
-- request of a round, `hung_up` behind the connection with the descriptor that the kernel is told to
-- close, or an exception on the way, a fault, or too few rounds.
pub data Served (Msg S Addr K : Type 0) : Type 0 where
  ended threw_out unfinished : Provider Msg S Addr → TcpStream K → Served Msg S Addr K
  hung_up : Provider Msg S Addr → TcpStream K → Option ℕ → Served Msg S Addr K
  serve_fault : Served Msg S Addr K

module _ {Msg S Addr K : Type 0} (socket : Socket K) where
  -- The loop over the messages: each is handled, and its answer written before the next.
  unfoldable pub serve_messages :
      ℕ → Provider Msg S Addr → TcpStream K → List TinyPbProtocol → Served Msg S Addr K
  serve_messages fuel provider s [] = ended provider s
  serve_messages fuel provider s (m ∷ ms) = elim (handle_message provider m) [
    | none ↦ serve_fault
    | some (text, provider') ↦ elim (write_stream socket fuel text s) [
      | none ↦ serve_fault
      | some (end, s') ↦
          let later = serve_messages fuel provider' s' ms in
          elim end [
            | done ↦ later
            | thrown ↦ threw_out provider' s'
            | more ↦ unfinished provider' s'
          ]
    ]
  ]

  -- `stream.close()` behind the loop.
  abbrev pub hang_up : Provider Msg S Addr → TcpStream K → Served Msg S Addr K
  hang_up provider s = let (closed, fd) = close s in hung_up provider closed fd

  -- The part of a round behind the read, with the rest of the loop.
  unfoldable pub serve_buffer :
      ℕ
      → Provider Msg S Addr
      → TcpStream K
      → (Provider Msg S Addr → TcpStream K → Served Msg S Addr K)
      → Served Msg S Addr K
  serve_buffer fuel provider s next = elim (decode fuel [] s.read_buffer) [
    | out_of_fuel ↦ unfinished provider s
    | faulted ↦ serve_fault
    | threw _ b ↦ hang_up provider (record s { read_buffer = b })
    | returned msgs b ↦ elim (serve_messages fuel provider (record s { read_buffer = b }) msgs) [
      | serve_fault ↦ serve_fault
      | unfinished p s' ↦ unfinished p s'
      | hung_up p s' fd ↦ hung_up p s' fd
      | threw_out p s' ↦ hang_up p s'
      | ended p s' ↦ elim (move_read_index s'.read_buffer (read_able s'.read_buffer)) [
        | none ↦ serve_fault
        | some b' ↦ next (recycle_outer p) (record s' { read_buffer = b' })
      ]
    ]
  ]

  -- The loop, where `stops` is what it finds of `m_stop` before a round.
  unfoldable pub serve_client :
      ℕ → (ℕ → Bool) → ℕ → Provider Msg S Addr → TcpStream K → Served Msg S Addr K
  serve_client fuel stops zero provider s = unfinished provider s
  serve_client fuel stops (suc rounds) provider s =
      let served : Served Msg S Addr K = elim (read_stream socket fuel s) [
        | none ↦ serve_fault
        | some (end, _, s1) ↦
            let closed = s1.read_buffer.write_index == s1.read_buffer.read_index in
            let answered =
              serve_buffer fuel provider s1 (λ p s'. serve_client fuel stops rounds p s') in
            elim end [
              | done ↦ if closed then hang_up provider s1 else answered
              | thrown ↦ hang_up provider s1
              | more ↦ unfinished provider s1
            ]
      ] in
      if stops rounds then hang_up provider s else served
