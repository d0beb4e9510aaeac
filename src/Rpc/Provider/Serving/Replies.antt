-- ===== src/Rpc/Provider/Serving/Replies.antt =====
-- What goes out of a connection, and how it ends.
use mcoro_rpc.Common.{
  ℕ, suc, ◌+◌, ◌^◌, ◌≤◌, ◌<◌, ◌≡◌, ◌≢◌, refl, sym, ap, ◌∙◌, subst, List, [], ◌∷◌, ◌++◌, append-nil,
  append_assoc, map, Bool, false, some, Bytes, length, arith, ◌==◌,
}
use mcoro_rpc.Buffer.Holds.{Holds, Holds_bounds, read_able_of_Holds}
use mcoro_rpc.Buffer.Fifo.{move_read_index-Leaves}
use mcoro_rpc.Stream.{Socket, done}
use mcoro_rpc.Stream.Progress.{IsPatient, write_done}
use mcoro_rpc.Stream.Tcp.{TcpStream, socket_of, read_stream, write_stream}
use mcoro_rpc.Codec.{TinyPbProtocol, packet}
use mcoro_rpc.Codec.Decode.Packet.{arrived}
use mcoro_rpc.Codec.Decode.RoundTrip.{packets, AllSendable, decode-packets, with_id}
use mcoro_rpc.Rpc.Pool.{IsSound}
use mcoro_rpc.Rpc.Provider.{Provider, recycle_outer}
use mcoro_rpc.Rpc.Provider.Answers.{AllFit, answer, answers, handle_message_lem, packets-pos}
use mcoro_rpc.Rpc.Provider.Serving.{ended, serve_messages, serve_buffer, serve_client}

-- Each answer can be written in `fuel` rounds, of which the socket may take `limit` to block.
abbrev pub AllWritten : ℕ → ℕ → List TinyPbProtocol → Type 0
AllWritten fuel limit [] = Unit {0}
AllWritten fuel limit (m ∷ ms) =
    (length (packet (with_id m)) + limit < fuel) × AllWritten fuel limit ms

-- A stream that is open and has nothing left to write.
pub record IsOpen {K : Type 0} (s : TcpStream K) : Type 0 where
  pub fd : ℕ
  pub is_fd : s.fd ≡ some fd
  pub written : Holds s.write_buffer []

module _ {K : Type 0} (socket : Socket K) (patience : K → ℕ) where
  write_stream_done :
      (fuel : ℕ) (text : Bytes) (s : TcpStream K)
      → IsPatient socket patience
      → IsOpen s
      → length text + patience s.kernel < fuel
      → (s' : TcpStream K) × (write_stream socket fuel text s ≡ some (done, s'))
        × IsOpen s'
        × (s'.read_buffer ≡ s.read_buffer)
        × (socket.outgoing s'.kernel ≡ socket.outgoing s.kernel ++ text)
  unfolding write_stream socket_of
  write_stream_done fuel text s p o enough =
      let (b, k, e, h', out) =
        write_done socket patience fuel [] text s.kernel p o.written (omega arith) in
      let s' : TcpStream K = record s { write_buffer = b; kernel = k } in
      (
        s',
        simp (o.is_fd, e, write_stream),
        record { fd = o.fd; is_fd = o.is_fd; written = h' },
        refl,
        out,
      )

module _ {Msg S Addr K : Type 0} (socket : Socket K) (patience : K → ℕ) where
  -- The requests are answered one after another, and the answers go out in this order.
  serve_messages_lem :
      (ms : List TinyPbProtocol) (n fuel limit : ℕ) (provider : Provider Msg S Addr)
      (s : TcpStream K)
      → IsPatient socket patience
      → ((k : K) → patience k ≤ limit)
      → IsOpen s
      → IsSound n provider.protocols
      → AllFit (answers provider.services ms provider.state).0
      → AllWritten fuel limit (answers provider.services ms provider.state).0
      → (after : Provider Msg S Addr) × (s' : TcpStream K) × (serve_messages socket fuel provider s
            ms
          ≡ ended after s')
        × IsOpen s'
        × (s'.read_buffer ≡ s.read_buffer)
        × (after.state ≡ (answers provider.services ms provider.state).1)
        × (socket.outgoing s'.kernel
            ≡ socket.outgoing s.kernel
              ++ packets (map with_id (answers provider.services ms provider.state).0))
  unfolding serve_messages
  serve_messages_lem [] n fuel limit provider s p bound o sound fit written =
      (provider, s, refl, o, refl, refl, sym (append-nil (socket.outgoing s.kernel)))
  serve_messages_lem (m ∷ ms) n fuel limit provider s p bound o sound fit written =
      let (next, e, state, services, sound') = handle_message_lem n provider m sound fit.0 in
      let (reply, first) = answer provider.services m provider.state in
      let (s1, f, o1, same, out) =
        write_stream_done socket patience fuel (packet (with_id reply)) s p o
          (omega (arith, bound s.kernel, written.0)) in
      let go : answers next.services ms next.state ≡ answers provider.services ms first =
        rw (services, state) refl in
      let (last, s2, g, o2, same2, state2, out2) =
        serve_messages_lem ms n fuel limit next s1 p bound o1 sound'
          (subst (λ a. AllFit a.0) (sym go) fit.1)
          (subst (λ a. AllWritten fuel limit a.0) (sym go) written.1) in
      (
        last,
        s2,
        rw (e, f, serve_messages) g,
        o2,
        same2 ∙ same,
        state2 ∙ ap (λ a. a.1) go,
        out2
            ∙ ap (λ a. socket.outgoing s1.kernel ++ packets (map with_id a.0)) go
            ∙ ap (λ t. t ++ packets (map with_id (answers provider.services ms first).0)) out
            ∙ append_assoc (socket.outgoing s.kernel) (packet (with_id reply)) _,
      )

  -- A round of a connection whose read left whole requests in the buffer, one behind another and at
  -- least one, answers them all: the packets of the answers that the services give to them one after
  -- the other go out in this order behind what had gone out, the services are left as they leave
  -- them, and the loop goes on with an empty buffer on an open stream. The requests are such as the
  -- decoder can take, the write index is below 2 ^ 31, the pool holds clear objects, each answer fits
  -- a packet, and the rounds given are enough for the decoder and for each write.
  pub serve_client-answers :
      (ms : List TinyPbProtocol) (n fuel limit rounds count : ℕ) (stops : ℕ → Bool)
      (provider : Provider Msg S Addr) (s s1 : TcpStream K)
      → stops rounds ≡ false
      → read_stream socket fuel s ≡ some (done, count, s1)
      → ms ≢ []
      → AllSendable ms
      → Holds s1.read_buffer (packets ms)
      → s1.read_buffer.write_index < 2 ^ 31
      → length ms < fuel
      → IsPatient socket patience
      → ((k : K) → patience k ≤ limit)
      → IsOpen s1
      → IsSound n provider.protocols
      → AllFit (answers provider.services (map arrived ms) provider.state).0
      → AllWritten fuel limit (answers provider.services (map arrived ms) provider.state).0
      → (after : Provider Msg S Addr) × (s' : TcpStream K) × (serve_client socket fuel stops
            (suc rounds)
            provider
            s
          ≡ serve_client socket fuel stops rounds after s')
        × IsOpen s'
        × Holds s'.read_buffer []
        × (after.state ≡ (answers provider.services (map arrived ms) provider.state).1)
        × (socket.outgoing s'.kernel
            ≡ socket.outgoing s1.kernel
              ++ packets
                  (map with_id (answers provider.services (map arrived ms) provider.state).0))
  unfolding serve_client serve_buffer recycle_outer
  serve_client-answers ms n fuel limit rounds count stops provider s s1 goes read some_left v h low
        enough p bound o sound fit written =
      let (left, e, h1) = decode-packets ms fuel [] v h low enough in
      let s2 : TcpStream K = record s1 { read_buffer = left } in
      let o2 : IsOpen s2 = record { fd = o.fd; is_fd = o.is_fd; written = o.written } in
      let (after, s3, f, o3, same, state, out) =
        serve_messages_lem (map arrived ms) n fuel limit provider s2 p bound o2 sound fit written in
      let h3 = subst (λ b. Holds b []) (sym same) h1 in
      let (emptied, g, h4) = move_read_index-Leaves [] 0 h3 (omega arith) in
      let unread : s1.read_buffer.write_index == s1.read_buffer.read_index ≡ false =
        ground (arith, packets-pos ms some_left, Holds_bounds (packets ms) h) in
      let count' = read_able_of_Holds [] h3 in
      (
        recycle_outer after,
        record s3 { read_buffer = emptied },
        rw (goes, read, unread, e, f, count', g, serve_client, serve_buffer) refl,
        record { fd = o3.fd; is_fd = o3.is_fd; written = o3.written },
        h4,
        state,
        out,
      )
