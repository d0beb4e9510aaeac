-- ===== src/Rpc/Caller/Connection.antt =====
-- The life of an `RpcChannel` of include/rpc/rpc_channel.inl: `connect`, `reconnect`, `close` and
-- the start of a round of `workerLoop`. What `net::connect` gives is an argument: a stream, or
-- `none` for an exception. `ip` is whether the address is an `IPNetAddr`.
pub mod Retries
pub mod Closing
use mcoro_rpc.Common.{
  ℕ, zero, suc, ◌+◌, ◌*◌, List, [], ◌∷◌, Bool, true, false, ◌&&◌, not, Option, none, some, ltb,
  if◌then◌else◌,
}
use mcoro_rpc.Channel.{
  Channel, Wake, close as close_channel, cancel_all_awaiters, recv, value as received_value,
  channel_closed,
}
use mcoro_rpc.Stream.Tcp.{TcpStream, close as close_stream}
use mcoro_rpc.Rpc.Caller.{RpcRequest, RpcChannel, usable}

abbrev pub max_reconnect_retry : ℕ
max_reconnect_retry = 3

abbrev pub reconnect_delay_ms : ℕ
reconnect_delay_ms = 1000

-- The channel, the delays slept in milliseconds, and the coroutines cancelled.
abbrev pub Reconnected : Type 0 → Type 0 → Type 0 → Type 0
Reconnected K Rsp D = RpcChannel K Rsp D × List ℕ × List (Wake (RpcRequest Rsp D))

-- How often `close` sleeps for the worker, where `running` is what it finds at its tests.
unfoldable pub close_waits : (ℕ → Bool) → ℕ → ℕ → ℕ
close_waits running count zero = count
close_waits running count (suc left) =
    let later = close_waits running (count + 1) left in if running count then later else count

-- How a round of the worker begins: the loop is left, the worker waits for a request, or has one.
pub data Begun (K Rsp D : Type 0) : Type 0 where
  leaves waits : RpcChannel K Rsp D → Begun K Rsp D
  serves : RpcRequest Rsp D → RpcChannel K Rsp D → Begun K Rsp D

module _ {K Rsp D : Type 0} where
  abbrev pub connected_on : TcpStream K → RpcChannel K Rsp D → RpcChannel K Rsp D
  connected_on s ch = record ch { stream = some s; connected = true; reconnect_retry = 0 }

  -- With whether it returned.
  unfoldable pub connect :
      Bool → Option (TcpStream K) → RpcChannel K Rsp D → Bool × RpcChannel K Rsp D
  connect ip answer ch =
      if ch.connected
      then (true, ch)
      else (if ip
          then elim answer [ none ↦ (false, ch) | some s ↦ (true, connected_on s ch) ]
          else (false, ch))

  -- The loop, with the answer to an attempt by the count of those before it, and whether the stop
  -- flag is set while the loop sleeps before it.
  unfoldable pub reconnect_loop :
      (ℕ → Option (TcpStream K)) → (ℕ → Bool) → ℕ → RpcChannel K Rsp D → Reconnected K Rsp D
  reconnect_loop answer stops zero ch = (ch, [], [])
  reconnect_loop answer stops (suc fuel) ch =
      let n = ch.reconnect_retry in
      let delay = reconnect_delay_ms * (n + 1) in
      let (later, delays, wakes) =
        reconnect_loop answer stops fuel (record ch { reconnect_retry = n + 1 }) in
      let (request_chan, cancelled, _) = cancel_all_awaiters ch.request_chan in
      if ltb n max_reconnect_retry && not ch.stopped
      then (if stops n then (record ch { stopped = true }, delay ∷ [], []) else elim (answer n) [
        | some s ↦ (connected_on s ch, delay ∷ [], [])
        | none ↦ (later, delay ∷ delays, wakes)
      ])
      else (record ch { request_chan = request_chan }, [], cancelled)

  -- The loop tests its condition at most once more than it may try.
  unfoldable pub reconnect :
      Bool → (ℕ → Option (TcpStream K)) → (ℕ → Bool) → RpcChannel K Rsp D → Reconnected K Rsp D
  reconnect ip answer stops ch =
      let dropped = record ch { connected = false; stream = none } in
      if ch.stopped
      then (ch, [], [])
      else (if ip
          then reconnect_loop answer stops (max_reconnect_retry + 1) dropped
          else (dropped, [], []))

  -- With the coroutines woken, the sleeps, and the descriptor closed.
  unfoldable pub close :
      (ℕ → Bool)
      → RpcChannel K Rsp D
      → RpcChannel K Rsp D × List (Wake (RpcRequest Rsp D)) × ℕ × Option ℕ
  close running ch =
      let (request_chan, wakes, _) = close_channel ch.request_chan in
      let closed = record ch { stopped = true; connected = false; request_chan = request_chan } in
      let sleeps = close_waits running 0 100 in
      elim (usable ch.stream) [
        | none ↦ (closed, wakes, sleeps, none)
        | some s ↦ (record closed { stream = none }, wakes, sleeps, (close_stream s).1)
      ]

  -- A round up to `recv`, by the worker's number, with what its reconnecting gave.
  unfoldable pub begin_round : ℕ → Reconnected K Rsp D → RpcChannel K Rsp D → Begun K Rsp D
  begin_round worker reconnected ch =
      let ready = if ch.connected then ch else reconnected.0 in
      let stopped_here = record ready { worker_running = false } in
      let (request_chan, _, answer) = recv worker ready.request_chan in
      let received = record ready { request_chan = request_chan } in
      if ch.stopped
      then leaves (record ch { worker_running = false })
      else (if ready.connected
          then elim answer [
            | received_value rpc_req ↦ serves rpc_req received
            | channel_closed ↦ leaves (record received { worker_running = false })
            | _ ↦ waits received
          ]
          else leaves stopped_here)
