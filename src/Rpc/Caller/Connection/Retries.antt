-- ===== src/Rpc/Caller/Connection/Retries.antt =====
-- How often a channel tries to connect again.
use mcoro_rpc.Common.{
  ℕ, zero, suc, ◌+◌, ◌≤◌, ◌<◌, ◌-◌, if◌then◌else◌, ◌≡◌, ◌⊎◌, inl, inr, refl, sym, subst, if_false,
  [], Bool, true, false, Option, none, arith, some, length, Bool-cases, Option-cases, ltb,
}
use mcoro_rpc.Stream.Tcp.{TcpStream}
use mcoro_rpc.Rpc.Caller.{RpcChannel}
use mcoro_rpc.Rpc.Caller.Connection.{Reconnected, reconnect_loop, reconnect}

abbrev pub is_some : {A : Type 0} → Option A → Bool
is_some none = false
is_some (some x) = true

-- How a loop of attempts ends: on a stream, which the last attempt gave, told to stop, or with every attempt used up; and it has
-- slept once for each attempt.
pub record Retried {K Rsp D : Type 0} (answer : ℕ → Option (TcpStream K)) (n : ℕ)
    (r : Reconnected K Rsp D) : Type 0 where
  pub ends :
      ((r.0.connected ≡ true) × (r.0.reconnect_retry ≡ 0))
      ⊎ ((r.0.connected ≡ false) × ((r.0.stopped ≡ true) ⊎ (r.0.reconnect_retry ≡ 3)))
  pub on_stream : is_some r.0.stream ≡ r.0.connected
  pub given : r.0.stream ≡ (if r.0.connected then answer (length r.1 + n - 1) else none)
  pub bounded : length r.1 + n ≤ 3

module _ {K Rsp D : Type 0} (answer : ℕ → Option (TcpStream K)) (stops : ℕ → Bool) where
  reconnect_loop-Retried :
      (fuel : ℕ) (ch : RpcChannel K Rsp D)
      → ch.connected ≡ false
      → ch.stream ≡ none
      → ch.reconnect_retry ≤ 3
      → 3 < fuel + ch.reconnect_retry
      → Retried answer ch.reconnect_retry (reconnect_loop answer stops fuel ch)
  unfolding reconnect_loop
  reconnect_loop-Retried zero ch off bare low enough = absurd (omega arith)
  reconnect_loop-Retried (suc fuel) ch off bare low enough = elim (Bool-cases ch.stopped) [
    | inl told ↦ record {
      ends = ground arith;
      on_stream = ground arith;
      given = ground arith;
      bounded = ground arith;
    }
    | inr runs ↦ elim (Bool-cases (ltb ch.reconnect_retry 3)) [
      | inr used ↦ record {
        ends = ground arith;
        on_stream = ground arith;
        given = ground arith;
        bounded = ground arith;
      }
      | inl more ↦ elim (Bool-cases (stops ch.reconnect_retry)) [
        | inl told ↦ record {
          ends = ground arith;
          on_stream = ground arith;
          given = ground arith;
          bounded = ground arith;
        }
        | inr goes ↦ elim (Option-cases (answer ch.reconnect_retry)) [
          | inr (s, e) ↦ record {
            ends = ground arith;
            on_stream = ground arith;
            given = ground (arith, e);
            bounded = ground arith;
          }
          | inl e ↦
              let next = record ch { reconnect_retry = ch.reconnect_retry + 1 } in
              let r =
                reconnect_loop-Retried fuel next off bare (ground (arith, more)) (omega arith) in
              record {
                ends = ground (arith, r.ends);
                on_stream = ground (arith, r.on_stream);
                given = ground (arith, r.given);
                bounded = ground (arith, r.bounded);
              }
        ]
      ]
    ]
  ]

  -- A channel that is not stopped sleeps and tries at most three times less the attempts that have
  -- failed before, and ends on the stream that its last attempt gave, with its count at 0, or else
  -- told to stop or with all three used up, and without a stream.
  pub reconnect-Retried :
      (ch : RpcChannel K Rsp D)
      → ch.stopped ≡ false
      → ch.reconnect_retry ≤ 3
      → Retried answer ch.reconnect_retry (reconnect true answer stops ch)
  unfolding reconnect
  reconnect-Retried ch runs low =
      subst (Retried answer ch.reconnect_retry) (sym (if_false _ _ runs)) (
        reconnect_loop-Retried 4 (record ch { connected = false; stream = none }) refl refl low
          (omega arith))

  -- Where it has failed once without being told to stop, each later reconnect fails at once and
  -- without an attempt, whatever the server would answer by then.
  pub reconnect_gives_up :
      (ch : RpcChannel K Rsp D) (answer' : ℕ → Option (TcpStream K)) (stops' : ℕ → Bool)
      → ch.stopped ≡ false
      → ch.reconnect_retry ≤ 3
      → (reconnect true answer stops ch).0.connected ≡ false
      → (reconnect true answer stops ch).0.stopped ≡ false
      → let later = reconnect true answer' stops' (reconnect true answer stops ch).0 in
        (later.1 ≡ []) × (later.0.connected ≡ false)
  unfolding reconnect reconnect_loop
  reconnect_gives_up ch answer' stops' runs low off still =
      let r = reconnect-Retried ch runs low in
      let used : (reconnect true answer stops ch).0.reconnect_retry ≡ 3 =
        ground (arith, r.ends, off, still) in
      ground (arith, used, still)
