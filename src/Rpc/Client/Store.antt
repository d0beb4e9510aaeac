-- ===== src/Rpc/Client/Store.antt =====
-- The channels of a client as they are: the interface of Rpc.Client over `RpcChannel` of
-- include/rpc/rpc_channel.inl. `dial` is what `net::connect` gives for a host and a port, `slow`
-- whether the connecting outlasts its time limit, and `what` the text of the coder's exception.
pub mod Answers
use mcoro_rpc.Common.{
  ℕ, suc, ◌^◌, ◌<◌, ◌+◌, ◌≡◌, refl, sym, ap, ◌∙◌, subst, List, [], ◌∷◌, ◌++◌, Bool, true, false,
  ◌||◌, not, Option, none, some, Bytes, ℤ, ◌==◌, if◌then◌else◌, arith, length, Bool-cases, inl, inr,
  if_true, if_false,
}
use mcoro_rpc.Common.Names.{at_name, names_without}
use mcoro_rpc.Buffer.Holds.{Holds}
use mcoro_rpc.Stream.{Socket, done}
use mcoro_rpc.Stream.Tcp.{TcpStream}
use mcoro_rpc.Codec.{TinyPbProtocol, packet}
use mcoro_rpc.Codec.Decode.RoundTrip.{packets, AllSendable, with_id}
use mcoro_rpc.Rpc.Controller.{RpcController, set_finished}
use mcoro_rpc.Rpc.Pool.{ObjectPool, get_protocol}
use mcoro_rpc.Rpc.Caller.{
  RpcChannel, Call, Calling, Called, returns_with, returns_at_once, raises_with, call_fault,
  no_fuel, run_done, is_zero, thousandth, connected_stream, init_controller, calling, request_of,
  new_channel, set_channel_timeout, usable,
}
use mcoro_rpc.Rpc.Caller.Async.{exchange, call_method_async as exchange_call}
use mcoro_rpc.Rpc.Caller.Async.Settled.{Settled, Kept, call_method_async-Settled}
use mcoro_rpc.Rpc.Caller.Async.Responses.{Answered, concluded, taken, call_method_async-Answered}
use mcoro_rpc.Rpc.Caller.Connection.{connect as connect_channel, close as close_channel}
use mcoro_rpc.Rpc.Client.{
  RpcClient, Channels, Connected, CallEnd, call_returns, call_raises, has_some, got,
  get_or_create_channel,
}
use mcoro_rpc.Rpc.Client.Calls.{
  Answered as ClientAnswer, answered, Work, call_method_async, call_address, call_channel,
}

-- The channels by their numbers, with the addresses that they were made for; what the calls share:
-- the response message, the pool of protocols and the closures run; and whether a call came upon
-- something undefined or needs more rounds, behind which nothing counts.
pub record Store (K Rsp D : Type 0) : Type 0 where
  pub channels : ℕ → RpcChannel K Rsp D
  pub addresses : ℕ → Bytes × ℤ
  pub next : ℕ
  pub response : Rsp
  pub protocols : ObjectPool TinyPbProtocol
  pub ran : List D
  pub stuck : Bool

-- A method's full name, and what `SerializeToString` answers and writes for the request.
pub record Invocation : Type 0 where
  pub full_name : Bytes
  pub request : Bool × Bytes

-- What `callMethodAsync` of the client hands to a channel: the closure is `nullptr`.
abbrev pub without_closure : {D : Type 0} → Invocation → Call D
without_closure i = record { full_name = i.full_name; request = i.request; done = none }

module _ {K Rsp D : Type 0} where
  abbrev pub put_channel : ℕ → RpcChannel K Rsp D → Store K Rsp D → Store K Rsp D
  put_channel n ch h = record h { channels = λ j. if n == j then ch else h.channels j }

  abbrev pub after_call : ℕ → Calling K Rsp D → Store K Rsp D → Store K Rsp D
  after_call n e h = record (put_channel n e.channel h) {
    response = e.response;
    protocols = e.protocols;
    ran = h.ran ++ e.ran;
  }

  unfoldable pub conclude :
      Bytes
      → ℕ
      → RpcController
      → Store K Rsp D
      → Called K Rsp D
      → CallEnd × RpcController × Store K Rsp D
  conclude what n ctrl h (returns_with e) = (call_returns, e.controller, after_call n e h)
  conclude what n ctrl h (raises_with e) = (call_raises what, e.controller, after_call n e h)
  conclude what n ctrl h returns_at_once = (call_returns, ctrl, h)
  conclude what n ctrl h call_fault = (call_returns, ctrl, record h { stuck = true })
  conclude what n ctrl h no_fuel = (call_returns, ctrl, record h { stuck = true })

stays_failed :
    (before after : RpcController) → before.failed ≡ true → Kept before after → after.failed ≡ true
stays_failed before after f k = ground (arith, f, k)

conclude_keeps :
    {K Rsp D : Type 0} (what : Bytes) (n : ℕ) (closure : Option D) (c : Calling K Rsp D)
    (ctrl : RpcController) (h : Store K Rsp D) (r : Called K Rsp D)
    → Settled closure c r
    → c.controller ≡ ctrl
    → ctrl.failed ≡ true
    → (conclude what n ctrl h r).1.failed ≡ true
unfolding conclude
conclude_keeps what n closure c ctrl h (returns_with e) s same f =
    stays_failed ctrl e.controller f (subst (λ (k : RpcController). Kept k e.controller) same s.2)
conclude_keeps what n closure c ctrl h (raises_with e) s same f =
    stays_failed ctrl e.controller f (subst (λ (k : RpcController). Kept k e.controller) same s.1)
conclude_keeps what n closure c ctrl h returns_at_once s same f = f
conclude_keeps what n closure c ctrl h call_fault s same f = f
conclude_keeps what n closure c ctrl h no_fuel s same f = f

module _ {K Rsp D : Type 0} (socket : Socket K) (parse : Bytes → Rsp → Bool × Rsp) (late : ℤ → Bool)
    (fuel : ℕ) (dial : Bytes → ℤ → Option (TcpStream K)) (slow : ℕ → Bool) (running : ℕ → Bool)
    (what : Bytes) where
  unfoldable pub call_on :
      ℕ → Invocation → RpcController → Store K Rsp D → CallEnd × RpcController × Store K Rsp D
  call_on n call ctrl h = conclude what n ctrl h (
      exchange_call socket parse late fuel (without_closure call) (some ctrl) h.response h.protocols
        (h.channels n))

  unfoldable pub connect_on : ℕ → Store K Rsp D → Connected × Store K Rsp D
  connect_on n h =
      let (host, port) = h.addresses n in
      let (ok, ch) = connect_channel true (dial host port) (h.channels n) in
      (record { ok = ok; is_timeout = slow n }, put_channel n ch h)

  unfoldable pub make_channel : Bytes → ℤ → ℤ → Store K Rsp D → ℕ × Store K Rsp D
  make_channel host port limit h =
      let made = put_channel h.next (set_channel_timeout limit new_channel) h in
      (
        h.next,
        record made {
          next = h.next + 1;
          addresses = λ j. if h.next == j then (host, port) else h.addresses j;
        },
      )

  pub call_on_keeps :
      (n : ℕ) (call : Invocation) (ctrl : RpcController) (h : Store K Rsp D)
      → ctrl.failed ≡ true
      → (call_on n call ctrl h).1.failed ≡ true
  unfolding call_on
  call_on_keeps n call ctrl h f =
      conclude_keeps what n none (calling ctrl h.response h.protocols (h.channels n)) ctrl h
        (exchange_call socket parse late fuel (without_closure call) (some ctrl) h.response
          h.protocols (h.channels n))
        (call_method_async-Settled socket parse late fuel (without_closure call) ctrl h.response
          h.protocols (h.channels n)).0
        refl f

  -- `RpcChannel` keeps the law of the interface.
  abbrev pub rpc_channels : Channels (Store K Rsp D) Invocation
  rpc_channels = record {
    is_connected = λ n h. (h.channels n).connected;
    make = make_channel;
    connect = connect_on;
    close = λ n h. put_channel n (close_channel running (h.channels n)).0 h;
    call = call_on;
    call_keeps_failed = call_on_keeps;
  }
