-- ===== src/Rpc/Provider/Life.antt =====
-- The life of a provider: `RpcProvider::start` and `stop` of src/rpc_provider.cc. The loop that
-- accepts connections and the workers share a channel of connections; each of their rounds, and
-- `stop`, is a step, and any order of steps is a run. What `accept` gives is an argument. `none` is
-- undefined: a use of the channel when `stop` has taken it away.

pub mod Served
pub mod Stopped
use mcoro_rpc.Common.{
  ℕ, List, [], ◌∷◌, ◌++◌, Bool, true, false, Option, none, some, if◌then◌else◌, ◌&&◌,
}
use mcoro_rpc.Channel.{Channel, Wake, Answer, done, channel_closed, send, recv, create}
use mcoro_rpc.Channel
use mcoro_rpc.ZkClient.{ZkClient, SessionState, is_ok}
use mcoro_rpc.ZkClient

-- `S` is the type of the streams; `service` is `m_tcpService` with its descriptor.
pub record Life (S : Type 0) : Type 0 where
  pub started : Bool
  pub stopping : Bool
  pub registered : Bool
  pub zk : ZkClient
  pub service : Option (Option ℕ)
  pub channel : Option (Channel S)

-- What the wait of the accept loop gives it.
pub data Arrival (S : Type 0) : Type 0 where
  came : S → Arrival S
  timed_out broke : Arrival S

pub data LifeStep (S : Type 0) : Type 0 where
  accept_round : (acceptor : ℕ) → Arrival S → LifeStep S
  worker_round : (worker : ℕ) → LifeStep S
  stop_called : LifeStep S

-- The provider behind a step, whom the channel woke, and what it answered.
abbrev pub Stepped : Type 0 → Type 0
Stepped S = Option (Life S × List (Wake S) × Answer S)

module _ {S : Type 0} where
  -- `start` up to the workers: the service's descriptor, the ZooKeeper client where a host is set,
  -- and whether the registration succeeds.
  unfoldable pub begin_start : Option ℕ → Bool → Bool → List SessionState → Bool → Life S → Life S
  begin_start fd has_host made events registers l =
      let answered = ZkClient.start made events l.zk in
      let opened : Life S = record l {
        started = true;
        stopping = false;
        channel = some (create 100);
        service = some fd;
      } in
      let linked : Life S = record opened { zk = answered.1 } in
      if l.started
      then l
      else (if has_host
          then (if is_ok answered.0.rc && registers
              then record linked { registered = true }
              else linked)
          else opened)

  -- The end of the accept loop, `m_client_channel->close()`.
  pub leave_accept : Life S → Stepped S
  leave_accept l = elim l.channel [
    | none ↦ none
    | some c ↦
        let (c', wakes, answer) = Channel.close c in
        some (record l { channel = some c' }, wakes, answer)
  ]

  pub hand_over : ℕ → S → Life S → Stepped S
  hand_over acceptor stream l = elim l.channel [
    | none ↦ none
    | some c ↦
        let (c', wakes, answer) = send acceptor stream c in
        some (record l { channel = some c' }, wakes, answer)
  ]

  -- A round of the accept loop behind its wait.
  pub accepted_round : ℕ → Arrival S → Life S → Stepped S
  accepted_round acceptor broke l = leave_accept l
  accepted_round acceptor timed_out l =
      if l.stopping then leave_accept l else some (l, [], done true)
  accepted_round acceptor (came stream) l =
      if l.stopping then leave_accept l else hand_over acceptor stream l

  -- A round of a worker: it leaves its loop, or asks for a connection.
  pub take_connection : ℕ → Life S → Stepped S
  take_connection worker l = elim l.channel [
    | none ↦ none
    | some c ↦
        let (c', wakes, answer) = recv worker c in
        some (record l { channel = some c' }, wakes, answer)
  ]

  pub asked_round : ℕ → Life S → Stepped S
  asked_round worker l =
      if l.stopping then some (l, [], channel_closed) else take_connection worker l

  pub drop_channel : Option (Channel S) → List (Wake S)
  drop_channel none = []
  drop_channel (some c) = (Channel.close c).1

  unfoldable pub stop : Life S → Stepped S
  stop l =
      let told : Life S = record l {
        stopping = true;
        registered = false;
        zk = if l.zk.connected then ZkClient.close l.zk else l.zk;
        service = none;
        channel = none;
      } in
      some (told, drop_channel l.channel, done true)

  pub life_step : LifeStep S → Life S → Stepped S
  life_step (accept_round acceptor arrival) l = accepted_round acceptor arrival l
  life_step (worker_round worker) l = asked_round worker l
  life_step stop_called l = stop l

  pub life_run : List (LifeStep S) → Life S → Option (Life S)
  life_run [] l = some l
  life_run (s ∷ steps) l = elim (life_step s l) [
    | none ↦ none
    | some stepped ↦ life_run steps stepped.0
  ]
