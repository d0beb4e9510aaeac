-- ===== src/Rpc/Server.antt =====
-- The server: `RpcServer` of src/rpc_server_impl.cc, over the provider's life and its dispatcher.
use mcoro_rpc.Common.{
  ℕ, ◌≡◌, refl, sym, ap, ◌∙◌, List, [], ◌∷◌, Bool, true, false, Option, none, some, Bytes, same, ℤ,
  if◌then◌else◌, Bool-cases, Option-cases, inl, inr, ◌++◌, if_true, if_false, arith,
}
use mcoro_rpc.ZkClient.{SessionState}
use mcoro_rpc.ZkClient
use mcoro_rpc.Rpc.Dispatcher.{Service, Services, RpcServiceInfo, find, register_service}
use mcoro_rpc.Rpc.Dispatcher.Routes.{find-register_service}
use mcoro_rpc.Rpc.Provider.Life.{Life, begin_start, stop as stop_provider}

-- `services` is `m_services`; `registered` and `life` are the provider's. The address, the port and
-- the number of workers are handed on.
pub record RpcServer (Msg S Stream : Type 0) : Type 0 where
  pub port : ℤ
  pub zk_host : Bytes
  pub worker_count : ℕ
  pub services : List (Service Msg S)
  pub running : Bool
  pub registered : Services Msg S
  pub life : Life Stream

abbrev pub given_host : Bytes → Bool
given_host [] = false
given_host (c ∷ cs) = true

module _ {Msg S : Type 0} where
  pub register_all : List (Service Msg S) → Services Msg S → Services Msg S
  register_all [] services = services
  register_all (v ∷ vs) services = register_all vs (register_service v services)

  -- The last service of a name.
  abbrev pub latest : Bytes → List (Service Msg S) → Option (Service Msg S)
  latest name [] = none
  latest name (v ∷ vs) = elim (latest name vs) [
    | some u ↦ some u
    | none ↦ if same v.full_name name then some v else none
  ]

  abbrev pub info_of : Service Msg S → RpcServiceInfo Msg S
  info_of v = record { service = v; service_name = v.full_name; methods = v.methods }

  abbrev pub or_else :
      Option (Service Msg S) → Option (RpcServiceInfo Msg S) → Option (RpcServiceInfo Msg S)
  or_else none info = info
  or_else (some v) info = some (info_of v)

  find-register_all :
      (vs : List (Service Msg S)) (services : Services Msg S) (k : Bytes)
      → find k (register_all vs services) ≡ or_else (latest k vs) (find k services)
  unfolding register_all
  find-register_all [] services k = refl
  find-register_all (v ∷ vs) services k =
      find-register_all vs (register_service v services) k
      ∙ ap (or_else (latest k vs)) (find-register_service v services k)
      ∙ elim (Option-cases (latest k vs)) [
        | inr (u, e) ↦ rw e refl
        | inl e ↦ elim (Bool-cases (same v.full_name k)) [
          | inl same_name ↦ rw (e, same_name) refl
          | inr other ↦ rw (e, other) refl
        ]
      ]

starts :
    {Stream : Type 0} (fd : Option ℕ) (host made : Bool) (events : List SessionState)
    (registers : Bool) (l : Life Stream)
    → (begin_start fd host made events registers l).started ≡ true
unfolding begin_start
starts fd host made events registers l = ground arith

begin_start_started :
    {Stream : Type 0} (fd : Option ℕ) (host made : Bool) (events : List SessionState)
    (registers : Bool) (l : Life Stream)
    → l.started ≡ true
    → begin_start fd host made events registers l ≡ l
unfolding begin_start
begin_start_started fd host made events registers l on = if_true _ _ on

module _ {Msg S Stream : Type 0} where
  unfoldable pub register_service_later :
      Service Msg S → RpcServer Msg S Stream → RpcServer Msg S Stream
  register_service_later v srv = record srv { services = srv.services ++ (v ∷ []) }

  -- `start`, with what the provider's start finds.
  unfoldable pub start :
      Option ℕ → Bool → List SessionState → Bool → RpcServer Msg S Stream → RpcServer Msg S Stream
  start fd made events registers srv = if srv.running then srv else record srv {
    registered = register_all srv.services srv.registered;
    running = true;
    life = begin_start fd (given_host srv.zk_host) made events registers srv.life;
  }

  unfoldable pub stop : RpcServer Msg S Stream → RpcServer Msg S Stream
  stop srv =
      if srv.running
      then elim (stop_provider srv.life) [
        | none ↦ srv
        | some stepped ↦ record srv { running = false; life = stepped.0 }
      ]
      else srv

  -- A server that starts finds under each name the last service of it that was handed to the server,
  -- or, where there is none, what its provider found before; started again it stays as it is.
  -- Stopped and started once more, it counts as running, but its provider stays stopped, without a
  -- channel for connections.
  pub start_lem :
      (fd : Option ℕ) (made : Bool) (events : List SessionState) (registers : Bool)
      (srv : RpcServer Msg S Stream) (k : Bytes)
      → srv.running ≡ false
      → let go = λ (s : RpcServer Msg S Stream). start fd made events registers s in
        (find k (go srv).registered ≡ or_else (latest k srv.services) (find k srv.registered))
        × (go (go srv) ≡ go srv)
        × ((go (stop (go srv))).running ≡ true)
        × ((go (stop (go srv))).life.stopping ≡ true)
        × ((go (stop (go srv))).life.channel ≡ none)
  unfolding start stop stop_provider
  start_lem fd made events registers srv k idle =
      let go = λ (s : RpcServer Msg S Stream). start fd made events registers s in
      let host = given_host srv.zk_host in
      let life1 = begin_start fd host made events registers srv.life in
      let told : Life Stream = record life1 {
        stopping = true;
        registered = false;
        zk = if life1.zk.connected then ZkClient.close life1.zk else life1.zk;
        service = none;
        channel = none;
      } in
      let srv1 : RpcServer Msg S Stream = record srv {
        registered = register_all srv.services srv.registered;
        running = true;
        life = life1;
      } in
      let srv2 : RpcServer Msg S Stream = record srv1 { running = false; life = told } in
      let srv3 : RpcServer Msg S Stream = record srv2 {
        registered = register_all srv.services srv1.registered;
        running = true;
        life = told;
      } in
      let first : go srv ≡ srv1 = if_false _ _ idle in
      let still : begin_start fd host made events registers told ≡ told =
        begin_start_started fd host made events registers told
          (starts fd host made events registers srv.life) in
      let again : go srv2 ≡ srv3 = ap (λ (l : Life Stream). record srv3 { life = l }) still in
      let whole : go (stop (go srv)) ≡ srv3 =
        ap (λ (s : RpcServer Msg S Stream). go (stop s)) first ∙ again in
      (
        ap (λ (s : RpcServer Msg S Stream). find k s.registered) first
            ∙ find-register_all srv.services srv.registered k,
        ap go first ∙ sym first,
        ap (λ (s : RpcServer Msg S Stream). s.running) whole,
        ap (λ (s : RpcServer Msg S Stream). s.life.stopping) whole,
        ap (λ (s : RpcServer Msg S Stream). s.life.channel) whole,
      )
