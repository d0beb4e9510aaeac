-- ===== src/Tests/Lives.antt =====
-- A provider that serves, and one that was stopped.
use mathlib.Core.List.{Perm}
use mcoro_rpc.Common.{ℕ, ◌≡◌, refl, List, [], ◌∷◌, ◌++◌, true, false, none, some, codes, Bytes, pos}
use mcoro_rpc.Channel.{Channel, create}
use mcoro_rpc.Channel.Invariant.{create-IsSettled}
use mcoro_rpc.Channel.Order.{held}
use mcoro_rpc.ZkClient.{new_zk_client}
use mcoro_rpc.Rpc.Dispatcher.{find}
use mcoro_rpc.Rpc.Provider.Life.{
  Life, LifeStep, came, timed_out, accept_round, worker_round, life_run,
}
use mcoro_rpc.Rpc.Provider.Life.Served.{all_handed, streams, connections_conserved}
use mcoro_rpc.Rpc.Server
use mcoro_rpc.Rpc.Server.{RpcServer, latest, or_else, start_lem}
use mcoro_rpc.Tests.Services.{echo}

abbrev fresh : Channel ℕ
fresh = create 2

-- A provider that runs, and one that has not been started.
abbrev serving : Life ℕ
serving = record {
  started = true;
  stopping = false;
  registered = false;
  zk = new_zk_client;
  service = some (some 3);
  channel = some fresh;
}

abbrev idle : Life ℕ
idle = record serving { started = false; service = none; channel = none }

-- The worker 1 waits; three clients come, and the worker 2 asks.
abbrev rounds : List (LifeStep ℕ)
rounds =
    worker_round 1
    ∷ accept_round 9 (came 70)
    ∷ accept_round 9 timed_out
    ∷ accept_round 9 (came 71)
    ∷ accept_round 9 (came 72)
    ∷ worker_round 2
    ∷ []

fresh_active : fresh.is_active ≡ true
unfolding create
fresh_active = refl

connections_conserved_example :
    (l' : Life ℕ) × (c' : Channel ℕ) × (life_run rounds serving ≡ some l')
    × (l'.channel ≡ some c')
    × Perm (all_handed rounds serving ++ held c') (held fresh ++ streams rounds)
connections_conserved_example =
    connections_conserved rounds serving fresh tt refl refl fresh_active (create-IsSettled 2)

abbrev server : RpcServer Bytes ℕ ℕ
server = record {
  port = pos 8000;
  zk_host = [];
  worker_count = 2;
  services = echo ∷ [];
  running = false;
  registered = [];
  life = idle;
}

abbrev go : RpcServer Bytes ℕ ℕ → RpcServer Bytes ℕ ℕ
go s = Server.start (some 4) true [] true s

start_lem_example :
    (find (codes "S") (go server).registered
      ≡ or_else (latest (codes "S") (echo ∷ [])) (find (codes "S") []))
    × (go (go server) ≡ go server)
    × ((go (Server.stop (go server))).running ≡ true)
    × ((go (Server.stop (go server))).life.stopping ≡ true)
    × ((go (Server.stop (go server))).life.channel ≡ none)
start_lem_example = start_lem (some 4) true [] true server (codes "S") refl
