-- ===== src/Tests/Channels.antt =====
-- Channels at small sizes.
use mcoro_rpc.Common.{ℕ, ◌≡◌, refl, inl, inr, List, [], ◌∷◌, ◌++◌, true, arith}
use mathlib.Core.List.{Perm}
use mcoro_rpc.Channel.{Channel, Call, sends, recvs, send_syncs, cancels, closes, create, run}
use mcoro_rpc.Channel.Invariant.{IsSettled, run-create-IsSettled}
use mcoro_rpc.Channel.Order.{held, all_delivered, all_accepted, run_in_order}
use mcoro_rpc.Channel.Conserve.{all_lost, run_conserves}

abbrev calls : List (Call ℕ)
calls = sends 1 10 ∷ sends 2 20 ∷ sends 3 30 ∷ recvs 4 ∷ []

run-create-IsSettled_example : IsSettled (run (create {T = ℕ} 1) calls)
run-create-IsSettled_example = run-create-IsSettled 1 calls

-- One value buffered in a channel of capacity 1, and a writer that waits.
abbrev crowded : Channel ℕ
crowded = record {
  capacity = 1;
  buffer = 10 ∷ [];
  writers = record { handle = 2; value = 20 } ∷ [];
  readers = [];
  is_active = true;
}

crowded-IsSettled : IsSettled crowded
crowded-IsSettled = record {
  readers_idle = inl refl;
  writers_idle = inr refl;
  bounded = omega arith;
}

abbrev unbuffered : Channel ℕ
unbuffered = record { capacity = 0; buffer = []; writers = []; readers = []; is_active = true }

unbuffered-IsSettled : IsSettled unbuffered
unbuffered-IsSettled = record {
  readers_idle = inl refl;
  writers_idle = inl refl;
  bounded = omega arith;
}

abbrev orderly_calls : List (Call ℕ)
orderly_calls = sends 1 10 ∷ recvs 4 ∷ recvs 5 ∷ send_syncs 20 ∷ []

run_in_order_example :
    all_delivered unbuffered orderly_calls ++ held (run unbuffered orderly_calls)
    ≡ held unbuffered ++ all_accepted unbuffered orderly_calls
run_in_order_example =
    run_in_order unbuffered orderly_calls unbuffered-IsSettled (inl refl)
      (refl, (tt, (tt, (tt, tt))))

run_conserves_example :
    Perm
      ((all_delivered crowded (recvs 3 ∷ send_syncs 5 ∷ cancels ∷ closes ∷ [])
          ++ held (run crowded (recvs 3 ∷ send_syncs 5 ∷ cancels ∷ closes ∷ [])))
        ++ all_lost crowded (recvs 3 ∷ send_syncs 5 ∷ cancels ∷ closes ∷ []))
      (held crowded ++ all_accepted crowded (recvs 3 ∷ send_syncs 5 ∷ cancels ∷ closes ∷ []))
run_conserves_example =
    run_conserves crowded (recvs 3 ∷ send_syncs 5 ∷ cancels ∷ closes ∷ []) crowded-IsSettled
