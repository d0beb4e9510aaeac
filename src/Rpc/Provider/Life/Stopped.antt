-- ===== src/Rpc/Provider/Life/Stopped.antt =====
-- A provider that was stopped.
use mcoro_rpc.Common.{
  ℕ, ◌≡◌, refl, ap, ◌∙◌, List, ◌++◌, map, Bool, true, false, Option, none, some, if◌then◌else◌,
  if_true, arith,
}
use mcoro_rpc.Channel.{Channel, cancelled, done, close, cleanup}
use mcoro_rpc.ZkClient
use mcoro_rpc.ZkClient.{SessionState}
use mcoro_rpc.Rpc.Provider.Life.{
  Life, Arrival, came, timed_out, broke, begin_start, leave_accept, accepted_round, stop,
  drop_channel,
}

module _ {S : Type 0} where
  dropped :
      (c : Channel S)
      → c.is_active ≡ true
      → drop_channel (some c) ≡ map (λ w. cancelled w.handle) c.writers ++ map cancelled c.readers
  unfolding drop_channel close cleanup
  dropped c active = ground (arith, active)

  accepts_no_more :
      (acceptor : ℕ) (arrival : Arrival S) (l : Life S)
      → l.stopping ≡ true
      → l.channel ≡ none
      → accepted_round acceptor arrival l ≡ none
  unfolding accepted_round leave_accept
  accepts_no_more acceptor broke l told gone = rw (gone, leave_accept) refl
  accepts_no_more acceptor timed_out l told gone =
      rw (told, gone, leave_accept, accepted_round) refl
  accepts_no_more acceptor (came s) l told gone = rw (told, gone, leave_accept, accepted_round) refl

  -- Stopping a provider cancels every worker and every sender that waits, once, and takes the
  -- channel and the service away. The accept loop, in whatever way its wait then ends, closes the
  -- channel that is gone, which is undefined; and `start` leaves the stopped provider as it is.
  pub stop_lem :
      (l : Life S) (c : Channel S) (acceptor : ℕ) (arrival : Arrival S) (fd : Option ℕ)
      (has_host made : Bool) (events : List SessionState) (registers : Bool)
      → l.started ≡ true
      → l.channel ≡ some c
      → c.is_active ≡ true
      → (l' : Life S) × (stop l
          ≡ some
              (l', map (λ w. cancelled w.handle) c.writers ++ map cancelled c.readers, done true))
        × (accepted_round acceptor arrival l' ≡ none)
        × (begin_start fd has_host made events registers l' ≡ l')
  unfolding stop begin_start
  stop_lem l c acceptor arrival fd has_host made events registers on here active =
      let l' : Life S = record l {
        stopping = true;
        registered = false;
        zk = if l.zk.connected then ZkClient.close l.zk else l.zk;
        service = none;
        channel = none;
      } in
      (
        l',
        ap (λ w. some (l', w, done true)) (ap drop_channel here ∙ dropped c active),
        accepts_no_more acceptor arrival l' refl refl,
        if_true _ _ on,
      )
