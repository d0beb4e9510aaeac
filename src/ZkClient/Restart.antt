-- ===== src/ZkClient/Restart.antt =====
-- The ZooKeeper client started again after it was closed.
use mcoro_rpc.Common.{◌≡◌, refl, ap, ◌∙◌, List, [], ◌∷◌, true, false, codes, if_true, if_false}
use mcoro_rpc.ZkClient.{
  ZkClient, SessionState, zclosing, cleanup_pending_ops, notify_closing, poll, start, close,
}

poll_notified :
    (events : List SessionState) (c : ZkClient) → c.conn_notified ≡ true → poll events c ≡ c
poll_notified [] c told = refl
poll_notified (e ∷ es) c told = if_true _ _ told

close_lem :
    (c : ZkClient)
    → c.has_handle ≡ true
    → c.conn_notified ≡ false
    → close c
      ≡ record (notify_closing (cleanup_pending_ops c)) { has_handle = false; connected = false }
unfolding close
close_lem c alive quiet =
    if_true _ _ alive
    ∙ ap (λ (d : ZkClient). record d { has_handle = false; connected = false }) (if_false _ _ quiet)

-- A client that is closed with its connection's events all taken does not start again: though the
-- library gives a handle and whatever events come, `start` answers at once that the client is
-- closing, and closes the new handle.
pub start-close :
    (events : List SessionState) (c : ZkClient)
    → c.has_handle ≡ true
    → c.conn_notified ≡ false
    → ((start true events (close c)).0
        ≡ record { rc = zclosing; data_text = []; path = codes "closing" })
      × ((start true events (close c)).1.has_handle ≡ false)
      × ((start true events (close c)).1.connected ≡ false)
unfolding start
start-close events c alive quiet =
    let closed : ZkClient = record (notify_closing (cleanup_pending_ops c)) {
      has_handle = false;
      connected = false;
    } in
    let opened : ZkClient = record closed { has_handle = true } in
    rw (close_lem c alive quiet, poll_notified events opened refl, start) (refl, refl, refl)
