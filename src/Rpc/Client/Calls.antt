-- ===== src/Rpc/Client/Calls.antt =====
-- `callMethodAsync` and `callMethodSync` of src/rpc_client_impl.cc. `choose` is the load balancer's
-- `select`, and `stoi_what` the text of the exception of `std::stoi`. A call is a method with its
-- request: the client hands a null pointer to the channels for the closure. The controller is not
-- null. What other coroutines do to the client is modelled where a call waits for its connection, and
-- not while it sleeps or waits for its response.
pub mod Answers
pub mod Keeps
use mcoro_rpc.Common.{
  ℕ, zero, suc, List, [], ◌∷◌, ◌++◌, Bool, true, false, not, Option, none, some, Bytes, codes, ℤ,
  pos, negsuc, ltb_ℤ, if◌then◌else◌,
}
use mcoro_rpc.Common.Names.{names_without}
use mcoro_rpc.Rpc.Controller.{RpcController, new_controller, set_failed, set_timeout}
use mcoro_rpc.Rpc.Client.{
  RpcClient, Channels, CallEnd, call_returns, call_raises, Got, got, got_null, got_raises,
  get_or_create_channel, mark_unavailable, has_some,
}

-- A call answers, an exception leaves it, or it follows a null pointer.
pub data Answered : Type 0 where
  answered : Bool → Answered
  raises crashes : Answered

-- The controller that `callMethodSync` makes.
abbrev pub controller_with : ℤ → RpcController
controller_with timeout_ms =
    if ltb_ℤ (pos 0) timeout_ms then set_timeout timeout_ms new_controller else new_controller

-- What a call works on.
pub record Work (L H : Type 0) : Type 0 where
  pub client : RpcClient L
  pub controller : RpcController
  pub store : H

-- The rounds of `for (retry = 0; retry < n; ++retry)` and of the loop with `<=`.
abbrev pub rounds_below : ℤ → ℕ
rounds_below (pos n) = n
rounds_below (negsuc n) = 0

abbrev pub rounds_to : ℤ → ℕ
rounds_to (pos n) = suc n
rounds_to (negsuc n) = 0

module _ {L H C : Type 0} (io : Channels H C) (others : RpcClient L → H → RpcClient L × H)
    (stoi : Bytes → Option ℤ) (stoi_what : Bytes) (choose : List Bytes → L → Bytes × L) where
  -- `markUnavailable(targetAddr); controller->SetFailed(…); co_return false;`
  abbrev pub give_up : Bytes → Bytes → Work L H → Answered × Work L H
  give_up target reason w = (
    answered false,
    record w {
      client = mark_unavailable target w.client;
      controller = set_failed reason w.controller;
    },
  )

  abbrev pub call_failed : Bytes → Bytes → Work L H → Answered × Work L H
  call_failed target what w = give_up target (codes "rpc error: " ++ what) w

  -- The loop of `getOrCreateChannel` behind a null pointer. What it gives is not looked at.
  unfoldable pub retry_channel : ℕ → Bytes → Work L H → Answered × Work L H
  retry_channel zero target w = give_up target (codes "failed to connect to " ++ target) w
  retry_channel (suc retries) target w =
      let (channel, client, h) = get_or_create_channel io others stoi target w.client w.store in
      let w' : Work L H = record w { client = client; store = h } in
      let later = retry_channel retries target w' in
      elim channel [
        | got _ ↦ give_up target (codes "failed to connect to " ++ target) w'
        | got_null ↦ later
        | got_raises ↦ (raises, w')
      ]

  -- The loop of calls behind a failed one, on the channel that the pointer leads to.
  unfoldable pub retry_calls : ℕ → C → Option ℕ → Bytes → Work L H → Answered × Work L H
  retry_calls zero call channel target w =
      (answered false, record w { client = mark_unavailable target w.client })
  retry_calls (suc retries) call none target w = (crashes, w)
  retry_calls (suc retries) call (some channel) target w =
      let (end, ctrl, h) = io.call channel call w.controller w.store in
      let w1 : Work L H = record w { controller = ctrl; store = h } in
      let (next, client, h') = get_or_create_channel io others stoi target w1.client w1.store in
      let w2 : Work L H = record w1 { client = client; store = h' } in
      let last = retry_calls retries call (some channel) target w1 in
      let on_next : Option ℕ → Answered × Work L H = λ c. retry_calls retries call c target w2 in
      elim end [
        | call_raises what ↦ call_failed target what w1
        | call_returns ↦
            if ctrl.failed
            then elim retries [
              | zero ↦ last
              | suc _ ↦ elim next [
                | got c ↦ on_next (some c)
                | got_null ↦ on_next none
                | got_raises ↦ call_failed target stoi_what w2
              ]
            ]
            else (answered true, w1)
      ]

  -- The part behind the channel.
  unfoldable pub call_channel : C → ℕ → Bytes → Work L H → Answered × Work L H
  call_channel call channel target w =
      let (end, ctrl, h) = io.call channel call w.controller w.store in
      let w' : Work L H = record w { controller = ctrl; store = h } in
      let retried =
        retry_calls (rounds_to w.client.options.max_retries) call (some channel) target w' in
      elim end [
        | call_raises what ↦ call_failed target what w'
        | call_returns ↦ if ctrl.failed then retried else (answered true, w')
      ]

  -- The part behind the choice of the address.
  unfoldable pub call_address : C → Bytes → Work L H → Answered × Work L H
  call_address call target w =
      let (channel, client, h) = get_or_create_channel io others stoi target w.client w.store in
      let w' : Work L H = record w { client = client; store = h } in
      elim channel [
        | got c ↦ call_channel call c target w'
        | got_null ↦ retry_channel (rounds_below client.options.max_retries) target w'
        | got_raises ↦ (raises, w')
      ]

  abbrev pub refuse : Bytes → Work L H → Answered × Work L H
  refuse reason w = (answered false, record w { controller = set_failed reason w.controller })

  unfoldable pub call_method_async : C → Work L H → Answered × Work L H
  call_method_async call w =
      let available = names_without w.client.instances w.client.failed_addrs in
      let (target, balancer) = choose available w.client.balancer in
      let chosen : Work L H = record w { client = record w.client { balancer = balancer } } in
      let called = call_address call target chosen in
      let chosen_or_not =
        if has_some available then called else refuse (codes "all instances are unavailable") w in
      if has_some w.client.instances
      then chosen_or_not
      else refuse (codes "no available instances") w

  -- `callMethodSync`, where the event loop runs its task to the end. The task is not awaited, and
  -- an exception stays in it. `none` is a null pointer followed.
  unfoldable pub call_method_sync : C → ℤ → RpcClient L → H → Option (Bool × RpcClient L × H)
  call_method_sync call timeout_ms client h =
      let controller = controller_with timeout_ms in
      let (end, w) =
        call_method_async call (record { client = client; controller = controller; store = h }) in
      let error = if w.controller.failed then w.controller.error_text else [] in
      let result =
        some (not w.controller.failed, record w.client { last_error = error }, w.store) in
      elim end [ answered _ ↦ result | raises ↦ result | crashes ↦ none ]
