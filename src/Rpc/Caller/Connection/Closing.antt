-- ===== src/Rpc/Caller/Connection/Closing.antt =====
-- What `close` does to the requests in the queue.
use mcoro_rpc.Common.{
  ℕ, ◌+◌, ◌≡◌, ◌<◌, refl, ap, ◌∙◌, length-append, [], ◌∷◌, ◌++◌, Bool, true, false, length, codes,
  Option-cases, inl, inr,
}
use mcoro_rpc.Channel.{Channel}
use mcoro_rpc.Channel.Close.{send_sync_queues, close_empties}
use mcoro_rpc.Rpc.Controller.{RpcController}
use mcoro_rpc.Codec.{TinyPbProtocol, new_protocol}
use mcoro_rpc.Rpc.Pool.{ObjectPool}
use mcoro_rpc.Rpc.Caller.{
  RpcRequest, RpcChannel, Call, Calling, call_method, queue_request, init_controller, request_of,
  calling, fail_call, usable,
}
use mcoro_rpc.Rpc.Caller.Connection.{Reconnected, leaves, begin_round, close}

module _ {K Rsp D : Type 0} (running : ℕ → Bool) where
  -- Behind a close, a call is failed at once with its closure run, and the worker leaves its loop.
  pub call_method-close :
      (call : Call D) (controller : RpcController) (response : Rsp)
      (protocols : ObjectPool TinyPbProtocol) (ch : RpcChannel K Rsp D) (worker : ℕ)
      (again : Reconnected K Rsp D)
      → let closed = (close running ch).0 in
        let ctrl = init_controller closed controller in
        (call_method call controller response protocols closed ≡ (
          fail_call call.done (codes "not connected") (calling ctrl response protocols closed),
          [],
        ))
        × (begin_round worker again closed ≡ leaves (record closed { worker_running = false }))
  unfolding close call_method begin_round
  call_method-close call controller response protocols ch worker again =
      elim (Option-cases (usable ch.stream)) [
        | inl e ↦ rw (e, close) (refl, refl)
        | inr (s, e) ↦ rw (e, close) (refl, refl)
      ]

  close_queue :
      (ch : RpcChannel K Rsp D)
      → ch.request_chan.is_active ≡ true
      → (close running ch).0.request_chan.buffer ≡ []
  unfolding close
  close_queue ch a = elim (Option-cases (usable ch.stream)) [
    | inl e ↦ rw (e, close) (close_empties ch.request_chan a)
    | inr (s, e) ↦ rw (e, close) (close_empties ch.request_chan a)
  ]

  -- A request that `CallMethod` has put into an open queue with room, where no worker waits, is lost
  -- when the channel is closed: nothing has been reported to the caller, the queue is empty, and
  -- the worker leaves its loop, so that the closure never runs.
  pub close_loses :
      (call : Call D) (controller : RpcController) (response : Rsp)
      (protocols : ObjectPool TinyPbProtocol) (ch : RpcChannel K Rsp D) (worker : ℕ)
      (again : Reconnected K Rsp D)
      → ch.connected ≡ true
      → call.request.0 ≡ true
      → ch.request_chan.is_active ≡ true
      → ch.request_chan.readers ≡ []
      → length ch.request_chan.buffer < ch.request_chan.capacity
      → let c = (call_method call controller response protocols ch).0 in
        let closed = (close running c.channel).0 in
        (c.ran ≡ [])
        × (c.controller ≡ init_controller ch controller)
        × (length c.channel.request_chan.buffer ≡ length ch.request_chan.buffer + 1)
        × (closed.request_chan.buffer ≡ [])
        × (begin_round worker again closed ≡ leaves (record closed { worker_running = false }))
  unfolding call_method queue_request
  close_loses call controller response protocols ch worker again up ok open_queue nobody room =
      let req : RpcRequest Rsp D = record {
        req = request_of call (init_controller ch controller) new_protocol;
        response = response;
        controller = init_controller ch controller;
        done = call.done;
      } in
      let queue : Channel (RpcRequest Rsp D) = record ch.request_chan {
        buffer = ch.request_chan.buffer ++ (req ∷ []);
      } in
      let c : Calling K Rsp D =
        record (calling (init_controller ch controller) response protocols ch) {
          channel = record ch { request_chan = queue };
        } in
      let e : (call_method call controller response protocols ch).0 ≡ c = simp (
        up,
        ok,
        send_sync_queues ch.request_chan req open_queue nobody room,
        call_method,
        queue_request,
      ) in
      let d = (call_method call controller response protocols ch).0.channel in
      (
        ap (λ k. k.ran) e,
        ap (λ k. k.controller) e,
        ap (λ k. length k.channel.request_chan.buffer) e
            ∙ length-append ch.request_chan.buffer (req ∷ []),
        close_queue d (ap (λ k. k.channel.request_chan.is_active) e ∙ open_queue),
        (call_method-close call controller response protocols d worker again).1,
      )
