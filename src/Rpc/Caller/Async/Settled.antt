-- ===== src/Rpc/Caller/Async/Settled.antt =====
-- Every end of a call: `CallMethodAsync` on all its branches.
use mcoro_rpc.Common.{
  ℕ, ◌≡◌, refl, sym, List-cases, ap, [], ◌∷◌, ◌++◌, Bool, true, ◌||◌, Option, none, some, Bytes,
  arith, ℤ, Bool-cases, Option-cases, inl, inr,
}
use mcoro_rpc.Stream.{Socket}
use mcoro_rpc.Stream.Tcp.{TcpStream}
use mcoro_rpc.Buffer.{create, contents}
use mcoro_rpc.Codec.{TinyPbProtocol, encode}
use mcoro_rpc.Codec.Decode.{decode, Decoded-cases}
use mcoro_rpc.Rpc.Controller.{RpcController}
use mcoro_rpc.Rpc.Pool.{ObjectPool}
use mcoro_rpc.Rpc.Caller.{
  RpcChannel, Call, Calling, Called, returns_with, returns_at_once, raises_with, call_fault,
  no_fuel, run_done, connected_stream, timed, is_zero, thousandth, calling, init_controller,
}
use mcoro_rpc.Rpc.Caller.Async.{
  exchange, take_response, read_response, call_over, call_method_async,
}

-- A controller that was failed is failed.
abbrev pub Kept : RpcController → RpcController → Type 0
Kept before after = (before.failed || after.failed) ≡ after.failed

-- A call that returns has run its closure once, and its controller is failed or finished. One that
-- an exception leaves has not run it. Neither takes a failure back.
abbrev pub Settled : {K Rsp D : Type 0} → Option D → Calling K Rsp D → Called K Rsp D → Type 0
Settled closure c (returns_with e) =
    (e.ran ≡ c.ran ++ run_done closure)
    × ((e.controller.failed || e.controller.finished) ≡ true)
    × Kept c.controller e.controller
Settled closure c (raises_with e) = (e.ran ≡ c.ran) × Kept c.controller e.controller
Settled closure c returns_at_once = ⊥
Settled closure c call_fault = Unit {0}
Settled closure c no_fuel = Unit {0}

or_true : (b : Bool) → (b || true) ≡ true
or_true b = ground arith

or_same : (a b : Bool) → a ≡ b → (a || b) ≡ b
or_same a b e = ground (arith, e)

pub init_controller_failed :
    {K Rsp D : Type 0} (ch : RpcChannel K Rsp D) (ctrl : RpcController)
    → ctrl.failed ≡ (init_controller ch ctrl).failed
unfolding init_controller
init_controller_failed ch ctrl = ground arith

module _ {K Rsp D : Type 0} (socket : Socket K) (parse : Bytes → Rsp → Bool × Rsp)
    (late : ℤ → Bool) where
  take_response-Settled :
      (closure : Option D) (req m : TinyPbProtocol) (c c' : Calling K Rsp D)
      → c.ran ≡ c'.ran
      → c.controller.failed ≡ c'.controller.failed
      → Settled closure c (returns_with (take_response socket parse late closure req m c'))
  unfolding take_response
  take_response-Settled closure req m c c' e k = elim (Bool-cases (is_zero m.err_code)) [
    | inl z ↦ rw (z, e) (refl, or_true _, or_same _ _ k)
    | inr z ↦ rw (z, e) (refl, refl, or_true _)
  ]

  read_response-Settled :
      (fuel : ℕ) (closure : Option D) (req : TinyPbProtocol) (s : TcpStream K)
      (c c' : Calling K Rsp D)
      → c.ran ≡ c'.ran
      → c.controller.failed ≡ c'.controller.failed
      → Settled closure c (read_response socket parse late fuel closure req s c')
  unfolding read_response
  read_response-Settled fuel closure req s c c' e k =
      elim (Decoded-cases (decode fuel [] s.read_buffer)) [
        | inl (msgs, b, f) ↦ elim (List-cases msgs) [
          | inl none_read ↦
              rw (f, none_read, read_response)
                (sym (ap (λ l. l ++ run_done closure) e), refl, or_true _)
          | inr (rsp, later, some_read) ↦
              rw (f, some_read, read_response) (take_response-Settled closure req rsp c _ e k)
        ]
        | inr (inl (msgs, b, f)) ↦ rw (f, read_response) (sym e, or_same _ _ k)
        | inr (inr (inl f)) ↦ rw (f, read_response) tt
        | inr (inr (inr f)) ↦ rw (f, read_response) tt
      ]

  call_over-Settled :
      (fuel : ℕ) (closure : Option D) (req : TinyPbProtocol) (s : TcpStream K)
      (c c' : Calling K Rsp D)
      → c.ran ≡ c'.ran
      → c.controller.failed ≡ c'.controller.failed
      → Settled closure c (call_over socket parse late fuel closure req s c')
  unfolding call_over
  call_over-Settled fuel closure req s c c' q k =
      elim (Option-cases (encode (req ∷ []) (create 1024))) [
        | inl e ↦ rw (e, call_over) tt
        | inr ((msgs, b), e) ↦ elim (Option-cases (exchange socket fuel (contents b) s)) [
          | inl f ↦ rw (e, f, call_over) tt
          | inr ((end, s'), f) ↦
              elim (Option-cases (timed (late (thousandth c'.controller.timeout_ms)) end)) [
                | inl g ↦ rw (e, f, g, call_over) tt
                | inr (io_result, g) ↦ elim (Bool-cases io_result.is_timeout) [
                  | inl out ↦
                      rw (e, f, g, out, call_over)
                        (sym (ap (λ l. l ++ run_done closure) q), refl, or_true _)
                  | inr in_time ↦ elim (Bool-cases io_result.ok) [
                    | inl ok ↦
                        rw (e, f, g, in_time, ok, call_over)
                          (read_response-Settled fuel closure _ s' c _ q k)
                    | inr bad ↦
                        rw (e, f, g, in_time, bad, call_over)
                          (sym (ap (λ l. l ++ run_done closure) q), refl, or_true _)
                  ]
                ]
              ]
        ]
      ]

  -- A call with a controller of the class `RpcController`, on every branch: where it returns it has run
  -- its closure exactly once and left its controller failed or finished, where an exception leaves it
  -- it has not run the closure, and neither takes back a failure that the controller came with. A call
  -- with another controller, or none, returns at once and never runs its closure.
  pub call_method_async-Settled :
      (fuel : ℕ) (call : Call D) (controller : RpcController) (response : Rsp)
      (protocols : ObjectPool TinyPbProtocol) (ch : RpcChannel K Rsp D)
      → Settled call.done
          (calling controller response protocols ch)
          (call_method_async socket parse late fuel call (some controller) response protocols ch)
        × (call_method_async socket parse late fuel call none response protocols ch
            ≡ returns_at_once)
  unfolding call_method_async
  call_method_async-Settled fuel call controller response protocols ch =
      let kept = init_controller_failed ch controller in
      (
        elim (Option-cases (connected_stream ch)) [
          | inl e ↦ rw (e, call_method_async) (refl, refl, or_true _)
          | inr (s, e) ↦ elim (Bool-cases call.request.0) [
            | inl ok ↦
                simp (e, ok, call_method_async)
                  (call_over-Settled fuel call.done _ s (calling controller response protocols ch) _
                    refl kept)
            | inr bad ↦ simp (e, bad, call_method_async) (refl, refl, or_true _)
          ]
        ],
        refl,
      )
