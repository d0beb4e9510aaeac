-- ===== src/Rpc/Dispatcher/Routes.antt =====
-- Where a request goes, and what its response and context report.
use mathlib.Core.Option
use mcoro_rpc.Common.{
  ◌≡◌, ◌≢◌, ◌⊎◌, refl, [], ◌∷◌, ◌++◌, true, false, Option, some, Bytes, same, same_iff, Bool-cases,
  inl, inr, if◌then◌else◌, arith, ℤ, pos, Option-cases, ap, ◌∙◌,
}
use mcoro_rpc.Codec.{TinyPbProtocol}
use mcoro_rpc.Rpc.Context.{RpcContext, set_msg_id, set_failed, set_finished, set_err_code}
use mcoro_rpc.Rpc.Dispatcher.{
  Service, Services, find, without, register_service, dispatch_to, dispatch, dot, refuse,
  parse_service_full_name,
}
use mcoro_rpc.Rpc.Dispatcher.Names.{Lacks, parse_service_full_name_iff}

-- The response with what it repeats of the request.
abbrev pub addressed : TinyPbProtocol → TinyPbProtocol → TinyPbProtocol
addressed request response = record response {
  msg_id = request.msg_id;
  method_name = request.method_name;
}

module _ {S Addr : Type 0} where
  -- How a dispatch ends for a context: as the response reports it.
  pub record Reports (request : TinyPbProtocol) (c : RpcContext Addr)
      (end : TinyPbProtocol × Option (RpcContext Addr) × S) : Type 0 where
    pub after : RpcContext Addr
    pub kept : end.1 ≡ some after
    pub same_id : (end.0.msg_id ≡ request.msg_id) × (after.msg_id ≡ request.msg_id)
    pub same_method : end.0.method_name ≡ request.method_name
    pub same_code : after.err_code ≡ end.0.err_code
    pub ends :
        ((end.0.err_code ≡ pos 0) × (after.is_finished ≡ true) × (after.is_failed ≡ c.is_failed))
        ⊎ ((end.0.err_code ≢ pos 0)
            × (after.is_failed ≡ true)
            × (after.err_info ≡ end.0.err_info)
            × (after.is_finished ≡ c.is_finished))

  refuse-Reports :
      (request response : TinyPbProtocol) (c : RpcContext Addr) (s : S) (code : ℤ) (info : Bytes)
      → response.msg_id ≡ request.msg_id
      → response.method_name ≡ request.method_name
      → code ≢ pos 0
      → Reports request c (refuse code info response (some (set_msg_id request.msg_id c)) s)
  refuse-Reports request response c s code info same_id same_method failed = record {
    after = set_failed code info (set_msg_id request.msg_id c);
    kept = refl;
    same_id = (same_id, refl);
    same_method = same_method;
    same_code = refl;
    ends = inr (failed, refl, refl, refl);
  }

module _ {Msg S : Type 0} where
  find-without :
      (n k : Bytes) (services : Services Msg S)
      → same n k ≡ false
      → find k (without n services) ≡ find k services
  unfolding find without
  find-without n k [] d = refl
  find-without n k ((key, info) ∷ rest) d = elim (Bool-cases (same key n)) [
    | inl h ↦
        let e = (same_iff key n).0 h in
        let d' : same key k ≡ false = ap (λ t. same t k) e ∙ d in
        ground (arith, h, d', find-without n k rest d)
    | inr h ↦ ground (arith, h, find-without n k rest d)
  ]

  pub find-register_service :
      (v : Service Msg S) (services : Services Msg S) (k : Bytes)
      → find k (register_service v services) ≡ (
          if same v.full_name k
          then some (record { service = v; service_name = v.full_name; methods = v.methods })
          else find k services)
  unfolding find register_service
  find-register_service v services k = elim (Bool-cases (same v.full_name k)) [
    | inl h ↦ ground (arith, h)
    | inr h ↦ ground (arith, h, find-without v.full_name k services h)
  ]

  module _ {Addr : Type 0} where
    -- After a service is registered, a request whose method name is a service's, a dot and a name
    -- without one goes to the new service if it is that service's name, in place of any that had
    -- it before, and where it went before otherwise.
    pub dispatch-register_service :
        (v : Service Msg S) (services : Services Msg S) (request response : TinyPbProtocol)
        (ctx : Option (RpcContext Addr)) (s : S) (service method : Bytes)
        → request.method_name ≡ service ++ (dot ∷ method)
        → Lacks dot method
        → dispatch (register_service v services) request response ctx s ≡ (
            if same v.full_name service
            then dispatch_to v method request.pb_data
                (addressed request response)
                (Option.map (set_msg_id request.msg_id) ctx)
                s
            else dispatch services request response ctx s)
    unfolding dispatch
    dispatch-register_service v services request response ctx s service method e l = ground (
      arith,
      (parse_service_full_name_iff request.method_name service method).1 (e, l),
      find-register_service v services service,
    )

    dispatch_to-Reports :
        (v : Service Msg S) (request response : TinyPbProtocol) (c : RpcContext Addr) (s : S)
        (method pb_data : Bytes)
        → response.msg_id ≡ request.msg_id
        → response.method_name ≡ request.method_name
        → Reports request c
            (dispatch_to v method pb_data response (some (set_msg_id request.msg_id c)) s)
    unfolding dispatch_to
    dispatch_to-Reports v request response c s method pb_data e f =
        elim (Bool-cases (v.find_method method)) [
          | inr h ↦ rw (h, dispatch_to) (refuse-Reports request response c s _ _ e f (λ z. cc))
          | inl h ↦ elim (Option-cases (v.parse_request method pb_data)) [
            | inl g ↦ rw (h, g, dispatch_to) (refuse-Reports request response c s _ _ e f (λ z. cc))
            | inr (req_msg, g) ↦
                let (rsp_msg, s') = v.call_method method req_msg s in
                let (ok, text) = v.serialize method rsp_msg response.pb_data in
                elim (Bool-cases ok) [
                  | inl k ↦
                      rw (h, g, k, dispatch_to)
                        record {
                          after =
                              set_finished true
                                (set_err_code (pos 0) (set_msg_id request.msg_id c));
                          kept = refl;
                          same_id = (e, refl);
                          same_method = f;
                          same_code = refl;
                          ends = inl (refl, refl, refl);
                        }
                  | inr k ↦
                      rw (h, g, k, dispatch_to)
                        (refuse-Reports request (record response { pb_data = text }) c s' _ _ e f
                          (λ z. cc))
                ]
          ]
        ]

    -- Whatever the request and the services, the response repeats the request's id and method,
    -- and the context carries that id and the response's error code: code 0 finishes the call,
    -- any other fails it with the response's error text.
    pub dispatch-Reports :
        (services : Services Msg S) (request response : TinyPbProtocol) (c : RpcContext Addr)
        (s : S)
        → Reports request c (dispatch services request response (some c) s)
    unfolding dispatch
    dispatch-Reports services request response c s =
        let start = addressed request response in
        elim (Option-cases (parse_service_full_name request.method_name)) [
          | inl h ↦ rw (h, dispatch) (refuse-Reports request start c s _ _ refl refl (λ z. cc))
          | inr ((service, method), h) ↦ elim (Option-cases (find service services)) [
            | inl g ↦ rw (h, g, dispatch) (refuse-Reports request start c s _ _ refl refl (λ z. cc))
            | inr (info, g) ↦
                rw (h, g, dispatch)
                  (dispatch_to-Reports info.service request start c s method request.pb_data refl
                    refl)
          ]
        ]
