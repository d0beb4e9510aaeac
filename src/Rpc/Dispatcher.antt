-- ===== src/Rpc/Dispatcher.antt =====
-- The dispatcher: `RpcDispatcher` of include/rpc/rpc_provider.hpp and src/rpc_provider.cc. The
-- protobuf service and its messages are not part of the repository: they are a parameter.
pub mod Names
pub mod Routes
pub mod Texts
use mathlib.Core.Option
use mcoro_rpc.Common.{
  ℕ, suc, List, [], ◌∷◌, ◌++◌, Bool, true, false, Option, none, some, Bytes, codes, same, ◌==◌,
  if◌then◌else◌, take, drop, ℤ, pos,
}
use mcoro_rpc.Codec.{TinyPbProtocol}
use mcoro_rpc.Rpc.Context.{RpcContext, set_failed, set_msg_id, set_err_code, set_finished}

-- A `google::protobuf::Service` over messages `Msg`, with the state `S` that its methods change:
-- `FindMethodByName`, `GetRequestPrototype(method).New()` with `ParseFromString`, `CallMethod`
-- and `SerializeToString`, which answers whether it succeeded and what it leaves in the string.
pub record Service (Msg S : Type 0) : Type 0 where
  pub full_name : Bytes
  pub methods : List Bytes
  pub find_method : Bytes → Bool
  pub parse_request : Bytes → Bytes → Option Msg
  pub call_method : Bytes → Msg → S → Msg × S
  pub serialize : Bytes → Msg → Bytes → Bool × Bytes

pub record RpcServiceInfo (Msg S : Type 0) : Type 0 where
  pub service : Service Msg S
  pub service_name : Bytes
  pub methods : List Bytes

-- `m_services`, an association list for the `unordered_map`.
abbrev pub Services : Type 0 → Type 0 → Type 0
Services Msg S = List (Bytes × RpcServiceInfo Msg S)

-- `std::string::rfind` of one character.
unfoldable pub rfind : ℕ → Bytes → Option ℕ
rfind k [] = none
rfind k (c ∷ cs) = elim (rfind k cs) [
  | some n ↦ some (suc n)
  | none ↦ if c == k then some 0 else none
]

abbrev pub dot : ℕ
dot = 0x2e

unfoldable pub parse_service_full_name : Bytes → Option (Bytes × Bytes)
unfolding rfind
parse_service_full_name [] = none
parse_service_full_name (c ∷ cs) = elim (rfind dot (c ∷ cs)) [
  | none ↦ none
  | some n ↦ some (take n (c ∷ cs), drop (suc n) (c ∷ cs))
]

module _ {S Addr : Type 0} where
  -- `response->m_err_code = …; response->m_err_info = …; if (ctx) ctx->setFailed(…)`, then the
  -- response, the context if there is one, and the state of the services.
  abbrev pub refuse :
      ℤ
      → Bytes
      → TinyPbProtocol
      → Option (RpcContext Addr)
      → S
      → TinyPbProtocol × Option (RpcContext Addr) × S
  refuse code info response ctx s = (
    record response { err_code = code; err_info = info },
    Option.map (set_failed code info) ctx,
    s,
  )

module _ {Msg S : Type 0} where
  unfoldable pub find : Bytes → Services Msg S → Option (RpcServiceInfo Msg S)
  find name [] = none
  find name ((key, info) ∷ rest) =
      let later = find name rest in if same key name then some info else later

  without : Bytes → Services Msg S → Services Msg S
  without name [] = []
  without name ((key, info) ∷ rest) =
      let later = without name rest in if same key name then later else (key, info) ∷ later

  pub register_service : Service Msg S → Services Msg S → Services Msg S
  unfolding without
  register_service service services =
      (
        service.full_name,
        record { service = service; service_name = service.full_name; methods = service.methods },
      )
      ∷ without service.full_name services

  module _ {Addr : Type 0} where
    -- The part behind the lookup of the service: the method, its request, the call and the answer.
    unfoldable pub dispatch_to :
        Service Msg S
        → Bytes
        → Bytes
        → TinyPbProtocol
        → Option (RpcContext Addr)
        → S
        → TinyPbProtocol × Option (RpcContext Addr) × S
    dispatch_to service method_name pb_data response ctx s =
        if service.find_method method_name
        then elim (service.parse_request method_name pb_data) [
          | none ↦ refuse (pos 4) (codes "parse request error") response ctx s
          | some req_msg ↦
              let (rsp_msg, s') = service.call_method method_name req_msg s in
              let (ok, text) = service.serialize method_name rsp_msg response.pb_data in
              let response' = record response { pb_data = text } in
              if ok
              then (
                record response' { err_code = pos 0 },
                Option.map (λ c. set_finished true (set_err_code (pos 0) c)) ctx,
                s',
              )
              else refuse (pos 5) (codes "serialize response error") response' ctx s'
        ]
        else refuse (pos 3) (codes "method not found: " ++ method_name) response ctx s

    unfoldable pub dispatch :
        Services Msg S
        → TinyPbProtocol
        → TinyPbProtocol
        → Option (RpcContext Addr)
        → S
        → TinyPbProtocol × Option (RpcContext Addr) × S
    dispatch services request response ctx s =
        let response' = record response {
          msg_id = request.msg_id;
          method_name = request.method_name;
        } in
        let ctx' = Option.map (set_msg_id request.msg_id) ctx in
        elim (parse_service_full_name request.method_name) [
          | none ↦ refuse (pos 1) (codes "parse service name error") response' ctx' s
          | some (service_name, method_name) ↦ elim (find service_name services) [
            | none ↦ refuse (pos 2) (codes "service not found: " ++ service_name) response' ctx' s
            | some info ↦ dispatch_to info.service method_name request.pb_data response' ctx' s
          ]
        ]
