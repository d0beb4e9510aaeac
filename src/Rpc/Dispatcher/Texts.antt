-- ===== src/Rpc/Dispatcher/Texts.antt =====
-- What of the response object that a dispatch is given shows in its answer.
use mcoro_rpc.Common.{◌≡◌, refl, Option, Bytes, Bool-cases, Option-cases, inl, inr, ℤ}
use mcoro_rpc.Codec.{TinyPbProtocol, packet}
use mcoro_rpc.Codec.Decode.RoundTrip.{with_id}
use mcoro_rpc.Rpc.Context.{RpcContext}
use mcoro_rpc.Rpc.Dispatcher.{
  Service, Services, find, dispatch_to, dispatch, parse_service_full_name,
}
use mcoro_rpc.Rpc.Dispatcher.Routes.{addressed}

-- Two messages with the same text: the fields that the coder writes.
pub record SameText (m n : TinyPbProtocol) : Type 0 where
  pub same_id : m.msg_id ≡ n.msg_id
  pub same_method : m.method_name ≡ n.method_name
  pub same_code : m.err_code ≡ n.err_code
  pub same_info : m.err_info ≡ n.err_info
  pub same_data : m.pb_data ≡ n.pb_data

refused :
    (m n : TinyPbProtocol) (code : ℤ) (info : Bytes)
    → SameText m n
    → SameText
        (record m { err_code = code; err_info = info })
        (record n { err_code = code; err_info = info })
refused m n code info t = record {
  same_id = t.same_id;
  same_method = t.same_method;
  same_code = refl;
  same_info = refl;
  same_data = t.same_data;
}

module _ {Msg S Addr Addr' : Type 0} where
  dispatch_to-Agree :
      (v : Service Msg S) (method pb_data : Bytes) (m n : TinyPbProtocol)
      (c : Option (RpcContext Addr)) (d : Option (RpcContext Addr')) (s : S)
      → SameText m n
      → SameText (dispatch_to v method pb_data m c s).0 (dispatch_to v method pb_data n d s).0
        × ((dispatch_to v method pb_data m c s).2 ≡ (dispatch_to v method pb_data n d s).2)
  unfolding dispatch_to
  dispatch_to-Agree v method pb_data m n c d s t = elim (Bool-cases (v.find_method method)) [
    | inr h ↦ rw (h, dispatch_to) (refused m n _ _ t, refl)
    | inl h ↦ elim (Option-cases (v.parse_request method pb_data)) [
      | inl g ↦ rw (h, g, dispatch_to) (refused m n _ _ t, refl)
      | inr (req_msg, g) ↦
          let (rsp_msg, s') = v.call_method method req_msg s in
          let out = v.serialize method rsp_msg n.pb_data in
          elim (Bool-cases out.0) [
            | inl k ↦
                rw (h, g, t.same_data, k, dispatch_to)
                  (
                    record {
                      same_id = t.same_id;
                      same_method = t.same_method;
                      same_code = refl;
                      same_info = t.same_info;
                      same_data = refl;
                    },
                    refl,
                  )
            | inr k ↦
                rw (h, g, t.same_data, k, dispatch_to)
                  (
                    record {
                      same_id = t.same_id;
                      same_method = t.same_method;
                      same_code = refl;
                      same_info = refl;
                      same_data = refl;
                    },
                    refl,
                  )
          ]
    ]
  ]

  pub dispatch-Agree :
      (services : Services Msg S) (request m n : TinyPbProtocol) (c : Option (RpcContext Addr))
      (d : Option (RpcContext Addr')) (s : S)
      → SameText m n
      → SameText (dispatch services request m c s).0 (dispatch services request n d s).0
        × ((dispatch services request m c s).2 ≡ (dispatch services request n d s).2)
  unfolding dispatch
  dispatch-Agree services request m n c d s t =
      let start : SameText (addressed request m) (addressed request n) = record {
        same_id = refl;
        same_method = refl;
        same_code = t.same_code;
        same_info = t.same_info;
        same_data = t.same_data;
      } in
      elim (Option-cases (parse_service_full_name request.method_name)) [
        | inl h ↦
            rw (h, dispatch) (refused (addressed request m) (addressed request n) _ _ start, refl)
        | inr ((service, method), h) ↦ elim (Option-cases (find service services)) [
          | inl g ↦
              rw (h, g, dispatch)
                (refused (addressed request m) (addressed request n) _ _ start, refl)
          | inr (info, g) ↦
              rw (h, g, dispatch)
                (dispatch_to-Agree info.service method request.pb_data (addressed request m)
                  (addressed request n) _ _ s start)
        ]
      ]

-- The coder writes messages of the same text as the same packet.
pub packet-SameText :
    {m n : TinyPbProtocol} → SameText m n → packet (with_id m) ≡ packet (with_id n)
packet-SameText t = rw (t.same_id, t.same_method, t.same_code, t.same_info, t.same_data) refl
