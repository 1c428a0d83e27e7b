-- ===== src/Ws/ErrorCode.antt =====
-- data_server/ws/common: error_code.go and rsp_common.go.
use microservices_trading_bo.Common.{
  ℕ, ◌≡◌, ◌≢◌, ◌↔◌, ◌∙◌, Text, codes, text_eq, text_eq_iff, [], ◌∷◌, none, some, if◌then◌else◌,
  Bool-cases, Option-cases, inl, inr, arith,
}
use microservices_trading_bo.Ws.Code
use microservices_trading_bo.Common.Names.{Table, name_of}

-- `codeMap`
unfoldable pub code_map : Table
code_map =
    (Code.ok, codes "Success")
    ∷ (Code.not_logged_in, codes "未登录")
    ∷ (Code.parameter_illegal, codes "参数不合法")
    ∷ (Code.unauthorized_user_id, codes "非法的用户Id")
    ∷ (Code.unauthorized, codes "未授权")
    ∷ (Code.not_data, codes "没有数据")
    ∷ (Code.server_error, codes "系统错误")
    ∷ (Code.model_add_error, codes "添加错误")
    ∷ (Code.model_delete_error, codes "删除错误")
    ∷ (Code.model_store_error, codes "存储错误")
    ∷ (Code.operation_failure, codes "操作失败")
    ∷ (Code.routing_not_exist, codes "路由不存在")
    ∷ (Code.duplicate_email, codes "DuplicateEmail")
    ∷ []

abbrev pub undefined_error : Text
undefined_error = codes "未定义错误类型!"

unfoldable pub get_error_message : ℕ → Text → Text
get_error_message code message =
    if text_eq message []
    then (elim (name_of code_map code) [ none ↦ undefined_error | some value ↦ value ])
    else message

pub record JsonResult (Data : Type 0) : Type 0 where
  pub code : ℕ
  pub msg : Text
  pub payload : Data

grant_map : {Data : Type 0} → ℕ → Text → Data → JsonResult Data
grant_map code message payload = record { code = code; msg = message; payload = payload }

unfoldable pub response : {Data : Type 0} → ℕ → Text → Data → JsonResult Data
unfolding grant_map
response code message payload = grant_map code (get_error_message code message) payload

value_ne_nil : (code : ℕ) (value : Text) → name_of code_map code ≡ some value → value ≢ []
unfolding name_of code_map
value_ne_nil code value e f = ground arith

looked_up : (code : ℕ) (message : Text) → get_error_message code message ≢ []
unfolding get_error_message
looked_up code message e = elim (Bool-cases (text_eq message [])) [
  | inl silent ↦ elim (Option-cases (name_of code_map code)) [
    | inl missing ↦ ground (arith, missing)
    | inr (value, found) ↦ value_ne_nil code value found (ground (arith, found))
  ]
  | inr given ↦ ground (arith, text_eq_iff message [])
]

again : (code : ℕ) (message : Text) → message ≢ [] → get_error_message code message ≡ message
unfolding get_error_message
again code message n = ground (arith, text_eq_iff message [])

-- A reply has a message of its own if its handler gave one, and no reply is without a message; to
-- look the message up a second time changes nothing.
pub get_error_message_lem :
    (code : ℕ) (message : Text)
    → (get_error_message code message ≢ [])
      × (get_error_message code (get_error_message code message) ≡ get_error_message code message)
      × ((get_error_message code message ≡ message) ↔ (message ≢ []))
get_error_message_lem code message = (
  looked_up code message,
  again code (get_error_message code message) (looked_up code message),
  (λ e f. looked_up code message (e ∙ f), again code message),
)
