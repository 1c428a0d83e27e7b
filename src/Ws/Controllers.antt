-- ===== src/Ws/Controllers.antt =====
-- data_server/ws/websocket/acc_controller.go: the handlers of the commands. The database and package
-- models are not part of the repository: the record `Backend` is what the handlers use of them.
pub mod Rooms
pub mod Profiles
pub mod Quiet
pub mod Laws
mod Tests
use microservices_trading_bo.Common.{
  ℕ, Text, codes, Bool, true, false, List, [], ◌∷◌, Option, none, some, if◌then◌else◌, lookup,
  Outcome, ok, err, panics, ◌++◌,
}
use microservices_trading_bo.Ws.Channel.{Run, done, blocked, panicked}
use microservices_trading_bo.Ws.Client.{Client, Message, login, is_login}
use microservices_trading_bo.Ws.Code
use microservices_trading_bo.Ws.Manager.{Manager, store}
use microservices_trading_bo.Ws.Process.{Response, Disposal, answers, fails, waits, Handler}
use microservices_trading_bo.Ws.System.{auth_login}

-- A field of a JSON object as the handlers tell them apart.
pub data Value : Type 0 where
  text : Text → Value
  flag : Bool → Value
  other : Value

-- What json.Unmarshal makes of a map: it empties the map, or sets fields of it.
pub data Document : Type 0 where
  nothing : Document
  object : List (Text × Value) → Document

-- `models.Login`
pub record LoginRequest : Type 0 where
  pub app_id : ℕ
  pub user_id : Text

-- Each answer is that of the libraries at the time of the call: `decode_login` and `decode_map` are
-- json.Unmarshal, `callback` and `connect` tell whether database.Callback, or database.Connect with
-- database.Close, succeed, `get_user` and `user_validation` are those of package controllers, the
-- next fields are methods of the repositories with the data that a handler builds of their results,
-- and the last ones build other data of a reply.
pub record Backend (Reply : Type 0) : Type 1 where
  pub User : Type 0
  pub decode_login : Message → Option LoginRequest
  pub decode_map : Message → Option Document
  pub callback : Bool
  pub connect : Bool
  pub get_user : Text → Option User
  pub user_validation : LoginRequest → User → Bool
  pub get_user_with_followings : Text → Text → Bool → Option Reply
  pub update_follow_state : Text → Text → Bool → Option Reply
  pub find_publication_by_id : Document → Outcome Text Reply
  pub get_initial_publication_list : Document → Outcome Text Reply
  pub nil_data : Reply
  pub text_data : Text → Reply
  pub login_data : LoginRequest → User → ℕ → Reply
  pub error_data : Text → Reply

abbrev error_on_controller : Text
error_on_controller = codes "error_on_controller"

abbrev fetch_done : Text
fetch_done = codes "fetch_done"

-- The value of a key, given what the map held before the message was decoded onto it.
unfoldable pub field : Text → List (Text × Value) → Document → Option Value
unfolding lookup
field key defaults nothing = none
field key defaults (object fields) = elim (lookup key fields) [
  | some v ↦ some v
  | none ↦ lookup key defaults
]

-- The type assertions: none is a panic.
abbrev pub as_text : Option Value → Option Text
as_text (some (text s)) = some s
as_text _ = none

abbrev pub as_flag : Option Value → Option Bool
as_flag (some (flag b)) = some b
as_flag _ = none

module _ {Reply : Type 0} (backend : Backend Reply) where
  open backend use {nil_data, text_data}

  reply : ℕ → Text → Reply → Bool → Response Reply
  reply code cmd payload voice = record {
    code = code;
    msg = [];
    cmd = cmd;
    payload = payload;
    voice = voice;
  }

  unfoldable pub ping_controller : Handler Reply
  unfolding reply
  ping_controller m p seq icmd message =
      answers m (reply Code.ok icmd (text_data (codes "pong")) false)

  -- The end of AuthController, once the user is validated.
  log_in : ℕ → Manager → ℕ → LoginRequest → backend.User → Disposal Reply
  unfolding auth_login login reply
  log_in now m p req user = elim (auth_login m p req.app_id req.user_id now) [
    | done m' ↦
        answers m' (reply Code.ok (codes "auth-good") (backend.login_data req user now) false)
    | blocked ↦ waits
    | panicked ↦ fails (store m p (login (m.heap p) req.app_id req.user_id now))
  ]

  unfoldable pub auth_controller : ℕ → Handler Reply
  unfolding log_in reply is_login
  auth_controller now m p seq icmd message = elim (backend.decode_login message) [
    | none ↦
        answers m
          (reply Code.parameter_illegal error_on_controller (text_data (codes "error")) false)
    | some req ↦
        if backend.callback
        then (elim (backend.get_user req.user_id) [
          | none ↦ answers m (
              reply Code.unauthorized_user_id error_on_controller (text_data (codes "error")) false)
          | some user ↦
              if backend.user_validation req user
              then (if is_login (m.heap p)
                  then answers m (
                      reply Code.operation_failure (codes "auth-good") (text_data (codes "error"))
                        false)
                  else log_in now m p req user)
              else answers m (
                  reply Code.unauthorized_user_id (codes "auth-good")
                    (text_data (codes "error !controllers.UserValidation")) false)
        ])
        else answers m
            (reply Code.server_error error_on_controller (text_data (codes "error")) false)
  ]

  -- The handlers that only print, from UserUpdate2Controller on: every result has its zero value.
  unfoldable pub empty_controller : Handler Reply
  unfolding reply
  empty_controller m p seq icmd message = answers m (reply 0 [] nil_data false)

  -- A handler's answer once a repository has answered: an error is reported under one code.
  followed : Manager → Option Reply → Disposal Reply
  unfolding reply
  followed m none =
      answers m
        (reply Code.unauthorized_user_id error_on_controller (text_data (codes "error")) false)
  followed m (some users) = answers m (reply Code.ok fetch_done users false)

  abbrev follow_list_defaults : List (Text × Value)
  follow_list_defaults =
      (codes "cursor", other) ∷ (codes "isFollowing", text []) ∷ (codes "username", text []) ∷ []

  unfoldable pub get_follow_list_controller : Handler Reply
  unfolding followed reply field
  get_follow_list_controller m p seq icmd message = elim (backend.decode_map message) [
    | none ↦
        answers m
          (reply Code.parameter_illegal error_on_controller (text_data (codes "error")) false)
    | some request ↦
        if backend.connect
        then (elim (as_text (field (codes "username") follow_list_defaults request)) [
          | none ↦ fails m
          | some username ↦
              elim (as_flag (field (codes "isFollowing") follow_list_defaults request)) [
                | none ↦ fails m
                | some is_following ↦
                    followed m
                      (backend.get_user_with_followings (codes "username") username is_following)
              ]
        ])
        else answers m (reply Code.server_error fetch_done nil_data false)
  ]

  unfoldable pub get_my_followings_controller : Handler Reply
  unfolding followed reply
  get_my_followings_controller m p seq icmd message = elim (backend.decode_map message) [
    | none ↦
        answers m
          (reply Code.parameter_illegal error_on_controller (text_data (codes "error")) false)
    | some request ↦
        if backend.connect
        then followed m
            (backend.get_user_with_followings (codes "user_id") (m.heap p).user_id false)
        else answers m (reply Code.server_error fetch_done nil_data false)
  ]

  abbrev follow_defaults : List (Text × Value)
  follow_defaults = (codes "userId", text []) ∷ (codes "value", flag false) ∷ []

  unfoldable pub follow_controller : Handler Reply
  unfolding followed reply field
  follow_controller m p seq icmd message = elim (backend.decode_map message) [
    | none ↦
        answers m
          (reply Code.parameter_illegal error_on_controller (text_data (codes "error")) false)
    | some request ↦
        if backend.connect
        then (elim (as_text (field (codes "userId") follow_defaults request)) [
          | none ↦ fails m
          | some user_id ↦ elim (as_flag (field (codes "value") follow_defaults request)) [
            | none ↦ fails m
            | some follow ↦
                followed m (backend.update_follow_state (m.heap p).user_id user_id follow)
          ]
        ])
        else answers m (reply Code.server_error fetch_done nil_data false)
  ]

  unfoldable pub get_mk_publication_controller : Handler Reply
  unfolding reply
  get_mk_publication_controller m p seq icmd message = elim (backend.decode_map message) [
    | none ↦ answers m (reply Code.parameter_illegal fetch_done nil_data true)
    | some request ↦
        if backend.connect
        then (elim (backend.find_publication_by_id request) [
          | ok publication ↦ answers m (reply Code.ok fetch_done publication true)
          | err e ↦ answers m (reply Code.server_error fetch_done (backend.error_data e) true)
          | panics ↦ fails m
        ])
        else answers m (reply Code.server_error fetch_done nil_data true)
  ]

  unfoldable pub get_mk_list_publication_controller : Handler Reply
  unfolding reply
  get_mk_list_publication_controller m p seq icmd message = elim (backend.decode_map message) [
    | none ↦ answers m (reply Code.parameter_illegal fetch_done nil_data true)
    | some request ↦
        if backend.connect
        then (elim (backend.get_initial_publication_list request) [
          | ok publications ↦ answers m (reply Code.ok fetch_done publications true)
          | err e ↦ answers m (reply Code.server_error fetch_done nil_data true)
          | panics ↦ fails m
        ])
        else answers m (reply Code.server_error fetch_done nil_data true)
  ]
