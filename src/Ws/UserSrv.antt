-- ===== src/Ws/UserSrv.antt =====
-- data_server/ws/websocket/user_srv.go and init_acc.go: the platforms, who is online, and messages to
-- one user. The text of a message is built by package models, and is an argument.
pub mod Laws
mod Tests
use microservices_trading_bo.Common.{
  ℕ, Text, codes, Bool, true, false, List, [], ◌∷◌, Option, none, some, ◌==◌, if◌then◌else◌,
}
use microservices_trading_bo.Ws.Channel.{Run, done, ◌>>=◌}
use microservices_trading_bo.Ws.Client.{Message}
use microservices_trading_bo.Ws.Manager.{Manager, get_user_client, get_user_list, send_to}

abbrev pub default_app_id : ℕ
default_app_id = 101

abbrev pub app_ids : List ℕ
app_ids = default_app_id ∷ 102 ∷ 103 ∷ 104 ∷ []

abbrev pub get_app_ids : List ℕ
get_app_ids = app_ids

-- The loop of `InAppIds`.
in_from : ℕ → List ℕ → Bool
in_from app_id [] = false
in_from app_id (value ∷ values) =
    let rest = in_from app_id values in if value == app_id then true else rest

unfoldable pub in_app_ids : ℕ → Bool
unfolding in_from
in_app_ids app_id = in_from app_id app_ids

abbrev pub get_default_app_id : ℕ
get_default_app_id = default_app_id

-- `GetUserList` and `GetUserClient` of client_manager.go ask the server's manager.
unfoldable pub user_client : Manager → ℕ → Text → Option ℕ
unfolding get_user_client
user_client m app_id user_id = get_user_client m app_id user_id

unfoldable pub users_of : Manager → ℕ → List Text
unfolding get_user_list
users_of m app_id = get_user_list m app_id

-- `UserList`: no server is asked.
unfoldable pub user_list : ℕ → List Text
user_list app_id = []

abbrev pub offline : Text
offline = codes "用户不在线"

-- `checkUserOnline`: the zero values, and no error.
unfoldable pub is_user_online : ℕ → Text → Bool × Option Text
is_user_online app_id user_id = (false, none)

-- The loop of `CheckUserOnline` over the platforms.
online_on : Text → List ℕ → Bool → Bool
online_on user_id [] online = online
online_on user_id (app_id ∷ app_ids) online =
    let here = (is_user_online app_id user_id).0 in
    let rest = online_on user_id app_ids here in if here then here else rest

unfoldable pub check_user_online : ℕ → Text → Bool
unfolding online_on is_user_online
check_user_online app_id user_id =
    if app_id == 0 then online_on user_id get_app_ids false else (is_user_online app_id user_id).0

-- What a sending function returns, and the manager then.
abbrev pub SendResults : Type 0
SendResults = Manager × (Bool × Option Text)

unfoldable pub send_user_message_local : Manager → ℕ → Text → Message → Run SendResults
unfolding user_client send_to
send_user_message_local m app_id user_id message = elim (user_client m app_id user_id) [
  | none ↦ done (m, (false, some offline))
  | some p ↦ (do heap ← send_to m.heap p message; done (record m { heap = heap }, (true, none)))
]

unfoldable pub send_user_message : Manager → ℕ → Text → Message → Run SendResults
unfolding user_client send_user_message_local
send_user_message m app_id user_id message = elim (user_client m app_id user_id) [
  | some p ↦ send_user_message_local m app_id user_id message
  | none ↦ done (m, (true, none))
]

unfoldable pub send_user_message_all : Manager → SendResults
send_user_message_all m = (m, (true, none))
