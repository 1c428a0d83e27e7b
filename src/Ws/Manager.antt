-- ===== src/Ws/Manager.antt =====
-- data_server/ws/websocket/client_manager.go: the manager, its maps, and the objects that its
-- pointers lead to.
pub mod Events
pub mod Users
pub mod Broadcast
pub mod Delivery
pub mod Timeouts
use microservices_trading_bo.Common.{
  ℕ, suc, ◌≡◌, Text, Bool, true, false, not, ◌&&◌, List, [], ◌∷◌, ◌++◌, map, Option, none, some,
  ◌==◌, if◌then◌else◌, text_eq, length, lookup, insert, delete, contains, add, remove,
}
use microservices_trading_bo.Ws.Channel.{Channel, Run, done, blocked, panicked, ◌>>=◌, make}
use microservices_trading_bo.Ws.Key.{get_user_key}
use microservices_trading_bo.Ws.Client.{
  Client, Login, Message, client_key, new_client, send_msg, is_heartbeat_timeout,
}

-- A client pointer is a number; `heap` gives the object, and those below `next` are allocated.
-- `clients` holds the pointers that the map `Clients` has, each with the value true.
pub record Manager : Type 0 where
  pub heap : ℕ → Client
  pub next : ℕ
  pub clients : List ℕ
  pub users : List (Text × ℕ)
  pub register_queue : Channel ℕ
  pub login_queue : Channel Login
  pub unregister_queue : Channel ℕ
  pub broadcast_queue : Channel Message

unfoldable pub new_client_manager : Manager
unfolding new_client
new_client_manager = record {
  heap = λ _. new_client [] 0;
  next = 0;
  clients = [];
  users = [];
  register_queue = make 1000;
  login_queue = make 1000;
  unregister_queue = make 1000;
  broadcast_queue = make 1000;
}

-- A write through the pointer `p`.
abbrev pub write_heap : (ℕ → Client) → ℕ → Client → ℕ → Client
write_heap heap p c q = if p == q then c else heap q

abbrev pub store : Manager → ℕ → Client → Manager
store m p c = record m { heap = write_heap m.heap p c }

unfoldable pub in_client : Manager → ℕ → Bool
in_client m p = contains p m.clients

-- `ClientsRange`: `f` returns what it has gathered, and whether to go on.
unfoldable pub clients_range {ℓ} : {S : Type ℓ} → (ℕ → S → S × Bool) → List ℕ → S → S
clients_range f [] s = s
clients_range f (p ∷ ps) s =
    let (s', more) = f p s in let rest = clients_range f ps s' in if more then rest else s'

unfoldable pub get_clients : Manager → List ℕ
unfolding clients_range
get_clients m = clients_range (λ p gathered. (add p gathered, true)) m.clients []

unfoldable pub get_clients_len : Manager → ℕ
get_clients_len m = length m.clients

unfoldable pub add_clients : Manager → ℕ → Manager
add_clients m p = record m { clients = add p m.clients }

unfoldable pub del_clients : Manager → ℕ → Manager
del_clients m p = if contains p m.clients then record m { clients = remove p m.clients } else m

unfoldable pub get_user_client : Manager → ℕ → Text → Option ℕ
get_user_client m app_id user_id = lookup (get_user_key app_id user_id) m.users

unfoldable pub get_users_len : Manager → ℕ
get_users_len m = length m.users

unfoldable pub add_users : Manager → Text → ℕ → Manager
add_users m key p = record m { users = insert key p m.users }

-- The user's entry goes only if it leads to a client with the same address.
unfoldable pub del_users : Manager → ℕ → Manager × Bool
unfolding client_key
del_users m p = elim (lookup (client_key (m.heap p)) m.users) [
  | none ↦ (m, false)
  | some q ↦
      if text_eq (m.heap q).addr (m.heap p).addr
      then (record m { users = delete (client_key (m.heap p)) m.users }, true)
      else (m, false)
]

unfoldable pub get_user_keys : Manager → List Text
get_user_keys m = map (λ e. e.0) m.users

user_list_from : Manager → ℕ → List (Text × ℕ) → List Text
user_list_from m app_id [] = []
user_list_from m app_id ((key, p) ∷ es) =
    let rest = user_list_from m app_id es in
    if (m.heap p).app_id == app_id then (m.heap p).user_id ∷ rest else rest

unfoldable pub get_user_list : Manager → ℕ → List Text
unfolding user_list_from
get_user_list m app_id = user_list_from m app_id m.users

unfoldable pub get_user_clients : Manager → List ℕ
get_user_clients m = map (λ e. e.1) m.users

-- A pointer that may be nil compared with one that is not.
abbrev pub is_ignored : Option ℕ → ℕ → Bool
is_ignored none p = false
is_ignored (some q) p = q == p

-- `conn.SendMsg(message)`
unfoldable pub send_to : (ℕ → Client) → ℕ → Message → Run (ℕ → Client)
unfolding send_msg
send_to heap p msg = do
  c ← send_msg (some (heap p)) msg
  elim c [ none ↦ done heap | some c' ↦ done (write_heap heap p c') ]

-- The loop of `sendAll` and of `sendAppIdAll`; `wanted` is the test before a send.
unfoldable pub send_each : (ℕ → Bool) → Message → List ℕ → (ℕ → Client) → Run (ℕ → Client)
unfolding send_to
send_each wanted msg [] heap = done heap
send_each wanted msg (p ∷ ps) heap =
    (if wanted p then send_to heap p msg else done heap) >>= send_each wanted msg ps

unfoldable pub send_all : Manager → Message → Option ℕ → Run Manager
unfolding send_each get_user_clients
send_all m msg ignored = do
  heap ← send_each (λ p. not (is_ignored ignored p)) msg (get_user_clients m) m.heap
  done (record m { heap = heap })

unfoldable pub send_app_id_all : Manager → Message → ℕ → Option ℕ → Run Manager
unfolding send_each get_user_clients
send_app_id_all m msg app_id ignored = do
  heap ←
      send_each (λ p. not (is_ignored ignored p) && ((m.heap p).app_id == app_id)) msg
        (get_user_clients m) m.heap
  done (record m { heap = heap })

unfoldable pub close_timed_out : ℕ → List ℕ → (ℕ → Client) → ℕ → Client
close_timed_out now [] heap = heap
close_timed_out now (p ∷ ps) heap = close_timed_out now ps (
    if is_heartbeat_timeout (heap p) now
    then write_heap heap p (record (heap p) { socket_closed = true })
    else heap)

-- The time is an argument.
unfoldable pub clear_timeout_connections : Manager → ℕ → Manager
unfolding close_timed_out get_clients
clear_timeout_connections m now = record m { heap = close_timed_out now (get_clients m) m.heap }
