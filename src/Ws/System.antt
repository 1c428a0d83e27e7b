-- ===== src/Ws/System.antt =====
-- The websocket server as a whole: what its goroutines do, one event after another. `Read`, `Write`
-- and `wsPage` run for each client, the loop `start` for the manager, and AuthController enters a
-- user on a client.
pub mod Identity
pub mod Sound
pub mod Handlers
pub mod Invariant
pub mod Loops
pub mod Goroutines
pub mod Directory
use microservices_trading_bo.Common.{ℕ, Text, List, [], ◌∷◌, ltb, if◌then◌else◌}
use microservices_trading_bo.Ws.Channel.{Run, done, blocked, panicked, ◌>>=◌, send}
use microservices_trading_bo.Ws.Client.{Client, Login, Message, login, is_login, read_end, write}
use microservices_trading_bo.Ws.Manager.{Manager, store, clear_timeout_connections}
use microservices_trading_bo.Ws.Manager.Events.{Case, start_round, ws_page}

-- The end of AuthController, once the user is validated: a client that is logged in is left as it
-- is; any other is logged in and announced to the manager.
unfoldable pub auth_login : Manager → ℕ → ℕ → Text → ℕ → Run Manager
auth_login m p app_id user_id now = if is_login (m.heap p) then done m else (do
  queue ← send m.login_queue (record { app_id = app_id; user_id = user_id; client = p })
  done (record (store m p (login (m.heap p) app_id user_id now)) { login_queue = queue }))

-- What can happen next; a pointer names a client that `wsPage` made, or nothing happens.
-- The code that asked for the end of a client and for a broadcast is not in the repository; both stand
-- here as the queues' loop handles them.
pub data Event : Type 0 where
  connects : Text → ℕ → Event
  logs_in : ℕ → ℕ → Text → ℕ → Event
  read_ends writes asks_unregister : ℕ → Event
  asks_broadcast : Message → Event
  rounds : Case → Event
  clears : ℕ → Event

unfoldable pub step : Manager → Event → Run Manager
step m (connects addr now) = ws_page m addr now
step m (logs_in p app_id user_id now) =
    if ltb p m.next then auth_login m p app_id user_id now else done m
step m (read_ends p) =
    if ltb p m.next then (do c ← read_end (m.heap p); done (store m p c)) else done m
step m (writes p) = if ltb p m.next then done (store m p (write (m.heap p)).1) else done m
step m (asks_unregister p) =
    if ltb p m.next
    then (do queue ← send m.unregister_queue p; done (record m { unregister_queue = queue }))
    else done m
step m (asks_broadcast msg) = do
  queue ← send m.broadcast_queue msg
  done (record m { broadcast_queue = queue })
step m (rounds c) = start_round m c
step m (clears now) = done (clear_timeout_connections m now)

-- A run: every event is handled, and none blocks or panics.
unfoldable pub run : Manager → List Event → Run Manager
run m [] = done m
run m (e ∷ es) = step m e >>= λ m'. run m' es
