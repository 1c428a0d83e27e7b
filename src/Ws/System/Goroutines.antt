-- ===== src/Ws/System/Goroutines.antt =====
-- The websocket server with all its goroutines: data_server/ws/websocket/init_acc.go starts a loop of the
-- manager for each connection, and a handler takes a lock for each method that it calls, so that the
-- goroutines go on by turns, one call at a time.
pub mod Known
pub mod Beside
pub mod Serves
mod Tests
use microservices_trading_bo.Common.{
  ℕ, zero, suc, Bool, true, false, Text, List, [], ◌∷◌, ◌++◌, ltb, if◌then◌else◌, ◌&&◌, not,
}
use microservices_trading_bo.Ws.Channel.{
  Run, done, blocked, panicked, ◌>>=◌, item, ended, waiting, receive,
}
use microservices_trading_bo.Ws.Client.{Login, Message, login, is_login}
use microservices_trading_bo.Ws.Manager.{Manager, store, new_client_manager}
use microservices_trading_bo.Ws.Manager.Events.{Case}
use microservices_trading_bo.Ws.System
use microservices_trading_bo.Ws.System.Loops.{
  Stage, register_begins, login_begins, unregister_begins, broadcast_begins, announces, finished,
  over, advance,
}

pub record Server : Type 0 where
  pub manager : Manager
  pub goroutines : List Stage

abbrev pub new_server : Server
new_server = record { manager = new_client_manager; goroutines = [] }

-- What can happen next. The first five are as in Ws/System.antt. A login of AuthController is one of
-- the client itself, which its own reader makes, and then one of the manager's queue.
pub data Act : Type 0 where
  connects : Text → ℕ → Act
  read_ends writes asks_unregister : ℕ → Act
  asks_broadcast : Message → Act
  clears : ℕ → Act
  logs_in : ℕ → ℕ → Text → ℕ → Act
  takes : ℕ → Case → Act
  goes_on : ℕ → Act

-- The goroutine with a number, and that goroutine changed.
unfoldable pub goroutine : List Stage → ℕ → Stage
goroutine [] i = over
goroutine (s ∷ ss) zero = s
goroutine (s ∷ ss) (suc i) = goroutine ss i

unfoldable pub put_goroutine : List Stage → ℕ → Stage → List Stage
put_goroutine [] i t = []
put_goroutine (s ∷ ss) zero t = t ∷ ss
put_goroutine (s ∷ ss) (suc i) t = s ∷ put_goroutine ss i t

-- A loop that waits takes an event from one of the queues, which are never closed.
unfoldable pub take : Manager → Case → Run (Manager × Stage)
unfolding receive
take m Case.registers = elim (receive m.register_queue) [
  | item p queue ↦ done (record m { register_queue = queue }, register_begins p)
  | ended ↦ panicked
  | waiting ↦ blocked
]
take m Case.logs_in = elim (receive m.login_queue) [
  | item l queue ↦ done (record m { login_queue = queue }, login_begins l)
  | ended ↦ panicked
  | waiting ↦ blocked
]
take m Case.unregisters = elim (receive m.unregister_queue) [
  | item p queue ↦ done (record m { unregister_queue = queue }, unregister_begins p)
  | ended ↦ panicked
  | waiting ↦ blocked
]
take m Case.broadcasts = elim (receive m.broadcast_queue) [
  | item msg queue ↦ done (record m { broadcast_queue = queue }, broadcast_begins msg)
  | ended ↦ done (m, broadcast_begins [])
  | waiting ↦ blocked
]

abbrev is_waiting : Stage → Bool
is_waiting finished = true
is_waiting _ = false

-- An event of Ws/System.antt, beside the goroutines.
beside : Server → System.Event → Run Server
unfolding System.step
beside s e = do m ← System.step s.manager e; done (record s { manager = m })

-- What goroutine `i` becomes.
moved : Server → ℕ → Manager × Stage → Server
unfolding put_goroutine
moved s i r = record { manager = r.0; goroutines = put_goroutine s.goroutines i r.1 }

-- The reader of client `p`, in AuthController: the test, and `client.Login`.
begin_login : Server → ℕ → ℕ → Text → ℕ → Server
begin_login s p app_id user_id now =
    let m = s.manager in
    if is_login (m.heap p) then s else record {
      manager = store m p (login (m.heap p) app_id user_id now);
      goroutines =
          s.goroutines
          ++ announces (record { app_id = app_id; user_id = user_id; client = p }) ∷ [];
    }

-- `StartWebSocket` starts a loop once the connection is there.
unfoldable pub serve_act : Server → Act → Run Server
unfolding beside take moved begin_login goroutine advance
serve_act s (connects addr now) = do
  s' ← beside s (System.Event.connects addr now)
  done (record s' { goroutines = s'.goroutines ++ finished ∷ [] })
serve_act s (read_ends p) = beside s (System.Event.read_ends p)
serve_act s (writes p) = beside s (System.Event.writes p)
serve_act s (asks_unregister p) = beside s (System.Event.asks_unregister p)
serve_act s (asks_broadcast msg) = beside s (System.Event.asks_broadcast msg)
serve_act s (clears now) = beside s (System.Event.clears now)
serve_act s (logs_in p app_id user_id now) =
    if ltb p s.manager.next then done (begin_login s p app_id user_id now) else done s
serve_act s (takes i c) =
    if is_waiting (goroutine s.goroutines i)
    then (take s.manager c >>= λ r. done (moved s i r))
    else done s
serve_act s (goes_on i) = do r ← advance s.manager (goroutine s.goroutines i); done (moved s i r)

-- A run: no goroutine is picked that would wait, and none panics.
unfoldable pub serve : Server → List Act → Run Server
serve s [] = done s
serve s (a ∷ acts) = serve_act s a >>= λ s'. serve s' acts
