-- ===== src/Ws/Manager/Events.antt =====
-- data_server/ws/websocket/client_manager.go: the events that the manager's loop handles, and
-- init_acc.go: a new connection. Each handler is one step; `SendUserMessageAll`, which the
-- handlers of a login and of a logout call last, changes no state.
use microservices_trading_bo.Common.{ℕ, suc, Text, codes, List, [], ◌∷◌, none, some, if◌then◌else◌}
use microservices_trading_bo.Ws.Channel.{
  Run, done, blocked, panicked, ◌>>=◌, offer, send, item, ended, waiting, receive,
}
use microservices_trading_bo.Ws.Client.{
  Client, Login, Message, login_key, new_client, enqueue, close_client,
}
use microservices_trading_bo.Ws.Manager.{
  Manager, write_heap, store, in_client, get_clients, add_clients, del_clients, add_users,
  del_users,
}

abbrev pub greeting : Message
greeting = codes "{\"data\":\"connection succeeded\"}"

unfoldable pub event_register : Manager → ℕ → Run Manager
event_register m p = do
  let added = add_clients m p
  c ← enqueue (added.heap p) greeting
  done (store added p c)

-- Only a client that is still connected is entered.
unfoldable pub event_login : Manager → Login → Manager
event_login m l = if in_client m l.client then add_users m (login_key l) l.client else m

unfoldable pub event_unregister : Manager → ℕ → Run Manager
event_unregister m p =
    let (m', deleted) = del_users (del_clients m p) p in
    if deleted then (do c ← close_client (m'.heap p); done (store m' p c)) else done m'

-- One client of a broadcast: a queue that is full is closed instead.
unfoldable pub broadcast_to : (ℕ → Client) → ℕ → Message → Run (ℕ → Client)
unfolding offer close_client
broadcast_to heap p msg = do
  sent ← offer (heap p).queue msg
  elim sent [
    | none ↦ (do c ← close_client (heap p); done (write_heap heap p c))
    | some queue ↦ done (write_heap heap p (record (heap p) { queue = queue }))
  ]

unfoldable pub broadcast_each : Message → List ℕ → (ℕ → Client) → Run (ℕ → Client)
unfolding broadcast_to
broadcast_each msg [] heap = done heap
broadcast_each msg (p ∷ ps) heap = broadcast_to heap p msg >>= broadcast_each msg ps

unfoldable pub event_broadcast : Manager → Message → Run Manager
event_broadcast m msg = do
  heap ← broadcast_each msg (get_clients m) m.heap
  done (record m { heap = heap })

-- The case that a round of `start` takes.
pub data Case : Type 0 where
  registers logs_in unregisters broadcasts : Case

-- A round of the loop in `start`. The queues are never closed; a closed one would hand out nil, on
-- which all handlers but the last panic.
unfoldable pub start_round : Manager → Case → Run Manager
start_round m registers = elim (receive m.register_queue) [
  | item p queue ↦ event_register (record m { register_queue = queue }) p
  | ended ↦ panicked
  | waiting ↦ blocked
]
start_round m logs_in = elim (receive m.login_queue) [
  | item l queue ↦ done (event_login (record m { login_queue = queue }) l)
  | ended ↦ panicked
  | waiting ↦ blocked
]
start_round m unregisters = elim (receive m.unregister_queue) [
  | item p queue ↦ event_unregister (record m { unregister_queue = queue }) p
  | ended ↦ panicked
  | waiting ↦ blocked
]
start_round m broadcasts = elim (receive m.broadcast_queue) [
  | item msg queue ↦ event_broadcast (record m { broadcast_queue = queue }) msg
  | ended ↦ event_broadcast m []
  | waiting ↦ blocked
]

-- `wsPage`, once the connection is upgraded: a client for it, announced to the manager. The peer's
-- address and the time are arguments.
unfoldable pub ws_page : Manager → Text → ℕ → Run Manager
unfolding send new_client
ws_page m addr now = do
  queue ← send m.register_queue m.next
  done (record m {
    heap = write_heap m.heap m.next (new_client addr now);
    next = suc m.next;
    register_queue = queue;
  })
