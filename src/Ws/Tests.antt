-- ===== src/Ws/Tests.antt =====
-- Runs of the websocket server, and its theorems at concrete inputs.
use microservices_trading_bo.Common.{
  ◌⊎◌, ℕ, ◌≡◌, ◌≢◌, refl, ◌↔◌, Text, codes, text_eq, true, false, List, [], ◌∷◌, none, some, arith,
  ◌==◌, if◌then◌else◌, lookup, insert, contains, add, show_nat,
}
use microservices_trading_bo.Ws.Channel.{done, panicked, ◌>>=◌, make, send, receive}
use microservices_trading_bo.Ws.Key.{get_user_key}
use microservices_trading_bo.Ws.Client.{
  Login, Client, client_key, login_key, new_client, login, is_login, enqueue, close_client,
  read_end, write,
}
use microservices_trading_bo.Ws.Client.Fifo.{send_msgs, shut, write_all_sent}
use microservices_trading_bo.Ws.Manager.{
  Manager, new_client_manager, in_client, add_clients, add_users, get_user_client, get_user_clients,
  del_clients, del_users, send_all, clear_timeout_connections,
}
use microservices_trading_bo.Ws.Manager.Events.{
  Case, greeting, event_register, event_login, event_unregister, event_broadcast, broadcast_each,
  start_round, ws_page,
}
use microservices_trading_bo.Ws.Manager.Users.{
  get_user_client-event_login, unregister_current, unregister_displaced,
}
use microservices_trading_bo.Ws.Manager.Broadcast.{
  reached, event_broadcast_reaches, event_broadcast_twice,
}
use microservices_trading_bo.Ws.Manager.Delivery.{copies, delivered, is_wanted, send_all_delivers}
use microservices_trading_bo.Ws.Manager.Timeouts.{IsStale, clear_timeout_connections-closes_iff}
use microservices_trading_bo.Ws.System.{Event, auth_login, step, run}
use microservices_trading_bo.Ws.System.Directory.{
  Job, logs_in, broadcasts, unregisters, clears, view, work, work_all, note_all,
}
use microservices_trading_bo.Ws.System.Directory.Returns.{
  IsReady, work-IsReady_iff, work_all-refines_note_all,
}
use microservices_trading_bo.Ws.System.Loops.{
  login_begins, unregister_begins, finished, interleave, login-lost,
}

-- A client connects and logs in, and both are handled.
abbrev history : List Event
history =
    Event.connects (codes "10.0.0.1:9") 3
    ∷ Event.rounds Case.registers
    ∷ Event.logs_in 0 101 (codes "ana") 5
    ∷ Event.rounds Case.logs_in
    ∷ []

after_history : Manager
after_history = elim (run new_client_manager history) [ done m ↦ m | _ ↦ new_client_manager ]

history_done : run new_client_manager history ≡ done after_history
unfolding after_history run step ws_page new_client send start_round event_register add_clients add
    contains enqueue receive auth_login is_login login text_eq event_login in_client add_users
    insert new_client_manager
history_done = refl

ana_is_entered : get_user_client after_history 101 (codes "ana") ≡ some 0
unfolding after_history run step ws_page new_client send start_round event_register add_clients add
    contains enqueue receive auth_login is_login login text_eq event_login in_client add_users
    insert new_client_manager get_user_client get_user_key login_key show_nat lookup
ana_is_entered = refl

-- Ana is connected on client 0 and entered as a user, and client 1 is connected.
abbrev ana : Client
ana = record {
  addr = codes "10.0.0.1:9";
  socket_closed = false;
  queue = record { buffer = greeting ∷ []; capacity = 100; closed = false };
  app_id = 101;
  user_id = codes "ana";
  first_time = 3;
  heartbeat_time = 5;
  login_time = 5;
}

abbrev stranger : Client
stranger = record {
  addr = codes "10.0.0.2:7";
  socket_closed = false;
  queue = record { buffer = greeting ∷ []; capacity = 1; closed = false };
  app_id = 0;
  user_id = [];
  first_time = 4;
  heartbeat_time = 4;
  login_time = 0;
}

abbrev online : Manager
online = record {
  heap = λ p. if p == 0 then ana else stranger;
  next = 2;
  clients = 0 ∷ 1 ∷ [];
  users = (codes "101_ana", 0) ∷ [];
  register_queue = make 1000;
  login_queue = make 1000;
  unregister_queue = make 1000;
  broadcast_queue = make 1000;
}

get_user_client-event_login_example :
    get_user_client
      (event_login online (record { app_id = 102; user_id = codes "bo"; client = 1 }))
      102
      (codes "bo")
    ≡ some 1
unfolding in_client contains text_eq
get_user_client-event_login_example =
    get_user_client-event_login online (record { app_id = 102; user_id = codes "bo"; client = 1 })
      102 (codes "bo")

unregister_current_example :
    (m' : Manager) × (event_unregister online 0 ≡ done m')
    × (in_client m' 0 ≡ false)
    × ((m'.heap 0).queue.closed ≡ true)
    × ((k : Text)
        → lookup k m'.users ≡ (if text_eq (client_key ana) k then none else lookup k online.users))
    × ((q : ℕ) → 0 ≢ q → m'.heap q ≡ online.heap q)
unfolding client_key get_user_key show_nat lookup text_eq
unregister_current_example = unregister_current online 0 refl refl

all_open : (q : ℕ) → in_client online q ≡ true → (online.heap q).queue.closed ≡ false
all_open q c = ground arith

event_broadcast_reaches_example :
    (m' : Manager) × (event_broadcast online (codes "hi") ≡ done m')
    × ((q : ℕ)
        → m'.heap q
          ≡ (if in_client online q then reached (online.heap q) (codes "hi") else online.heap q))
    × (m'.clients ≡ online.clients)
    × (m'.users ≡ online.users)
event_broadcast_reaches_example = event_broadcast_reaches online (codes "hi") all_open

abbrev half_closed : Manager
half_closed = record online { heap = λ p. shut ana }

event_broadcast_twice_example :
    (m' : Manager) × (event_broadcast online (codes "hi") ≡ done m')
    × (event_broadcast m' (codes "ho") ≡ panicked)
unfolding in_client contains
event_broadcast_twice_example =
    event_broadcast_twice online (codes "hi") (codes "ho") 1 all_open refl (omega arith)

send_all_delivers_example :
    (m' : Manager) × (send_all online (codes "hi") none ≡ done m')
    × ((q : ℕ)
        → m'.heap q
          ≡ delivered
              (online.heap q)
              (copies (codes "hi") (is_wanted none) q (get_user_clients online)))
    × (m'.clients ≡ online.clients)
    × (m'.users ≡ online.users)
unfolding copies get_user_clients
send_all_delivers_example = send_all_delivers online (codes "hi") none (λ q o. ground arith)

clear_timeout_connections-closes_iff_example :
    (((clear_timeout_connections online 365).heap 0).socket_closed ≡ true ↔ (
      (ana.socket_closed ≡ true) ⊎ ((in_client online 0 ≡ true) × IsStale 365 ana.heartbeat_time)))
    × ((clear_timeout_connections online 365).heap 0 ≡ record ana {
      socket_closed = ((clear_timeout_connections online 365).heap 0).socket_closed;
    })
clear_timeout_connections-closes_iff_example =
    clear_timeout_connections-closes_iff online 365 0 (omega arith)

write_all_sent_example :
    (c' : Client) × ((send_msgs ana (codes "a" ∷ codes "b" ∷ []) >>= λ sent. elim sent [
      | none ↦ done ana
      | some d ↦ read_end d
    ])
      ≡ done c')
    × (send_msgs c' (codes "c" ∷ []) ≡ done (some c'))
    × ((write c').0 ≡ greeting ∷ codes "a" ∷ codes "b" ∷ [])
    × ((write c').1.queue.buffer ≡ [])
write_all_sent_example =
    write_all_sent ana (codes "a" ∷ codes "b" ∷ []) (codes "c" ∷ []) refl (omega arith)

abbrev entering : Login
entering = record { app_id = 102; user_id = codes "bo"; client = 1 }

login-lost_example :
    (m' : Manager) × (interleave
        (true ∷ false ∷ false ∷ false ∷ true ∷ [])
        online
        (login_begins entering)
        (unregister_begins 1)
      ≡ done (m', (finished, finished)))
    × (lookup (login_key entering) m'.users ≡ some 1)
    × (in_client m' 1 ≡ false)
    × (event_login (del_clients online 1) entering ≡ del_clients online 1)
unfolding in_client contains client_key get_user_key show_nat lookup text_eq
login-lost_example =
    login-lost online (del_clients online 1) entering refl
      (unregister_displaced online 1 (λ q e. cc))

-- Ana's client is taken out after a broadcast that fills the queue of the other client's.
abbrev evening : List Job
evening = logs_in entering ∷ broadcasts (codes "hi") ∷ unregisters 0 ∷ clears 9 ∷ []

work_all-refines_note_all_example :
    (m' : Manager) × (work_all online evening ≡ done m')
    × (view m' ≡ note_all online.heap (view online) evening)
unfolding work event_unregister del_users del_clients client_key get_user_key show_nat lookup
    text_eq contains in_client event_login event_broadcast close_client broadcast_each add_users add
    insert login_key
work_all-refines_note_all_example =
    work_all-refines_note_all online evening (tt, (λ q c. ground arith, (λ q e n. refl, (tt, tt))))

work-IsReady_iff_example :
    ((m' : Manager) × (work online (broadcasts (codes "hi")) ≡ done m'))
    ↔ IsReady online (broadcasts (codes "hi"))
work-IsReady_iff_example = work-IsReady_iff online (broadcasts (codes "hi"))
