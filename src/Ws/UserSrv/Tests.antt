-- ===== src/Ws/UserSrv/Tests.antt =====
-- Messages to one user, at concrete inputs.
use microservices_trading_bo.Common.{◌≡◌, refl, codes, true, false, [], ◌∷◌, none, arith, contains}
use microservices_trading_bo.Ws.Channel.{done, make}
use microservices_trading_bo.Ws.Client.{Client, Login}
use microservices_trading_bo.Ws.Manager.{Manager, in_client, add_users}
use microservices_trading_bo.Ws.Manager.Events.{event_login}
use microservices_trading_bo.Ws.UserSrv.{send_user_message}
use microservices_trading_bo.Ws.UserSrv.Laws.{messaged, send_user_message-event_login}

abbrev newcomer : Client
newcomer = record {
  addr = codes "10.0.0.3:5";
  socket_closed = false;
  queue = make 1;
  app_id = 102;
  user_id = codes "eva";
  first_time = 1;
  heartbeat_time = 2;
  login_time = 2;
}

abbrev small : Manager
small = record {
  heap = λ _. newcomer;
  next = 1;
  clients = 0 ∷ [];
  users = [];
  register_queue = make 1000;
  login_queue = make 1000;
  unregister_queue = make 1000;
  broadcast_queue = make 1000;
}

abbrev eva : Login
eva = record { app_id = 102; user_id = codes "eva"; client = 0 }

send_user_message-event_login_example :
    send_user_message (event_login small eva) 102 (codes "eva") (codes "hi")
    ≡ done (messaged (event_login small eva) 0 (codes "hi"), (true, none))
unfolding in_client contains event_login add_users
send_user_message-event_login_example =
    send_user_message-event_login small eva (codes "hi") refl (λ o. omega arith)
