-- ===== src/Ws/Controllers/Laws/EndToEnd.antt =====
-- A login from its message to the map of users: data_server/ws/websocket/acc_process.go, acc_controller.go
-- and client_manager.go together.
use microservices_trading_bo.Common.{
  ℕ, ◌<◌, ◌≡◌, refl, ◌∙◌, Text, codes, text_eq_refl, ==_iff, true, false, List, [], ◌∷◌, some,
  arith,
}
use microservices_trading_bo.Ws.Channel.{done, receive}
use microservices_trading_bo.Ws.Client.{Login, Message, login}
use microservices_trading_bo.Ws.Code
use microservices_trading_bo.Ws.ErrorCode.{get_error_message}
use microservices_trading_bo.Ws.Manager.{Manager, in_client, get_user_client, add_users}
use microservices_trading_bo.Ws.Manager.Delivery.{delivered, HasRoom}
use microservices_trading_bo.Ws.Manager.Events.{Case, event_login, start_round}
use microservices_trading_bo.Ws.Manager.Users.{get_user_client-event_login}
use microservices_trading_bo.Ws.Process.{
  Wire, Request, Handlers, answers, get_handlers, process_data,
}
use microservices_trading_bo.Ws.Process.Laws.{Sent, process_data_answers}
use microservices_trading_bo.Ws.Controllers.{Backend, auth_controller}
use microservices_trading_bo.Ws.Controllers.Laws.{
  IsAdmitted, entry, entered, greeted, admitted, auth_login-entered, log_in-entered,
}

module _ (wire : Wire) (backend : Backend wire.Reply) (m : Manager) (p now : ℕ) (seq icmd : Text)
    (request_data : Message) (a : IsAdmitted backend m p request_data) where
  announced : Login
  unfolding entry
  announced = entry backend m p now seq icmd request_data a

  -- What AuthController leaves.
  left : Manager
  unfolding entered announced
  left = entered backend m p now seq icmd request_data a (announced ∷ [])

  -- The manager takes the login from its queue.
  taken : Manager → Manager
  taken m1 = record m1 { login_queue = record m1.login_queue { buffer = [] } }

  module _ (head : Message) (m1 : Manager) (law : Sent left p (head ∷ []) m1) where
    round-taken : start_round m1 Case.logs_in ≡ done (event_login (taken m1) announced)
    unfolding start_round receive left taken
    round-taken = ground (arith, law.login_queue)

    user-taken :
        in_client m p ≡ true
        → get_user_client (event_login (taken m1) announced) a.0.app_id a.0.user_id ≡ some p
    unfolding announced in_client taken left
    user-taken here =
        get_user_client-event_login (taken m1) announced a.0.app_id a.0.user_id
        ∙ ground (arith, here, law.clients, text_eq_refl a.0.user_id)

    client-taken :
        (event_login (taken m1) announced).heap p
        ≡ delivered (login (m.heap p) a.0.app_id a.0.user_id now) (head ∷ [])
    unfolding event_login add_users taken left
    client-taken = ground (arith, law.heap p)

  answered :
      m.login_queue.closed ≡ false
      → m.login_queue.buffer ≡ []
      → 0 < m.login_queue.capacity
      → auth_controller backend now m p seq icmd request_data
        ≡ answers left (greeted backend m p now seq icmd request_data a)
  unfolding left announced
  answered o b c =
      admitted backend m p now seq icmd request_data a
      ∙ log_in-entered backend m p now seq icmd request_data a
          (auth_login-entered backend m p now seq icmd request_data a o b c)

  room-left : (ms : List Message) → HasRoom (m.heap p) ms → HasRoom (left.heap p) ms
  unfolding left entered login
  room-left ms room = rw ((==_iff p p).1 refl) room

-- A login end to end, with no other login in the queue: the message of a connected client is
-- decoded to a command that AuthController is registered for, its data and the reply can be
-- encoded, the login may succeed, the manager's queue of logins is open and empty and can hold
-- one, and the client's queue, if it is open, has room for the reply. Then processing the message
-- returns, the manager's next round of logins does too, and after it the user is found on this
-- client, which has the user's platform and id, and whose queue has the reply last if it is open.
pub process_data-logs_in :
    (wire : Wire) (backend : Backend wire.Reply) (handlers : Handlers wire.Reply) (m : Manager)
    (p now : ℕ) (message request_data head : Message) (req : Request wire.Payload)
    (a : IsAdmitted backend m p request_data)
    → wire.decode message ≡ some req
    → wire.encode_payload req.payload ≡ some request_data
    → get_handlers req.cmd handlers ≡ some (auth_controller backend now)
    → wire.encode_head req.seq
        (codes "auth-good")
        req.fetch_id
        Code.ok
        (get_error_message Code.ok [])
        (backend.login_data a.0 a.1 now)
      ≡ some head
    → in_client m p ≡ true
    → m.login_queue.closed ≡ false
    → m.login_queue.buffer ≡ []
    → 0 < m.login_queue.capacity
    → HasRoom (m.heap p) (head ∷ [])
    → (m1 m2 : Manager) × (process_data wire handlers m p message ≡ done m1)
      × (start_round m1 Case.logs_in ≡ done m2)
      × (get_user_client m2 a.0.app_id a.0.user_id ≡ some p)
      × (m2.heap p ≡ delivered (login (m.heap p) a.0.app_id a.0.user_id now) (head ∷ []))
unfolding greeted
process_data-logs_in wire backend handlers m p now message request_data head req a d b g e here o
      empty c room =
    let (m1, processed, law) =
      process_data_answers wire handlers m
        (left wire backend m p now req.seq req.cmd request_data a) p message request_data head req
        (auth_controller backend now) (greeted backend m p now req.seq req.cmd request_data a) d b g
        (answered wire backend m p now req.seq req.cmd request_data a o empty c) e
        (room-left wire backend m p now req.seq req.cmd request_data a (head ∷ []) room) in
    (
      m1,
      event_login (taken wire backend m p now req.seq req.cmd request_data a m1)
          (announced wire backend m p now req.seq req.cmd request_data a),
      processed,
      round-taken wire backend m p now req.seq req.cmd request_data a head m1 law,
      user-taken wire backend m p now req.seq req.cmd request_data a head m1 law here,
      client-taken wire backend m p now req.seq req.cmd request_data a head m1 law,
    )
