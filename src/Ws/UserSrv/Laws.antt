-- ===== src/Ws/UserSrv/Laws.antt =====
-- What a message to one user does, and who counts as online.
use microservices_trading_bo.Common.{
  ℕ, ◌≡◌, refl, ◌∙◌, Text, text_eq_refl, true, [], ◌∷◌, none, some, arith, inl, inr, Option-cases,
}
use microservices_trading_bo.Ws.Channel.{done}
use microservices_trading_bo.Ws.Client.{Login, Message}
use microservices_trading_bo.Ws.Manager.{Manager, write_heap, in_client, get_user_client}
use microservices_trading_bo.Ws.Manager.Events.{event_login}
use microservices_trading_bo.Ws.Manager.Users.{get_user_client-event_login}
use microservices_trading_bo.Ws.Manager.Delivery.{delivered, HasRoom, send_to_lem}
use microservices_trading_bo.Ws.UserSrv.{user_client, send_user_message, send_user_message_local}

-- The manager after a message was put behind what the client's queue held.
abbrev pub messaged : Manager → ℕ → Message → Manager
messaged m p message = record m { heap = write_heap m.heap p (delivered (m.heap p) (message ∷ [])) }

send_online :
    (m : Manager) (app_id : ℕ) (user_id : Text) (message : Message) (p : ℕ)
    → get_user_client m app_id user_id ≡ some p
    → HasRoom (m.heap p) (message ∷ [])
    → send_user_message m app_id user_id message ≡ done (messaged m p message, (true, none))
unfolding send_user_message send_user_message_local user_client
send_online m app_id user_id message p e room =
    (let sent = send_to_lem m.heap p message room in ground (arith, e, sent))

-- A message to a user is reported as sent without an error whether or not the user is online: it is
-- put last in the queue of the user's client if there is one (nothing happens if that queue is
-- closed), and nothing at all is changed if there is none, provided that an open queue has room.
pub send_user_message_lem :
    (m : Manager) (app_id : ℕ) (user_id : Text) (message : Message)
    → ((p : ℕ) → get_user_client m app_id user_id ≡ some p → HasRoom (m.heap p) (message ∷ []))
    → send_user_message m app_id user_id message
      ≡ done (
        elim (get_user_client m app_id user_id) [ none ↦ m | some p ↦ messaged m p message ],
        (true, none),
      )
unfolding send_user_message send_user_message_local user_client
send_user_message_lem m app_id user_id message room =
    elim (Option-cases (get_user_client m app_id user_id)) [
      | inl out ↦ ground (arith, out)
      | inr (p, found) ↦ send_online m app_id user_id message p found (room p found) ∙ rw found refl
    ]

-- Once the login of a connected client is handled, a message to its user is reported as sent: it
-- is put last in the queue of that client, provided that an open queue has room for it, and it is
-- dropped if that queue is closed; no other client is changed.
pub send_user_message-event_login :
    (m : Manager) (l : Login) (message : Message)
    → in_client m l.client ≡ true
    → HasRoom ((event_login m l).heap l.client) (message ∷ [])
    → send_user_message (event_login m l) l.app_id l.user_id message
      ≡ done (messaged (event_login m l) l.client message, (true, none))
send_user_message-event_login m l message here room =
    send_online (event_login m l) l.app_id l.user_id message l.client
      (get_user_client-event_login m l l.app_id l.user_id
        ∙ ground (arith, here, text_eq_refl l.user_id))
      room
