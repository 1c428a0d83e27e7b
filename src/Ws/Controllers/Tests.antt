-- ===== src/Ws/Controllers/Tests.antt =====
-- Logins and lists of followers, at a concrete backend.
use microservices_trading_bo.Common.{
  ◌≡◌, ◌≢◌, ◌↔◌, refl, All, ◌++◌, Text, codes, text_eq, true, false, [], ◌∷◌, some, ok,
  if◌then◌else◌, arith, lookup, contains,
}
use microservices_trading_bo.Ws.Channel.{done, make}
use microservices_trading_bo.Ws.Client.{Client, login, is_login}
use microservices_trading_bo.Ws.Code
use microservices_trading_bo.Ws.Manager.{Manager, in_client, get_user_client}
use microservices_trading_bo.Ws.Manager.Events.{Case, start_round}
use microservices_trading_bo.Ws.Process.{Wire, Response, answers, fails, get_handlers, process_data}
use microservices_trading_bo.Ws.Controllers.{
  Backend, object, Value, auth_controller, get_follow_list_controller, ping_controller,
}
use microservices_trading_bo.Ws.Controllers.Rooms.{Rooms}
use microservices_trading_bo.Ws.Controllers.Profiles.{
  Accounts, edit_profile_controller, update_profile, create_marketplace_publication_controller,
}
use microservices_trading_bo.Ws.Controllers.Profiles.Laws.{
  IsEdit, edit_profile_controller-writes_iff, create_marketplace_publication_controller-writes,
}
use microservices_trading_bo.Ws.Controllers.Quiet.{
  IsQuiet, other_controllers, other_controllers-IsQuiet,
}
use microservices_trading_bo.Ws.Controllers.Laws.EndToEnd.{process_data-logs_in}
use microservices_trading_bo.Ws.Manager.Delivery.{delivered}
use microservices_trading_bo.Ws.Controllers.Laws.{
  IsAdmitted, auth_controller-ok_iff, get_follow_list_controller-fails,
}

-- A message is the id of a user of platform 101; users whose id is empty are not valid.
abbrev plain : Backend Text
plain = record {
  User = Text;
  decode_login = λ message. some (record { app_id = 101; user_id = message });
  decode_map = λ message. some (object ((codes "username", Value.text message) ∷ []));
  callback = true;
  connect = true;
  get_user = λ id. some id;
  user_validation = λ req user. if text_eq user [] then false else true;
  get_user_with_followings = λ key value following. some value;
  update_follow_state = λ from to follow. some to;
  find_publication_by_id = λ request. ok [];
  get_initial_publication_list = λ request. ok [];
  nil_data = [];
  text_data = λ s. s;
  login_data = λ req user now. user;
  error_data = λ s. s;
}

abbrev stranger : Client
stranger = record {
  addr = codes "10.0.0.2:7";
  socket_closed = false;
  queue = make 100;
  app_id = 0;
  user_id = [];
  first_time = 4;
  heartbeat_time = 4;
  login_time = 0;
}

abbrev waiting : Manager
waiting = record {
  heap = λ _. stranger;
  next = 1;
  clients = 0 ∷ [];
  users = [];
  register_queue = make 1000;
  login_queue = make 1000;
  unregister_queue = make 1000;
  broadcast_queue = make 1000;
}

abbrev rejected : Response Text
rejected = record {
  code = Code.unauthorized_user_id;
  msg = [];
  cmd = codes "auth-good";
  payload = codes "error !controllers.UserValidation";
  voice = false;
}

auth_controller-ok_iff_example :
    ((rejected.code ≡ Code.ok) ↔ IsAdmitted plain waiting 0 [])
    × (rejected.code ≢ Code.ok → waiting ≡ waiting)
unfolding auth_controller text_eq
auth_controller-ok_iff_example =
    auth_controller-ok_iff plain waiting waiting 0 9 (codes "s1") (codes "auth") [] rejected refl

ana-IsAdmitted : IsAdmitted plain waiting 0 (codes "ana")
unfolding is_login text_eq
ana-IsAdmitted =
    (record { app_id = 101; user_id = codes "ana" }, codes "ana", refl, refl, refl, refl, refl)

-- A message is the data of a login.
abbrev logins : Wire
logins = record {
  Payload = Text;
  Reply = Text;
  nil_reply = codes "null";
  decode = λ message.
      some (record { seq = codes "s1"; cmd = codes "auth"; fetch_id = []; payload = message });
  encode_payload = λ payload. some payload;
  encode_head = λ seq cmd fetch_id code msg reply. some (seq ++ cmd ++ reply);
}

process_data-logs_in_example :
    (m1 m2 : Manager) × (process_data logins
        ((codes "auth", auth_controller plain 9) ∷ [])
        waiting
        0
        (codes "ana")
      ≡ done m1)
    × (start_round m1 Case.logs_in ≡ done m2)
    × (get_user_client m2 101 (codes "ana") ≡ some 0)
    × (m2.heap 0 ≡ delivered (login stranger 101 (codes "ana") 9) (codes "s1auth-goodana" ∷ []))
unfolding in_client contains ana-IsAdmitted get_handlers lookup text_eq
process_data-logs_in_example =
    process_data-logs_in logins plain ((codes "auth", auth_controller plain 9) ∷ []) waiting 0 9
      (codes "ana") (codes "ana") (codes "s1auth-goodana")
      (record { seq = codes "s1"; cmd = codes "auth"; fetch_id = []; payload = codes "ana" })
      ana-IsAdmitted refl refl refl refl refl refl refl (omega arith) (λ o. omega arith)

list-panics :
    get_follow_list_controller plain waiting 0 (codes "s1") (codes "list") (codes "ana")
    ≡ fails waiting
unfolding lookup text_eq
list-panics =
    get_follow_list_controller-fails plain waiting 0 (codes "s1") (codes "list") (codes "ana")
      ((codes "username", Value.text (codes "ana")) ∷ []) refl refl refl

ping-answers :
    ping_controller plain waiting 0 (codes "s1") (codes "ping") []
    ≡ answers waiting
        (record { code = 200; msg = []; cmd = codes "ping"; payload = codes "pong"; voice = false })
unfolding ping_controller
ping-answers = refl

abbrev rooms : Rooms Text
rooms = record {
  ChatMsg = Text;
  scheduled_rooms = [];
  top_rooms = [];
  decode_room_id = λ message. some message;
  joined_room = λ room_id. room_id;
  decode_chat_msg = λ message. some message;
  chat_data = λ user_id msg. msg;
}

-- The name stands in the message; an account is what it shows.
abbrev accounts : Accounts Text
accounts = record {
  Account = Text;
  Publication = Text;
  decode_user_id = λ message. some message;
  decode_profile = λ message. some (
      some (
        (codes "username", Value.text message)
        ∷ (codes "displayName", Value.text (codes "A"))
        ∷ (codes "bio", Value.text (codes "b"))
        ∷ (codes "avatarUrl", Value.text (codes "c"))
        ∷ []));
  find_by_username = λ name. some name;
  with_profile = λ user display_name bio avatar. display_name ++ bio ++ avatar;
  update3 = λ name user. false;
  validate = λ request. ok (codes "lamp");
  create_publication = λ publication. true;
  user_data = λ user. user;
  not_taken = [];
  made = [];
}

other_controllers-IsQuiet_example : All IsQuiet (other_controllers plain rooms accounts)
other_controllers-IsQuiet_example = other_controllers-IsQuiet plain rooms accounts

edit_profile_controller-writes_iff_example :
    ((edit_profile_controller plain accounts waiting 0 (codes "s1") (codes "edit") (codes "ana")).1
      ≡ some (codes "ana", codes "Abc"))
    ↔ IsEdit plain accounts (codes "ana") (codes "ana", codes "Abc")
edit_profile_controller-writes_iff_example =
    edit_profile_controller-writes_iff plain accounts waiting 0 (codes "s1") (codes "edit")
      (codes "ana") (codes "ana", codes "Abc")

-- It is written, though the update fails.
edit-written :
    (edit_profile_controller plain accounts waiting 0 (codes "s1") (codes "edit") (codes "ana")).1
    ≡ some (codes "ana", codes "Abc")
unfolding edit_profile_controller update_profile lookup text_eq
edit-written = refl

publication-written :
    (create_marketplace_publication_controller plain accounts waiting 0
      (codes "s1")
      (codes "new")
      []).1
    ≡ some (codes "lamp")
publication-written =
    (create_marketplace_publication_controller-writes plain accounts waiting 0 (codes "s1")
        (codes "new") [] (codes "lamp")).1
      (object ((codes "username", Value.text []) ∷ []), refl, refl, refl)
