-- ===== src/Ws/Controllers/Rooms.antt =====
-- data_server/ws/websocket/acc_controller.go: the handlers of rooms and of their chat. What package
-- models builds of a request is the record `Rooms`.
use microservices_trading_bo.Common.{Text, codes, true, false, Option, none, some, ◌++◌}
use microservices_trading_bo.Ws.Client.{Message}
use microservices_trading_bo.Ws.Code
use microservices_trading_bo.Ws.Process.{answers, Handler}
use microservices_trading_bo.Ws.Controllers.{
  Backend, empty_controller, reply, error_on_controller, fetch_done,
}

-- `scheduled_rooms` and `top_rooms` hold what RoomPrepData and TopRoomsPublicPrepData make;
-- `decode_room_id` is json.Unmarshal into a PrefetchRoomId, `joined_room` is JoinedRoomPrepData;
-- `decode_chat_msg` is json.Unmarshal into the RoomChatMsg that ChatMsgPrepData made, and `chat_data` the reply with it.
pub record Rooms (Reply : Type 0) : Type 1 where
  pub ChatMsg : Type 0
  pub scheduled_rooms : Reply
  pub top_rooms : Reply
  pub decode_room_id : Message → Option Text
  pub joined_room : Text → Reply
  pub decode_chat_msg : Message → Option ChatMsg
  pub chat_data : Text → ChatMsg → Reply

module _ {Reply : Type 0} (backend : Backend Reply) (rooms : Rooms Reply) where
  unfoldable pub room_controller : Handler Reply
  unfolding reply
  room_controller m p seq icmd message =
      answers m (reply backend Code.ok (icmd ++ codes ":reply") rooms.scheduled_rooms false)

  unfoldable pub get_my_scheduled_rooms_about_to_start_controller : Handler Reply
  unfolding reply
  get_my_scheduled_rooms_about_to_start_controller m p seq icmd message =
      answers m (reply backend Code.ok (icmd ++ codes ":reply") rooms.scheduled_rooms false)

  unfoldable pub join_room_and_get_info_controller : Handler Reply
  unfolding reply
  join_room_and_get_info_controller m p seq icmd message = elim (rooms.decode_room_id message) [
    | none ↦ answers m (
        reply backend Code.parameter_illegal error_on_controller (backend.text_data (codes "error"))
          true)
    | some room_id ↦ answers m (reply backend Code.ok fetch_done (rooms.joined_room room_id) true)
  ]

  unfoldable pub get_top_public_rooms_controller : Handler Reply
  unfolding reply
  get_top_public_rooms_controller m p seq icmd message =
      answers m (reply backend Code.ok fetch_done rooms.top_rooms true)

  -- The body that SendRoomChatMsgController and VoiceServerController share.
  unfoldable pub chat_reply : Text → Handler Reply
  unfolding reply
  chat_reply cmd m p seq icmd message = elim (rooms.decode_chat_msg message) [
    | none ↦ answers m (
        reply backend Code.parameter_illegal error_on_controller (backend.text_data (codes "error"))
          false)
    | some request ↦
        answers m (reply backend Code.ok cmd (rooms.chat_data (codes "1") request) false)
  ]

  unfoldable pub send_room_chat_msg_controller : Handler Reply
  unfolding chat_reply
  send_room_chat_msg_controller m p seq icmd message =
      chat_reply (codes "new_chat_msg") m p seq icmd message

  unfoldable pub voice_server_controller : Handler Reply
  unfolding chat_reply
  voice_server_controller m p seq icmd message =
      chat_reply (codes "you-joined-as-speaker") m p seq icmd message

-- The handlers between the others that only print.
module _ {Reply : Type 0} (backend : Backend Reply) where
  unfoldable pub search_controller : Handler Reply
  unfolding empty_controller
  search_controller m p seq icmd message = empty_controller backend m p seq icmd message

  unfoldable pub get_invite_list_controller : Handler Reply
  unfolding empty_controller
  get_invite_list_controller m p seq icmd message = empty_controller backend m p seq icmd message

  unfoldable pub get_blocked_from_room_users_controller : Handler Reply
  unfolding empty_controller
  get_blocked_from_room_users_controller m p seq icmd message =
      empty_controller backend m p seq icmd message

  unfoldable pub get_scheduled_rooms_controller : Handler Reply
  unfolding empty_controller
  get_scheduled_rooms_controller m p seq icmd message =
      empty_controller backend m p seq icmd message

  unfoldable pub get_room_users_controller : Handler Reply
  unfolding empty_controller
  get_room_users_controller m p seq icmd message = empty_controller backend m p seq icmd message

  unfoldable pub wtf_controller : Handler Reply
  unfolding empty_controller
  wtf_controller m p seq icmd message = empty_controller backend m p seq icmd message
