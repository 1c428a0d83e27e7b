-- ===== src/Ws/Controllers/Quiet.antt =====
-- data_server/ws/websocket/acc_controller.go: all handlers but AuthController leave the clients and the
-- manager as they are.
use microservices_trading_bo.Common.{ℕ, ◌≡◌, Text, List, [], ◌∷◌, All, arith}
use microservices_trading_bo.Ws.Client.{Message}
use microservices_trading_bo.Ws.Manager.{Manager}
use microservices_trading_bo.Ws.Process.{Disposal, answers, fails, waits, Handler}
use microservices_trading_bo.Ws.Controllers.{
  Backend, reply, ping_controller, empty_controller, get_follow_list_controller,
  get_my_followings_controller, follow_controller, followed, field, get_mk_publication_controller,
  get_mk_list_publication_controller,
}
use microservices_trading_bo.Ws.Controllers.Rooms.{
  Rooms, room_controller, search_controller, get_invite_list_controller,
  get_blocked_from_room_users_controller, get_scheduled_rooms_controller, get_room_users_controller,
  wtf_controller, get_my_scheduled_rooms_about_to_start_controller,
  join_room_and_get_info_controller, get_top_public_rooms_controller, chat_reply,
  send_room_chat_msg_controller, voice_server_controller,
}
use microservices_trading_bo.Ws.Controllers.Profiles.{
  Accounts, edite_marketplace_publication_controller, unknown, bare, get_user_profile_controller,
  edit_profile_controller, update_profile, create_marketplace_publication_controller,
}

-- The handler has ended, and the manager is as it was.
abbrev Leaves : {Reply : Type 0} → Manager → Disposal Reply → Type 0
Leaves m (answers m' _) = m' ≡ m
Leaves m (fails m') = m' ≡ m
Leaves m waits = ⊥

abbrev pub IsQuiet : {Reply : Type 0} → Handler Reply → Type 0
IsQuiet handler =
    (m : Manager) (p : ℕ) (seq icmd : Text) (message : Message)
    → Leaves m (handler m p seq icmd message)

module _ {Reply : Type 0} (backend : Backend Reply) (rooms : Rooms Reply)
    (accounts : Accounts Reply) where
  -- The two handlers that write, as handlers.
  abbrev pub edits_profile : Handler Reply
  edits_profile m p seq icmd message =
      (edit_profile_controller backend accounts m p seq icmd message).0

  abbrev pub creates_publication : Handler Reply
  creates_publication m p seq icmd message =
      (create_marketplace_publication_controller backend accounts m p seq icmd message).0

  -- All handlers but AuthController.
  abbrev pub other_controllers : List (Handler Reply)
  other_controllers =
      edits_profile
      ∷ creates_publication
      ∷ ping_controller backend
      ∷ empty_controller backend
      ∷ get_follow_list_controller backend
      ∷ get_my_followings_controller backend
      ∷ follow_controller backend
      ∷ get_mk_publication_controller backend
      ∷ get_mk_list_publication_controller backend
      ∷ room_controller backend rooms
      ∷ join_room_and_get_info_controller backend rooms
      ∷ get_top_public_rooms_controller backend rooms
      ∷ send_room_chat_msg_controller backend rooms
      ∷ voice_server_controller backend rooms
      ∷ get_user_profile_controller backend accounts
      ∷ search_controller backend
      ∷ get_invite_list_controller backend
      ∷ get_blocked_from_room_users_controller backend
      ∷ get_scheduled_rooms_controller backend
      ∷ get_room_users_controller backend
      ∷ wtf_controller backend
      ∷ get_my_scheduled_rooms_about_to_start_controller backend rooms
      ∷ edite_marketplace_publication_controller backend accounts
      ∷ []

  edit_profile_controller-IsQuiet : IsQuiet edits_profile
  unfolding edit_profile_controller update_profile unknown bare reply
  edit_profile_controller-IsQuiet m p seq icmd message = ground arith

  create_marketplace_publication_controller-IsQuiet : IsQuiet creates_publication
  unfolding create_marketplace_publication_controller bare reply
  create_marketplace_publication_controller-IsQuiet m p seq icmd message = ground arith

  ping_controller-IsQuiet : IsQuiet (ping_controller backend)
  unfolding ping_controller reply
  ping_controller-IsQuiet m p seq icmd message = ground arith

  empty_controller-IsQuiet : IsQuiet (empty_controller backend)
  unfolding empty_controller reply
  empty_controller-IsQuiet m p seq icmd message = ground arith

  get_follow_list_controller-IsQuiet : IsQuiet (get_follow_list_controller backend)
  unfolding get_follow_list_controller followed reply field
  get_follow_list_controller-IsQuiet m p seq icmd message = ground arith

  get_my_followings_controller-IsQuiet : IsQuiet (get_my_followings_controller backend)
  unfolding get_my_followings_controller followed reply
  get_my_followings_controller-IsQuiet m p seq icmd message = ground arith

  follow_controller-IsQuiet : IsQuiet (follow_controller backend)
  unfolding follow_controller followed reply field
  follow_controller-IsQuiet m p seq icmd message = ground arith

  get_mk_publication_controller-IsQuiet : IsQuiet (get_mk_publication_controller backend)
  unfolding get_mk_publication_controller reply
  get_mk_publication_controller-IsQuiet m p seq icmd message = ground arith

  get_mk_list_publication_controller-IsQuiet : IsQuiet (get_mk_list_publication_controller backend)
  unfolding get_mk_list_publication_controller reply
  get_mk_list_publication_controller-IsQuiet m p seq icmd message = ground arith

  room_controller-IsQuiet : IsQuiet (room_controller backend rooms)
  unfolding room_controller reply
  room_controller-IsQuiet m p seq icmd message = ground arith

  join_room_and_get_info_controller-IsQuiet :
      IsQuiet (join_room_and_get_info_controller backend rooms)
  unfolding join_room_and_get_info_controller reply
  join_room_and_get_info_controller-IsQuiet m p seq icmd message = ground arith

  get_top_public_rooms_controller-IsQuiet : IsQuiet (get_top_public_rooms_controller backend rooms)
  unfolding get_top_public_rooms_controller reply
  get_top_public_rooms_controller-IsQuiet m p seq icmd message = ground arith

  send_room_chat_msg_controller-IsQuiet : IsQuiet (send_room_chat_msg_controller backend rooms)
  unfolding send_room_chat_msg_controller chat_reply reply
  send_room_chat_msg_controller-IsQuiet m p seq icmd message = ground arith

  voice_server_controller-IsQuiet : IsQuiet (voice_server_controller backend rooms)
  unfolding voice_server_controller chat_reply reply
  voice_server_controller-IsQuiet m p seq icmd message = ground arith

  get_user_profile_controller-IsQuiet : IsQuiet (get_user_profile_controller backend accounts)
  unfolding get_user_profile_controller unknown bare reply
  get_user_profile_controller-IsQuiet m p seq icmd message = ground arith

  search_controller-IsQuiet : IsQuiet (search_controller backend)
  unfolding search_controller empty_controller reply
  search_controller-IsQuiet m p seq icmd message = ground arith

  get_invite_list_controller-IsQuiet : IsQuiet (get_invite_list_controller backend)
  unfolding get_invite_list_controller empty_controller reply
  get_invite_list_controller-IsQuiet m p seq icmd message = ground arith

  get_blocked_from_room_users_controller-IsQuiet :
      IsQuiet (get_blocked_from_room_users_controller backend)
  unfolding get_blocked_from_room_users_controller empty_controller reply
  get_blocked_from_room_users_controller-IsQuiet m p seq icmd message = ground arith

  get_scheduled_rooms_controller-IsQuiet : IsQuiet (get_scheduled_rooms_controller backend)
  unfolding get_scheduled_rooms_controller empty_controller reply
  get_scheduled_rooms_controller-IsQuiet m p seq icmd message = ground arith

  get_room_users_controller-IsQuiet : IsQuiet (get_room_users_controller backend)
  unfolding get_room_users_controller empty_controller reply
  get_room_users_controller-IsQuiet m p seq icmd message = ground arith

  wtf_controller-IsQuiet : IsQuiet (wtf_controller backend)
  unfolding wtf_controller empty_controller reply
  wtf_controller-IsQuiet m p seq icmd message = ground arith

  get_my_scheduled_rooms_about_to_start_controller-IsQuiet :
      IsQuiet (get_my_scheduled_rooms_about_to_start_controller backend rooms)
  unfolding get_my_scheduled_rooms_about_to_start_controller reply
  get_my_scheduled_rooms_about_to_start_controller-IsQuiet m p seq icmd message = ground arith

  edite_marketplace_publication_controller-IsQuiet :
      IsQuiet (edite_marketplace_publication_controller backend accounts)
  unfolding edite_marketplace_publication_controller bare reply
  edite_marketplace_publication_controller-IsQuiet m p seq icmd message = ground arith

  -- Every handler but AuthController comes to its end, with a reply or a panic, on every branch, and
  -- leaves the clients and the manager as they were.
  pub other_controllers-IsQuiet : All IsQuiet other_controllers
  other_controllers-IsQuiet = (
    edit_profile_controller-IsQuiet,
    (
      create_marketplace_publication_controller-IsQuiet,
      (
        ping_controller-IsQuiet,
        (
          empty_controller-IsQuiet,
          (
            get_follow_list_controller-IsQuiet,
            (
              get_my_followings_controller-IsQuiet,
              (
                follow_controller-IsQuiet,
                (
                  get_mk_publication_controller-IsQuiet,
                  (
                    get_mk_list_publication_controller-IsQuiet,
                    (
                      room_controller-IsQuiet,
                      (
                        join_room_and_get_info_controller-IsQuiet,
                        (
                          get_top_public_rooms_controller-IsQuiet,
                          (
                            send_room_chat_msg_controller-IsQuiet,
                            (
                              voice_server_controller-IsQuiet,
                              (
                                get_user_profile_controller-IsQuiet,
                                (
                                  search_controller-IsQuiet,
                                  (
                                    get_invite_list_controller-IsQuiet,
                                    (
                                      get_blocked_from_room_users_controller-IsQuiet,
                                      (
                                        get_scheduled_rooms_controller-IsQuiet,
                                        (
                                          get_room_users_controller-IsQuiet,
                                          (
                                            wtf_controller-IsQuiet,
                                            (
                                              get_my_scheduled_rooms_about_to_start_controller-IsQuiet,
                                              (
                                                edite_marketplace_publication_controller-IsQuiet,
                                                tt,
                                              ),
                                            ),
                                          ),
                                        ),
                                      ),
                                    ),
                                  ),
                                ),
                              ),
                            ),
                          ),
                        ),
                      ),
                    ),
                  ),
                ),
              ),
            ),
          ),
        ),
      ),
    ),
  )
