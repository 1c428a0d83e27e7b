-- ===== src/Ws/Controllers/Profiles.antt =====
-- data_server/ws/websocket/acc_controller.go: the handlers that show and change a user's profile, and
-- that which makes a publication. The repositories and package models are the record `Accounts`.
pub mod Laws
use microservices_trading_bo.Common.{
  ℕ, Text, codes, Bool, true, false, List, Option, none, some, if◌then◌else◌, lookup, Outcome, ok,
  err, panics,
}
use microservices_trading_bo.Ws.Client.{Message}
use microservices_trading_bo.Ws.Code
use microservices_trading_bo.Ws.Manager.{Manager}
use microservices_trading_bo.Ws.Process.{Disposal, answers, fails, Handler}
use microservices_trading_bo.Ws.Controllers.{
  Backend, Value, Document, as_text, reply, error_on_controller, fetch_done,
}

-- Each answer is that of the libraries at the time of the call. `decode_user_id` is json.Unmarshal
-- into a map of strings, and then the string under "userId", which is empty if there is none;
-- `decode_profile` is json.Unmarshal, and then what stands under "data", if that is a JSON
-- object; `with_profile` sets DisplayName, Bio and Avatar; `update3` tells whether Update3 succeeds.
-- `validate` is Validate of a Publication, and `create_publication` tells whether CreatePublication succeeds.
pub record Accounts (Reply : Type 0) : Type 1 where
  pub Account : Type 0
  pub Publication : Type 0
  pub decode_user_id : Message → Option Text
  pub decode_profile : Message → Option (Option (List (Text × Value)))
  pub find_by_username : Text → Option Account
  pub with_profile : Account → Text → Text → Text → Account
  pub update3 : Text → Account → Bool
  pub validate : Document → Outcome Text Publication
  pub create_publication : Publication → Bool
  pub user_data : Account → Reply
  pub not_taken : Reply
  pub made : Reply

module _ {Reply : Type 0} (backend : Backend Reply) (accounts : Accounts Reply) where
  open accounts use {Account, Publication}

  -- The reply of both handlers to a user that is not found, or an update that fails.
  unfoldable pub unknown : Manager → Disposal Reply
  unfolding reply
  unknown m = answers m (
      reply backend Code.unauthorized_user_id error_on_controller
        (backend.text_data (codes "error")) false)

  -- A reply without data, under the code of an error.
  unfoldable pub bare : ℕ → Bool → Manager → Disposal Reply
  unfolding reply
  bare code voice m = answers m (reply backend code fetch_done backend.nil_data voice)

  unfoldable pub get_user_profile_controller : Handler Reply
  unfolding unknown bare reply
  get_user_profile_controller m p seq icmd message = elim (accounts.decode_user_id message) [
    | none ↦ bare Code.parameter_illegal false m
    | some user_id ↦
        if backend.connect
        then (elim (accounts.find_by_username user_id) [
          | none ↦ unknown m
          | some user ↦ answers m (reply backend Code.ok fetch_done (accounts.user_data user) false)
        ])
        else bare Code.server_error false m
  ]

  -- A handler that may write: how it ends, and what it handed to the database.
  abbrev pub Writes : Type 0 → Type 0
  Writes Record = Disposal Reply × Option Record

  -- From where the user is found: the three strings, the update, and the reply.
  unfoldable pub update_profile :
      Manager → Text → Account → List (Text × Value) → Writes (Text × Account)
  unfolding unknown reply
  update_profile m username user fields = elim (as_text (lookup (codes "displayName") fields)) [
    | none ↦ (fails m, none)
    | some display_name ↦ elim (as_text (lookup (codes "bio") fields)) [
      | none ↦ (fails m, none)
      | some bio ↦ elim (as_text (lookup (codes "avatarUrl") fields)) [
        | none ↦ (fails m, none)
        | some avatar ↦
            let user' = accounts.with_profile user display_name bio avatar in
            (
              if accounts.update3 username user'
                  then answers m (reply backend Code.ok fetch_done accounts.not_taken false)
                  else unknown m,
              some (username, user'),
            )
      ]
    ]
  ]

  -- Without an object under "data" the first assertion panics.
  unfoldable pub edit_profile_controller :
      Manager → ℕ → Text → Text → Message → Writes (Text × Account)
  unfolding update_profile unknown bare lookup
  edit_profile_controller m p seq icmd message = elim (accounts.decode_profile message) [
    | none ↦ (bare Code.parameter_illegal false m, none)
    | some request ↦
        if backend.connect
        then (elim request [
          | none ↦ (fails m, none)
          | some fields ↦ elim (as_text (lookup (codes "username") fields)) [
            | none ↦ (fails m, none)
            | some username ↦ elim (accounts.find_by_username username) [
              | none ↦ (unknown m, none)
              | some user ↦ update_profile m username user fields
            ]
          ]
        ])
        else (bare Code.server_error false m, none)
  ]

  unfoldable pub create_marketplace_publication_controller :
      Manager → ℕ → Text → Text → Message → Writes Publication
  unfolding bare reply
  create_marketplace_publication_controller m p seq icmd message =
      elim (backend.decode_map message) [
        | none ↦ (bare Code.parameter_illegal true m, none)
        | some request ↦ elim (accounts.validate request) [
          | err _ ↦ (
            answers m (
                reply backend Code.parameter_illegal fetch_done (backend.text_data (codes "error"))
                  true),
            none,
          )
          | panics ↦ (fails m, none)
          | ok publication ↦
              if backend.connect
              then (
                if accounts.create_publication publication
                    then answers m (reply backend Code.ok fetch_done accounts.made true)
                    else bare Code.server_error true m,
                some publication,
              )
              else (bare Code.server_error true m, none)
        ]
      ]

  -- It lists the publications, as GetMkListPublicationController does.
  unfoldable pub edite_marketplace_publication_controller : Handler Reply
  unfolding bare reply
  edite_marketplace_publication_controller m p seq icmd message =
      elim (backend.decode_map message) [
        | none ↦ bare Code.parameter_illegal true m
        | some request ↦
            if backend.connect
            then (elim (backend.get_initial_publication_list request) [
              | ok publications ↦ answers m (reply backend Code.ok fetch_done publications true)
              | err e ↦ bare Code.server_error true m
              | panics ↦ fails m
            ])
            else bare Code.server_error true m
      ]
