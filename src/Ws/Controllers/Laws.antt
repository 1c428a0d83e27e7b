-- ===== src/Ws/Controllers/Laws.antt =====
-- When a login succeeds and what it leads to.
pub mod EndToEnd
use microservices_trading_bo.Common.{
  ℕ, ◌<◌, ◌≡◌, ◌≢◌, ◌↔◌, ◌⊎◌, refl, sym, ◌∙◌, Text, codes, text_eq, text_eq_refl, true, false, List,
  [], ◌∷◌, none, some, lookup, arith, Bool-cases, Option-cases, inl, inr,
}
use microservices_trading_bo.Ws.Channel.{Run-cases, done, send, receive}
use microservices_trading_bo.Ws.Client.{Login, Message, login, is_login}
use microservices_trading_bo.Ws.Code
use microservices_trading_bo.Ws.Manager.{Manager, write_heap, in_client, add_users, get_user_client}
use microservices_trading_bo.Ws.Manager.Events.{Case, event_login, start_round}
use microservices_trading_bo.Ws.Manager.Users.{get_user_client-event_login}
use microservices_trading_bo.Ws.Process.{Response, answers, fails}
use microservices_trading_bo.Ws.System.{auth_login}
use microservices_trading_bo.Ws.Controllers.{
  Backend, LoginRequest, object, Value, field, auth_controller, reply, log_in,
  get_follow_list_controller,
}

module _ {Reply : Type 0} (backend : Backend Reply) where
  -- A login may succeed: the request is read, the database is there, the user is known and validated,
  -- and the client is not logged in yet.
  abbrev pub IsAdmitted : Manager → ℕ → Message → Type 0
  IsAdmitted m p message =
      (req : LoginRequest) × (user : backend.User) × (backend.decode_login message ≡ some req)
      × (backend.callback ≡ true)
      × (backend.get_user req.user_id ≡ some user)
      × (backend.user_validation req user ≡ true)
      × (is_login (m.heap p) ≡ false)

  admitted :
      (m : Manager) (p now : ℕ) (seq icmd : Text) (message : Message)
      → (a : IsAdmitted m p message)
      → auth_controller backend now m p seq icmd message ≡ log_in backend now m p a.0 a.1
  unfolding auth_controller
  admitted m p now seq icmd message (req, user, decoded, there, known, valid, out) =
      rw (auth_controller, decoded, there, known, valid, out) refl

  module _ (m m' : Manager) (p now : ℕ) (seq icmd : Text) (message : Message)
      (r : Response Reply) where
    log_in-code :
        (req : LoginRequest) (user : backend.User)
        → log_in backend now m p req user ≡ answers m' r
        → r.code ≡ Code.ok
    unfolding log_in
    log_in-code req user e = elim (Run-cases (auth_login m p req.app_id req.user_id now)) [
      | inl (m1, f) ↦ ground (arith, f)
      | inr (inl f) ↦ absurd (ground (arith, f))
      | inr (inr f) ↦ absurd (ground (arith, f))
    ]

    module _ (e : auth_controller backend now m p seq icmd message ≡ answers m' r) where
      refused_or_admitted : IsAdmitted m p message ⊎ ((m' ≡ m) × (r.code ≢ Code.ok))
      unfolding auth_controller
      refused_or_admitted = elim (Option-cases (backend.decode_login message)) [
        | inl f ↦ inr (ground (arith, f), ground (arith, f))
        | inr (req, f) ↦ elim (Bool-cases backend.callback) [
          | inr g ↦ inr (ground (arith, f, g), ground (arith, f, g))
          | inl g ↦ elim (Option-cases (backend.get_user req.user_id)) [
            | inl h ↦ inr (ground (arith, f, g, h), ground (arith, f, g, h))
            | inr (user, h) ↦ elim (Bool-cases (backend.user_validation req user)) [
              | inr i ↦ inr (ground (arith, f, g, h, i), ground (arith, f, g, h, i))
              | inl i ↦ elim (Bool-cases (is_login (m.heap p))) [
                | inl j ↦ inr (ground (arith, f, g, h, i, j), ground (arith, f, g, h, i, j))
                | inr j ↦ inl (req, user, f, g, h, i, j)
              ]
            ]
          ]
        ]
      ]

      admitted-code : IsAdmitted m p message → r.code ≡ Code.ok
      admitted-code a = log_in-code a.0 a.1 (sym (admitted m p now seq icmd message a) ∙ e)

      -- A login is answered with the code OK exactly if it may succeed: the request is read, the
      -- database is there, the user is known and validated, and the client was not logged in. A
      -- login that is answered with another code changes nothing.
      pub auth_controller-ok_iff :
          ((r.code ≡ Code.ok) ↔ IsAdmitted m p message) × (r.code ≢ Code.ok → m' ≡ m)
      auth_controller-ok_iff = elim refused_or_admitted [
        | inl a ↦ ((λ _. a, admitted-code), λ n. absurd (n (admitted-code a)))
        | inr (same, n) ↦ ((λ o. absurd (n o), admitted-code), λ _. same)
      ]

  module _ (m : Manager) (p now : ℕ) (seq icmd : Text) (message : Message)
      (a : IsAdmitted m p message) where
    entry : Login
    entry = record { app_id = a.0.app_id; user_id = a.0.user_id; client = p }

    entered : List Login → Manager
    entered waiting = record m {
      heap = write_heap m.heap p (login (m.heap p) a.0.app_id a.0.user_id now);
      login_queue = record m.login_queue { buffer = waiting };
    }

    auth_login-entered :
        m.login_queue.closed ≡ false
        → m.login_queue.buffer ≡ []
        → 0 < m.login_queue.capacity
        → auth_login m p a.0.app_id a.0.user_id now ≡ done (entered (entry ∷ []))
    unfolding auth_login entered entry send
    auth_login-entered o b c = let (_, _, _, _, _, _, out) = a in ground (arith, out, o, b, c)

    round-entered :
        start_round (entered (entry ∷ [])) Case.logs_in ≡ done (event_login (entered []) entry)
    unfolding start_round receive entered entry
    round-entered = refl

    greeted : Response Reply
    greeted = record {
      code = Code.ok;
      msg = [];
      cmd = codes "auth-good";
      payload = backend.login_data a.0 a.1 now;
      voice = false;
    }

    log_in-entered :
        auth_login m p a.0.app_id a.0.user_id now ≡ done (entered (entry ∷ []))
        → log_in backend now m p a.0 a.1 ≡ answers (entered (entry ∷ [])) greeted
    unfolding log_in greeted reply
    log_in-entered f = rw (log_in, f) refl

    entered-client : in_client (entered []) p ≡ in_client m p
    unfolding entered in_client
    entered-client = refl

    entered-heap :
        (event_login (entered []) entry).heap p ≡ login (m.heap p) a.0.app_id a.0.user_id now
    unfolding event_login add_users entered
    entered-heap = ground arith

    code_ok : greeted.code ≡ Code.ok
    unfolding greeted
    code_ok = refl

    found :
        in_client (entered []) p ≡ true
        → get_user_client (event_login (entered []) entry) a.0.app_id a.0.user_id ≡ some p
    unfolding entry
    found here =
        get_user_client-event_login (entered []) entry a.0.app_id a.0.user_id
        ∙ ground (arith, here, text_eq_refl a.0.user_id)

    -- A login that may succeed, of a connected client and with no other login in the queue: the
    -- reply has the code OK, and as soon as the manager has handled the login, its user is found
    -- on this client, which has the user's platform and id for its own.
    pub auth_controller-logs_in :
        in_client m p ≡ true
        → m.login_queue.closed ≡ false
        → m.login_queue.buffer ≡ []
        → 0 < m.login_queue.capacity
        → (m1 m2 : Manager) × (r : Response Reply) × (auth_controller backend now m p seq icmd
              message
            ≡ answers m1 r)
          × (r.code ≡ Code.ok)
          × (start_round m1 Case.logs_in ≡ done m2)
          × (get_user_client m2 a.0.app_id a.0.user_id ≡ some p)
          × ((m2.heap p).app_id ≡ a.0.app_id)
          × ((m2.heap p).user_id ≡ a.0.user_id)
    unfolding login
    auth_controller-logs_in here o b c = (
      entered (entry ∷ []),
      event_login (entered []) entry,
      greeted,
      admitted m p now seq icmd message a ∙ log_in-entered (auth_login-entered o b c),
      code_ok,
      round-entered,
      found (entered-client ∙ here),
      rw entered-heap refl,
      rw entered-heap refl,
    )

  -- A request for a list of followers that does not say `isFollowing` makes the handler panic, once
  -- the database is there: the default that the handler gives the field is no Boolean.
  pub get_follow_list_controller-fails :
      (m : Manager) (p : ℕ) (seq icmd : Text) (message : Message) (fields : List (Text × Value))
      → backend.decode_map message ≡ some (object fields)
      → backend.connect ≡ true
      → lookup (codes "isFollowing") fields ≡ none
      → get_follow_list_controller backend m p seq icmd message ≡ fails m
  unfolding get_follow_list_controller field lookup text_eq
  get_follow_list_controller-fails m p seq icmd message fields d c n = ground (arith, d, c, n)
