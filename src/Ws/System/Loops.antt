-- ===== src/Ws/System/Loops.antt =====
-- Two loops `start` of data_server/ws/websocket/client_manager.go at once: init_acc.go,
-- `StartWebSocket`, starts one for each connection. A handler takes a lock for each method that it
-- calls, so that another loop can go on between two calls.
use microservices_trading_bo.Common.{
  ℕ, ◌≡◌, refl, sym, ◌∙◌, text_eq_refl, Bool, true, false, List, [], ◌∷◌, some, if◌then◌else◌,
  lookup, lookup-insert, contains-remove, arith, Bool-cases, inl, inr,
}
use microservices_trading_bo.Ws.Channel.{Run, done, blocked, panicked, ◌>>=◌, send}
use microservices_trading_bo.Ws.Client.{Login, Message, login_key, enqueue, close_client}
use microservices_trading_bo.Ws.Manager.{
  Manager, store, in_client, add_users, add_clients, del_clients, del_users, get_clients,
}
use microservices_trading_bo.Ws.Manager.Events.{
  event_login, event_unregister, broadcast_to, greeting,
}

-- How far a loop is with its event, and AuthController with the login that it announces; a loop that
-- has finished an event waits for the next one, and AuthController is over.
pub data Stage : Type 0 where
  register_begins register_greets : ℕ → Stage
  login_begins login_enters : Login → Stage
  unregister_begins unregister_users unregister_closes : ℕ → Stage
  broadcast_begins : Message → Stage
  broadcast_sends : Message → List ℕ → Stage
  announces : Login → Stage
  finished over : Stage

-- The next call of a handler.
unfoldable pub advance : Manager → Stage → Run (Manager × Stage)
unfolding close_client enqueue send
advance m (register_begins p) = done (add_clients m p, register_greets p)
advance m (register_greets p) = do c ← enqueue (m.heap p) greeting; done (store m p c, finished)
advance m (login_begins l) = done (m, if in_client m l.client then login_enters l else finished)
advance m (login_enters l) = done (add_users m (login_key l) l.client, finished)
advance m (unregister_begins p) = done (del_clients m p, unregister_users p)
advance m (unregister_users p) =
    let (m', deleted) = del_users m p in
    done (m', if deleted then unregister_closes p else finished)
advance m (unregister_closes p) = do c ← close_client (m.heap p); done (store m p c, finished)
advance m (broadcast_begins msg) = done (m, broadcast_sends msg (get_clients m))
advance m (broadcast_sends msg []) = done (m, finished)
advance m (broadcast_sends msg (p ∷ ps)) = do
  heap ← broadcast_to m.heap p msg
  done (record m { heap = heap }, broadcast_sends msg ps)
advance m (announces l) = do
  queue ← send m.login_queue l
  done (record m { login_queue = queue }, over)
advance m finished = done (m, finished)
advance m over = done (m, over)

-- A schedule says which of two loops goes on.
unfoldable pub interleave : List Bool → Manager → Stage → Stage → Run (Manager × (Stage × Stage))
interleave [] m s t = done (m, (s, t))
interleave (first ∷ rest) m s t =
    if first
    then (advance m s >>= λ r. interleave rest r.0 r.1 t)
    else (advance m t >>= λ r. interleave rest r.0 s r.1)

bind_assoc {ℓ κ ι} :
    {A : Type ℓ} {B : Type κ} {C : Type ι} (r : Run A) (f : A → Run B) (g : B → Run C)
    → r >>= f >>= g ≡ (r >>= λ a. f a >>= g)
bind_assoc (done a) f g = refl
bind_assoc blocked f g = refl
bind_assoc panicked f g = refl

unregister_steps :
    (m : Manager) (p : ℕ) (s : Stage) (rest : List Bool)
    → interleave (false ∷ false ∷ false ∷ rest) m s (unregister_begins p)
      ≡ (event_unregister m p >>= λ m'. interleave rest m' s finished)
unfolding interleave advance event_unregister
unregister_steps m p s rest = elim (Bool-cases (del_users (del_clients m p) p).1) [
  | inl gone ↦ rw gone (
      bind_assoc (close_client ((del_users (del_clients m p) p).0.heap p)) _ _
      ∙ sym (bind_assoc (close_client ((del_users (del_clients m p) p).0.heap p)) _ _))
  | inr kept ↦ rw kept refl
]

-- A loop whose steps no other loop comes between handles an event as the one-step handler does.
pub undisturbed :
    (m : Manager) (l : Login) (p : ℕ)
    → (interleave (true ∷ true ∷ []) m (login_begins l) finished
        ≡ done (event_login m l, (finished, finished)))
      × (interleave (false ∷ false ∷ false ∷ []) m finished (unregister_begins p)
          ≡ (event_unregister m p >>= λ m'. done (m', (finished, finished))))
unfolding interleave advance event_login
undisturbed m l p = (ground arith, unregister_steps m p finished [])

del_users-clients : (m : Manager) (p : ℕ) → (del_users m p).0.clients ≡ m.clients
unfolding del_users
del_users-clients m p = ground arith

unregistered : (m m' : Manager) (p : ℕ) → event_unregister m p ≡ done m' → in_client m' p ≡ false
unfolding event_unregister in_client del_clients
unregistered m m' p e =
    ground (arith, del_users-clients (del_clients m p) p, contains-remove p p m.clients)

-- A login and the end of the same client in two loops: if the second comes between the first's test
-- and its write, the user is entered on a client that is no longer connected. Handled one after the
-- other, the login would change nothing.
pub login-lost :
    (m m1 : Manager) (l : Login)
    → in_client m l.client ≡ true
    → event_unregister m l.client ≡ done m1
    → (m' : Manager) × (interleave
          (true ∷ false ∷ false ∷ false ∷ true ∷ [])
          m
          (login_begins l)
          (unregister_begins l.client)
        ≡ done (m', (finished, finished)))
      × (lookup (login_key l) m'.users ≡ some l.client)
      × (in_client m' l.client ≡ false)
      × (event_login m1 l ≡ m1)
unfolding interleave advance event_login add_users in_client
login-lost m m1 l here e =
    let gone = unregistered m m1 l.client e in
    (
      add_users m1 (login_key l) l.client,
      ground (arith, here, e, unregister_steps m l.client (login_enters l) (true ∷ [])),
      ground (
        arith,
        lookup-insert (login_key l) (login_key l) l.client m1.users,
        text_eq_refl (login_key l),
      ),
      gone,
      ground (arith, gone),
    )
