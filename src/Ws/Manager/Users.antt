-- ===== src/Ws/Manager/Users.antt =====
-- Who is entered as a user: after a login, and after a client is taken out.
use microservices_trading_bo.Common.{
  Option-cases, ℕ, ◌≡◌, ◌≢◌, Text, text_eq, text_eq_iff, text_eq_refl, true, false, ◌&&◌, none,
  some, arith, ◌==◌, if◌then◌else◌, inl, inr, lookup, lookup-insert, lookup-delete, delete,
  contains-remove,
}
use microservices_trading_bo.Ws.Channel.{done, close}
use microservices_trading_bo.Ws.Key.{get_user_key, get_user_key_injective}
use microservices_trading_bo.Ws.Client.{Login, client_key, login_key, close_client}
use microservices_trading_bo.Ws.Manager.{
  Manager, write_heap, in_client, add_users, get_user_client, del_clients, del_users,
}
use microservices_trading_bo.Ws.Manager.Events.{event_login, event_unregister}

-- Keys are compared as the platform and the user id are.
key_eq :
    (a b : ℕ) (u v : Text) → text_eq (get_user_key a u) (get_user_key b v) ≡ (a == b && text_eq u v)
key_eq a b u v = ground (
  arith,
  text_eq_iff (get_user_key a u) (get_user_key b v),
  text_eq_iff u v,
  get_user_key_injective a b u v,
)

-- After a login is handled, its user is found on its client if that is still connected; every other
-- user, and every user if it is not, is found where it was.
pub get_user_client-event_login :
    (m : Manager) (l : Login) (app_id : ℕ) (user_id : Text)
    → get_user_client (event_login m l) app_id user_id ≡ (
        if in_client m l.client && (l.app_id == app_id && text_eq l.user_id user_id)
        then some l.client
        else get_user_client m app_id user_id)
unfolding get_user_client event_login add_users login_key
get_user_client-event_login m l app_id user_id = rw (← key_eq l.app_id app_id l.user_id user_id) (
    ground (
      arith,
      lookup-insert (get_user_key l.app_id l.user_id) (get_user_key app_id user_id) l.client
          m.users,
    ))

without-current :
    (m : Manager) (p : ℕ)
    → lookup (client_key (m.heap p)) m.users ≡ some p
    → del_users (del_clients m p) p
      ≡ (record (del_clients m p) { users = delete (client_key (m.heap p)) m.users }, true)
unfolding del_users del_clients
without-current m p e = ground (arith, text_eq_refl (m.heap p).addr)

del_clients-frame :
    (m : Manager) (p : ℕ)
    → ((del_clients m p).heap ≡ m.heap) × (in_client (del_clients m p) p ≡ false)
unfolding del_clients in_client
del_clients-frame m p = (ground arith, ground (arith, contains-remove p p m.clients))

pub unregister_current :
    (m : Manager) (p : ℕ)
    → lookup (client_key (m.heap p)) m.users ≡ some p
    → (m.heap p).queue.closed ≡ false
    → (m' : Manager) × (event_unregister m p ≡ done m')
      × (in_client m' p ≡ false)
      × ((m'.heap p).queue.closed ≡ true)
      × ((k : Text)
          → lookup k m'.users
            ≡ (if text_eq (client_key (m.heap p)) k then none else lookup k m.users))
      × ((q : ℕ) → p ≢ q → m'.heap q ≡ m.heap q)
unfolding event_unregister close_client close in_client
unregister_current m p e open_queue = (
  left,
  ground (arith, without-current m p e, del_clients-frame m p),
  (del_clients-frame m p).1,
  ground arith,
  λ k. lookup-delete (client_key (m.heap p)) k m.users,
  λ q n. ground (arith, del_clients-frame m p),
)
  where
    left : Manager
    left = record (del_clients m p) {
      heap =
          write_heap m.heap p
            (record (m.heap p) { queue = record (m.heap p).queue { closed = true } });
      users = delete (client_key (m.heap p)) m.users;
    }

without-other :
    (m : Manager) (p : ℕ)
    → ((q : ℕ)
        → lookup (client_key (m.heap p)) m.users ≡ some q
        → (m.heap q).addr ≢ (m.heap p).addr)
    → del_users (del_clients m p) p ≡ (del_clients m p, false)
unfolding del_users del_clients
without-other m p other = elim (Option-cases (lookup (client_key (m.heap p)) m.users)) [
  | inl missing ↦ ground arith
  | inr (q, found) ↦
      ground (arith, found, other q found, text_eq_iff (m.heap q).addr (m.heap p).addr)
]

-- If the user's entry leads to a client with another address, or there is none, only the set of
-- connected clients changes: whoever took the user's place keeps it, and no queue is closed.
pub unregister_displaced :
    (m : Manager) (p : ℕ)
    → ((q : ℕ)
        → lookup (client_key (m.heap p)) m.users ≡ some q
        → (m.heap q).addr ≢ (m.heap p).addr)
    → event_unregister m p ≡ done (del_clients m p)
unfolding event_unregister
unregister_displaced m p other = ground (arith, without-other m p other)
