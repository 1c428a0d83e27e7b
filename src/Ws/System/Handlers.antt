-- ===== src/Ws/System/Handlers.antt =====
-- Each handler keeps the invariant of the server.
use microservices_trading_bo.Common.{
  ℕ, ◌<◌, ◌≡◌, ◌≢◌, refl, Text, text_eq_iff, text_eq_refl, true, false, [], ◌∷◌, some, All-append,
  arith, Bool-cases, inl, inr, lookup, lookup-insert, lookup-delete, contains, contains-add,
  contains-remove,
}
use microservices_trading_bo.Ws.Channel.{Ensures, Ensures->>=, send, send-buffer}
use microservices_trading_bo.Ws.Client.{
  Client, Login, Message, client_key, login_key, new_client, login, is_login, enqueue, close_client,
}
use microservices_trading_bo.Ws.Manager.{
  Manager, write_heap, in_client, add_users, add_clients, del_clients, del_users, get_clients,
}
use microservices_trading_bo.Ws.Manager.Events.{
  event_register, event_login, event_unregister, event_broadcast, ws_page, broadcast_each, greeting,
}
use microservices_trading_bo.Ws.System.{auth_login}
use microservices_trading_bo.Ws.System.Identity.{
  write_heap-SameUsers, enqueue-SameUser, close_client-SameUser, broadcast_each-SameUsers,
}
use microservices_trading_bo.Ws.System.Sound.{
  IsPending, IsSound, Keeps, Keeps-IsPending, Keeps-IsEntry, heap-IsSound,
}

pub ws_page-IsSound :
    (m : Manager) (addr : Text) (now : ℕ) → IsSound m → Ensures IsSound (ws_page m addr now)
unfolding ws_page new_client
ws_page-IsSound m addr now v = Ensures->>= IsSound (send m.register_queue m.next) _ λ queue _.
    record {
      entries = λ k p e. Keeps-IsEntry m.clients m.heap heap k p keep (v.entries k p e);
      pending = Keeps-IsPending m.heap heap m.login_queue.buffer keep v.pending;
      unused = λ p n. ground (arith, v.unused p);
    }
  where
    heap : ℕ → Client
    heap = write_heap m.heap m.next (new_client addr now)

    keep : Keeps m.heap heap
    keep p n = ground (arith, v.unused p)

logged_out : (c : Client) → is_login c ≡ false → c.user_id ≡ []
unfolding is_login
logged_out c e = ground (arith, text_eq_iff c.user_id [])

module _ (m : Manager) (p app_id : ℕ) (user_id : Text) (now : ℕ) (old : p < m.next)
    (named : user_id ≢ []) (v : IsSound m) where
  entered : ℕ → Client
  entered = write_heap m.heap p (login (m.heap p) app_id user_id now)

  entered-Keeps : is_login (m.heap p) ≡ false → Keeps m.heap entered
  unfolding entered
  entered-Keeps out q n = ground (arith, logged_out (m.heap p) out)

  entered-at : entered p ≡ login (m.heap p) app_id user_id now
  unfolding entered
  entered-at = ground arith

  entry : Login
  entry = record { app_id = app_id; user_id = user_id; client = p }

  entered-IsPending : IsPending entered entry
  unfolding entry login client_key login_key
  entered-IsPending = rw entered-at (refl, named)

  pub auth_login-IsSound : Ensures IsSound (auth_login m p app_id user_id now)
  unfolding auth_login entered entry
  auth_login-IsSound = elim (Bool-cases (is_login (m.heap p))) [
    | inl inside ↦ rw (inside, auth_login) v
    | inr out ↦
        rw (out, auth_login)
          (Ensures->>= IsSound (send m.login_queue entry) _ λ queue e.
            let keep = entered-Keeps out in
            record {
              entries = λ k q f. Keeps-IsEntry m.clients m.heap entered k q keep (v.entries k q f);
              pending = rw (send-buffer m.login_queue queue entry e) (
                  All-append (IsPending entered) m.login_queue.buffer (entry ∷ [])
                    (Keeps-IsPending m.heap entered m.login_queue.buffer keep v.pending)
                    (entered-IsPending, tt));
              unused = λ q n. ground (arith, v.unused q);
            })
  ]

pub event_register-IsSound :
    (m : Manager) (p : ℕ) → IsSound m → Ensures IsSound (event_register m p)
unfolding event_register add_clients
event_register-IsSound m p v = Ensures->>= IsSound (enqueue (m.heap p) greeting) _ λ c e.
    let same = write_heap-SameUsers m.heap p c (enqueue-SameUser (m.heap p) c greeting e) in
    let kept = heap-IsSound m (write_heap m.heap p c) v same in
    record {
      entries = λ k q f.
          let (here, key, named) = kept.entries k q f in
          (rw contains-add (ground arith), key, named);
      pending = kept.pending;
      unused = kept.unused;
    }

pub event_login-IsSound :
    (m : Manager) (l : Login) → IsPending m.heap l → IsSound m → IsSound (event_login m l)
unfolding event_login in_client add_users
event_login-IsSound m l pend v = record {
  entries = λ k p e. ground (
    arith,
    lookup-insert (login_key l) k l.client m.users,
    text_eq_iff (login_key l) k,
    v.entries k p,
  );
  pending = ground (arith, v.pending);
  unused = λ p n. ground (arith, v.unused p);
}

unregister_entry :
    (m : Manager) (p : ℕ) (k : Text) (q : ℕ)
    → IsSound m
    → lookup k (del_users (del_clients m p) p).0.users ≡ some q
    → (lookup k m.users ≡ some q) × (p ≢ q)
unfolding del_users del_clients
unregister_entry m p k q v e = ground (
  arith,
  text_eq_iff (client_key (m.heap p)) k,
  lookup-delete (client_key (m.heap p)) k m.users,
  text_eq_refl (m.heap p).addr,
  v.entries k q,
)

-- To take a client out of the maps changes nothing else.
del_users-frame :
    (m : Manager) (p : ℕ)
    → let m' = (del_users (del_clients m p) p).0 in
      (m'.heap ≡ m.heap) × (m'.next ≡ m.next) × (m'.login_queue ≡ m.login_queue)
unfolding del_users del_clients
del_users-frame m p = (ground arith, ground arith, ground arith)

del_users-clients :
    (m : Manager) (p q : ℕ)
    → contains q m.clients ≡ true
    → p ≢ q
    → contains q (del_users (del_clients m p) p).0.clients ≡ true
unfolding del_users del_clients
del_users-clients m p q h n = ground (arith, contains-remove p q m.clients)

removed-IsSound : (m : Manager) (p : ℕ) → IsSound m → IsSound (del_users (del_clients m p) p).0
removed-IsSound m p v =
    let (same_heap, same_next, same_queue) = del_users-frame m p in
    record {
      entries = λ k q e.
          let (old, other) = unregister_entry m p k q v e in
          let (here, key, named) = v.entries k q old in
          (del_users-clients m p q here other, rw same_heap key, rw same_heap named);
      pending = rw (same_heap, same_queue) v.pending;
      unused = λ q n. rw same_heap (v.unused q (rw same_next at n));
    }

pub event_unregister-IsSound :
    (m : Manager) (p : ℕ) → IsSound m → Ensures IsSound (event_unregister m p)
unfolding event_unregister
event_unregister-IsSound m p v =
    let m' = (del_users (del_clients m p) p).0 in
    let v' = removed-IsSound m p v in
    elim (Bool-cases (del_users (del_clients m p) p).1) [
      | inl gone ↦ rw gone (
          Ensures->>= IsSound (close_client (m'.heap p)) _ λ c e.
            heap-IsSound m' (write_heap m'.heap p c) v'
              (write_heap-SameUsers m'.heap p c (close_client-SameUser (m'.heap p) c e)))
      | inr kept ↦ rw kept v'
    ]

pub event_broadcast-IsSound :
    (m : Manager) (msg : Message) → IsSound m → Ensures IsSound (event_broadcast m msg)
unfolding event_broadcast
event_broadcast-IsSound m msg v =
    Ensures->>= IsSound (broadcast_each msg (get_clients m) m.heap) _
      λ h e. heap-IsSound m h v (broadcast_each-SameUsers msg (get_clients m) m.heap h e)
