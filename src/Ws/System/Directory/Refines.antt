-- ===== src/Ws/System/Directory/Refines.antt =====
-- The handlers of data_server/ws/websocket/client_manager.go move the directory as its steps say.
use microservices_trading_bo.Common.{
  ℕ, ◌≡◌, refl, sym, ap, ◌∙◌, Text, text_eq, true, false, List, [], ◌∷◌, some, ◌==◌, if◌then◌else◌,
  lookup, delete, lookup-insert, lookup-delete, subst, contains-add, contains-remove, arith,
  Bool-cases, Option-cases, inl, inr,
}
use microservices_trading_bo.Ws.Channel.{done, ◌>>=◌, >>=-eq-done}
use microservices_trading_bo.Ws.Client.{
  Client, Login, Message, client_key, login_key, enqueue, close_client,
}
use microservices_trading_bo.Ws.Manager.{
  Manager, store, in_client, get_clients, add_clients, add_users, del_clients, del_users,
  clear_timeout_connections,
}
use microservices_trading_bo.Ws.Manager.Events.{
  greeting, event_register, event_login, event_unregister, event_broadcast, broadcast_each,
}
use microservices_trading_bo.Ws.System.Identity.{
  SameUsers, client_key-SameUser, enqueue-SameUser, close_client-SameUser, broadcast_each-SameUsers,
  clear_timeout_connections-SameUsers,
}
use microservices_trading_bo.Ws.System.Directory.{
  Directory, view, Job, registers, unregisters, logs_in, broadcasts, clears, work, work_all, note,
  note_all,
}

Directory-ext :
    (c d : Directory)
    → ((p : ℕ) → c.connected p ≡ d.connected p)
    → ((k : Text) → c.client_of k ≡ d.client_of k)
    → c ≡ d
Directory-ext c d f g = λ i. record { connected = λ p. f p i; client_of = λ k. g k i }

-- Two managers with the same maps look alike.
view-maps : (m m' : Manager) → m'.clients ≡ m.clients → m'.users ≡ m.users → view m' ≡ view m
unfolding view in_client
view-maps m m' c u = rw (c, u) refl

-- What is shown of a handler: the directory moves as `note` says, and no client changes its user.
abbrev Follows : Manager → Job → Manager → Type 0
Follows m j m' = (view m' ≡ note m.heap (view m) j) × SameUsers m.heap m'.heap

registers-view :
    (m m' : Manager) (p : ℕ) → event_register m p ≡ done m' → Follows m (registers p) m'
unfolding event_register view note in_client add_clients
registers-view m m' p e =
    let (c, queued, same) = >>=-eq-done (enqueue (m.heap p) greeting) _ e in
    let quiet = enqueue-SameUser (m.heap p) c greeting queued in
    (
      Directory-ext _ _ (λ q. ground (arith, same, contains-add p q m.clients))
          (λ k. ground (arith, same)),
      λ q. ground (arith, same, quiet),
    )

logs_in-view : (m : Manager) (l : Login) → Follows m (logs_in l) (event_login m l)
unfolding event_login view note in_client add_users
logs_in-view m l = (
  Directory-ext _ _ (λ q. ground arith)
      (λ k. ground (arith, lookup-insert (login_key l) k l.client m.users)),
  λ q. ground arith,
)

broadcasts-view :
    (m m' : Manager) (msg : Message)
    → event_broadcast m msg ≡ done m'
    → Follows m (broadcasts msg) m'
unfolding event_broadcast note
broadcasts-view m m' msg e =
    let (h, sent, same) = >>=-eq-done (broadcast_each msg (get_clients m) m.heap) _ e in
    let quiet = broadcast_each-SameUsers msg (get_clients m) m.heap h sent in
    (
      view-maps m m' (ground (arith, same)) (ground (arith, same)),
      λ q. ground (arith, same, quiet q),
    )

clears-view : (m : Manager) (now : ℕ) → Follows m (clears now) (clear_timeout_connections m now)
unfolding clear_timeout_connections note
clears-view m now = (
  view-maps m (clear_timeout_connections m now) refl refl,
  clear_timeout_connections-SameUsers m now,
)

del_clients-connected :
    (m : Manager) (p q : ℕ)
    → in_client (del_clients m p) q ≡ (if p == q then false else in_client m q)
unfolding in_client del_clients
del_clients-connected m p q = ground (arith, contains-remove p q m.clients)

del_clients-rest :
    (m : Manager) (p : ℕ) → ((del_clients m p).users ≡ m.users) × ((del_clients m p).heap ≡ m.heap)
unfolding del_clients
del_clients-rest m p = (ground arith, ground arith)

-- An entry that leads to a client of the same address goes, and the client's queue is closed.
event_unregister-near :
    (m : Manager) (p q : ℕ)
    → lookup (client_key (m.heap p)) m.users ≡ some q
    → text_eq (m.heap q).addr (m.heap p).addr ≡ true
    → event_unregister m p ≡ (
        close_client (m.heap p) >>= λ c.
        done
          (store (record (del_clients m p) { users = delete (client_key (m.heap p)) m.users }) p c))
unfolding event_unregister del_users del_clients
event_unregister-near m p q found near = ground (arith, found, near)

unregisters-view :
    (m m' : Manager) (p : ℕ) → event_unregister m p ≡ done m' → Follows m (unregisters p) m'
unfolding event_unregister view note del_users
unregisters-view m m' p e =
    let rest = del_clients-rest m p in
    elim (Option-cases (lookup (client_key (m.heap p)) m.users)) [
      | inl missing ↦ (
        Directory-ext _ _ (λ q. ground (arith, missing, del_clients-connected m p q, rest))
            (λ k. ground (arith, missing, rest)),
        λ q. ground (arith, missing, rest),
      )
      | inr (q, found) ↦ elim (Bool-cases (text_eq (m.heap q).addr (m.heap p).addr)) [
        | inl near ↦
            let (c, shut, same) =
              >>=-eq-done (close_client (m.heap p)) _
                (sym (event_unregister-near m p q found near) ∙ e) in
            let quiet = close_client-SameUser (m.heap p) c shut in
            (
              Directory-ext _ _
                  (λ r. ground (arith, found, near, same, del_clients-connected m p r, rest))
                  (λ k.
                    ground
                      (arith, found, near, same, lookup-delete (client_key (m.heap p)) k m.users)),
              λ r. ground (arith, same, rest, quiet),
            )
        | inr far ↦ (
          Directory-ext _ _ (λ r. ground (arith, found, far, del_clients-connected m p r, rest))
              (λ k. ground (arith, found, far, rest)),
          λ r. ground (arith, found, far, rest),
        )
      ]
    ]

done-subst : {a b : Manager} (P : Manager → Type 0) → done a ≡ done b → P a → P b
done-subst {a} P e t = let same : a ≡ _ = cc in subst P same t

work-view : (m m' : Manager) (j : Job) → work m j ≡ done m' → Follows m j m'
unfolding work
work-view m m' (registers p) e = registers-view m m' p e
work-view m m' (unregisters p) e = unregisters-view m m' p e
work-view m m' (logs_in l) e = done-subst (Follows m (logs_in l)) e (logs_in-view m l)
work-view m m' (broadcasts msg) e = broadcasts-view m m' msg e
work-view m m' (clears now) e = done-subst (Follows m (clears now)) e (clears-view m now)

note-SameUsers :
    (h k : ℕ → Client) (d : Directory) (j : Job) → SameUsers h k → note k d j ≡ note h d j
unfolding note
note-SameUsers h k d (registers p) s = refl
note-SameUsers h k d (unregisters p) s = elim (Option-cases (d.client_of (client_key (h p)))) [
  | inl missing ↦ rw (note, client_key-SameUser (h p) (k p) (s p), missing) refl
  | inr (q, found) ↦
      simp (note, client_key-SameUser (h p) (k p) (s p), found, (s p).2, (s q).2) refl
]
note-SameUsers h k d (logs_in l) s = refl
note-SameUsers h k d (broadcasts msg) s = refl
note-SameUsers h k d (clears now) s = refl

note_all-SameUsers :
    (h k : ℕ → Client) (d : Directory) (js : List Job)
    → SameUsers h k
    → note_all k d js ≡ note_all h d js
unfolding note_all
note_all-SameUsers h k d [] s = refl
note_all-SameUsers h k d (j ∷ js) s =
    rw (note-SameUsers h k d j s) (note_all-SameUsers h k (note h d j) js s)

-- A manager whose handlers all return is a directory: whatever connections are announced, logged in,
-- taken out, sent a broadcast or cleaned up, in any order, who is connected and which client each user
-- is found on afterwards is what the directory's own steps give, from the address, the platform and
-- the user id that the clients had at the start.
pub work_all-refines :
    (m m' : Manager) (js : List Job)
    → work_all m js ≡ done m'
    → view m' ≡ note_all m.heap (view m) js
unfolding work_all note_all
work_all-refines m m' [] e = ap view cc
work_all-refines m m' (j ∷ js) e =
    let (h, first, later) = >>=-eq-done (work m j) _ e in
    let (same, quiet) = work-view m h j first in
    work_all-refines h m' js later
    ∙ note_all-SameUsers m.heap h.heap (view h) js quiet
    ∙ ap (λ d. note_all m.heap d js) same
