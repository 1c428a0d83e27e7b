-- ===== src/Ws/System/Directory/Returns.antt =====
-- When the handlers of data_server/ws/websocket/client_manager.go return.
use microservices_trading_bo.Common.{
  ℕ, ◌<◌, ◌≡◌, ◌≢◌, ◌↔◌, refl, text_eq, true, false, List, [], ◌∷◌, some, lookup, length, arith,
  Bool-cases, Option-cases, inl, inr,
}
use microservices_trading_bo.Ws.Channel.{Run, done, blocked, panicked, Ensures, send, close}
use microservices_trading_bo.Ws.Client.{Client, Message, client_key, enqueue, close_client}
use microservices_trading_bo.Ws.Manager.{
  Manager, in_client, add_clients, del_clients, del_users, clear_timeout_connections,
}
use microservices_trading_bo.Ws.Manager.Events.{event_register, event_login, event_unregister}
use microservices_trading_bo.Ws.Manager.Broadcast.{event_broadcast_reaches, event_broadcast_panics}
use microservices_trading_bo.Ws.System.Directory.{
  Job, registers, unregisters, logs_in, broadcasts, clears, view, work, work_all, note_all,
}
use microservices_trading_bo.Ws.System.Directory.Refines.{work_all-refines}

-- A queue that a message can be put in.
abbrev IsOpen : Client → Type 0
IsOpen c = (c.queue.closed ≡ false) × (length c.queue.buffer < c.queue.capacity)

-- What a handler needs of the queues.
abbrev pub IsReady : Manager → Job → Type 0
IsReady m (registers p) = IsOpen (m.heap p)
IsReady m (unregisters p) =
    (q : ℕ)
    → lookup (client_key (m.heap p)) m.users ≡ some q
    → text_eq (m.heap q).addr (m.heap p).addr ≡ true
    → (m.heap p).queue.closed ≡ false
IsReady m (logs_in l) = Unit
IsReady m (broadcasts msg) = (q : ℕ) → in_client m q ≡ true → (m.heap q).queue.closed ≡ false
IsReady m (clears now) = Unit

abbrev Returns : Manager → Job → Type 0
Returns m j = (m' : Manager) × (work m j ≡ done m')

returns_unless : (r : Run Manager) → r ≢ blocked → r ≢ panicked → (m' : Manager) × (r ≡ done m')
returns_unless (done m') b p = (m', refl)
returns_unless blocked b p = absurd (b refl)
returns_unless panicked b p = absurd (p refl)

registers-Returns : (m : Manager) (p : ℕ) → Returns m (registers p) ↔ IsReady m (registers p)
unfolding work event_register enqueue send add_clients
registers-Returns m p = (
  λ (m', e). ground arith,
  λ r. returns_unless (work m (registers p)) (λ e. ground arith) (λ e. ground arith),
)

unregisters-Returns : (m : Manager) (p : ℕ) → Returns m (unregisters p) ↔ IsReady m (unregisters p)
unfolding work event_unregister close_client close del_clients del_users
unregisters-Returns m p = (
  λ (m', e) q found near. ground (arith, found, near),
  λ r. elim (Option-cases (lookup (client_key (m.heap p)) m.users)) [
    | inl missing ↦
        returns_unless (work m (unregisters p)) (λ e. ground (arith, missing))
          (λ e. ground (arith, missing))
    | inr (q, found) ↦
        returns_unless (work m (unregisters p)) (λ e. ground (arith, found, r q found))
          (λ e. ground (arith, found, r q found))
  ],
)

broadcasts-Returns :
    (m : Manager) (msg : Message) → Returns m (broadcasts msg) ↔ IsReady m (broadcasts msg)
unfolding work
broadcasts-Returns m msg = (
  λ (m', e) q c. elim (Bool-cases (m.heap q).queue.closed) [
    | inl shut ↦ absurd (ground (arith, e, event_broadcast_panics m msg q c shut))
    | inr open_queue ↦ open_queue
  ],
  λ r. let (m', e, _, _, _) = event_broadcast_reaches m msg r in (m', e),
)

-- A handler returns exactly if the queues are as it needs them: a new client's queue is open and has
-- room; the queue of a client whose entry goes is open; the queues of all connected clients are open
-- for a broadcast. A login and the clean-up return always.
pub work-IsReady_iff :
    (m : Manager) (j : Job) → ((m' : Manager) × (work m j ≡ done m')) ↔ IsReady m j
unfolding work
work-IsReady_iff m (registers p) = registers-Returns m p
work-IsReady_iff m (unregisters p) = unregisters-Returns m p
work-IsReady_iff m (logs_in l) = (λ e. tt, λ r. (event_login m l, refl))
work-IsReady_iff m (broadcasts msg) = broadcasts-Returns m msg
work-IsReady_iff m (clears now) = (λ e. tt, λ r. (clear_timeout_connections m now, refl))

-- Each handler finds the queues as it needs them when its turn comes.
abbrev pub AreReady : Manager → List Job → Type 0
AreReady m [] = Unit
AreReady m (j ∷ js) = IsReady m j × Ensures (λ m'. AreReady m' js) (work m j)

work_all-Returns :
    (m : Manager) (js : List Job) → AreReady m js → (m' : Manager) × (work_all m js ≡ done m')
unfolding work_all
work_all-Returns m [] r = (m, refl)
work_all-Returns m (j ∷ js) (now, later) =
    let (h, e) = (work-IsReady_iff m j).1 now in
    let (m', f) = work_all-Returns h js (rw e at later) in (m', rw e f)

-- A manager is a directory: if each handler finds the queues as it needs them, then whatever
-- connections are announced, logged in, taken out, sent a broadcast or cleaned up, in any order, all
-- handlers return; who is connected and which client each user is found on afterwards is what the
-- directory's own steps give, from the address, the platform and the user id that the clients had
-- at the start.
pub work_all-refines_note_all :
    (m : Manager) (js : List Job)
    → AreReady m js
    → (m' : Manager) × (work_all m js ≡ done m') × (view m' ≡ note_all m.heap (view m) js)
work_all-refines_note_all m js r =
    let (m', e) = work_all-Returns m js r in (m', e, work_all-refines m m' js e)
