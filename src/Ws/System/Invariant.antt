-- ===== src/Ws/System/Invariant.antt =====
-- Every step of the server keeps its invariant, and so does every run.
use microservices_trading_bo.Common.{
  ◌≡◌, ◌≢◌, refl, List, [], ◌∷◌, All, ltb, ltb_iff, Bool-cases, inl, inr, lookup,
}
use microservices_trading_bo.Ws.Channel.{
  done, blocked, panicked, Ensures, Ensures->>=, Ensures-receipt, receive, receive-buffer, send,
}
use microservices_trading_bo.Ws.Client.{read_end, write}
use microservices_trading_bo.Ws.Manager.{
  Manager, write_heap, new_client_manager, clear_timeout_connections,
}
use microservices_trading_bo.Ws.Manager.Events.{Case, event_broadcast, start_round}
use microservices_trading_bo.Ws.System.{Event, step, run}
use microservices_trading_bo.Ws.System.Identity.{
  write_heap-SameUsers, read_end-SameUser, write-SameUser, clear_timeout_connections-SameUsers,
}
use microservices_trading_bo.Ws.System.Sound.{IsSound, heap-IsSound}
use microservices_trading_bo.Ws.System.Handlers.{
  ws_page-IsSound, auth_login-IsSound, event_register-IsSound, event_login-IsSound,
  event_unregister-IsSound, event_broadcast-IsSound,
}

start_round-IsSound : (m : Manager) (c : Case) → IsSound m → Ensures IsSound (start_round m c)
unfolding start_round
start_round-IsSound m Case.registers v =
    Ensures-receipt IsSound (receive m.register_queue) _ panicked blocked
      (λ p queue _.
        event_register-IsSound (record m { register_queue = queue }) p
          (record { entries = v.entries; pending = v.pending; unused = v.unused }))
      tt tt
start_round-IsSound m Case.logs_in v =
    Ensures-receipt IsSound (receive m.login_queue) _ panicked blocked
      (λ l queue e.
        let (first, later) = (rw (receive-buffer m.login_queue queue l e) at v.pending) in
        event_login-IsSound (record m { login_queue = queue }) l first
          (record { entries = v.entries; pending = later; unused = v.unused }))
      tt tt
start_round-IsSound m Case.unregisters v =
    Ensures-receipt IsSound (receive m.unregister_queue) _ panicked blocked
      (λ p queue _.
        event_unregister-IsSound (record m { unregister_queue = queue }) p
          (record { entries = v.entries; pending = v.pending; unused = v.unused }))
      tt tt
start_round-IsSound m Case.broadcasts v =
    Ensures-receipt IsSound (receive m.broadcast_queue) _ (event_broadcast m []) blocked
      (λ msg queue _.
        event_broadcast-IsSound (record m { broadcast_queue = queue }) msg
          (record { entries = v.entries; pending = v.pending; unused = v.unused }))
      (event_broadcast-IsSound m [] v) tt

-- Whoever logs in has a name that is not empty.
abbrev pub IsNamed : Event → Type 0
IsNamed (Event.logs_in p app_id user_id now) = user_id ≢ []
IsNamed _ = Unit

step-IsSound : (m : Manager) (e : Event) → IsNamed e → IsSound m → Ensures IsSound (step m e)
unfolding step clear_timeout_connections
step-IsSound m (Event.connects addr now) n v = ws_page-IsSound m addr now v
step-IsSound m (Event.logs_in p app_id user_id now) n v = elim (Bool-cases (ltb p m.next)) [
  | inl old ↦ rw old (auth_login-IsSound m p app_id user_id now ((ltb_iff p m.next).0 old) n v)
  | inr new ↦ rw new v
]
step-IsSound m (Event.read_ends p) n v = elim (Bool-cases (ltb p m.next)) [
  | inl old ↦ rw old (
      Ensures->>= IsSound (read_end (m.heap p)) _ λ c e.
        heap-IsSound m (write_heap m.heap p c) v
          (write_heap-SameUsers m.heap p c (read_end-SameUser (m.heap p) c e)))
  | inr new ↦ rw new v
]
step-IsSound m (Event.writes p) n v = elim (Bool-cases (ltb p m.next)) [
  | inl old ↦ rw old (
      heap-IsSound m (write_heap m.heap p (write (m.heap p)).1) v
        (write_heap-SameUsers m.heap p (write (m.heap p)).1 (write-SameUser (m.heap p))))
  | inr new ↦ rw new v
]
step-IsSound m (Event.asks_unregister p) n v = elim (Bool-cases (ltb p m.next)) [
  | inl old ↦ rw old (
      Ensures->>= IsSound (send m.unregister_queue p) _
        λ queue _. record { entries = v.entries; pending = v.pending; unused = v.unused })
  | inr new ↦ rw new v
]
step-IsSound m (Event.asks_broadcast msg) n v =
    Ensures->>= IsSound (send m.broadcast_queue msg) _
      λ queue _. record { entries = v.entries; pending = v.pending; unused = v.unused }
step-IsSound m (Event.rounds c) n v = start_round-IsSound m c v
step-IsSound m (Event.clears now) n v =
    heap-IsSound m (clear_timeout_connections m now).heap v
      (clear_timeout_connections-SameUsers m now)

run_from-IsSound :
    (m : Manager) (es : List Event) → All IsNamed es → IsSound m → Ensures IsSound (run m es)
unfolding run
run_from-IsSound m [] n v = v
run_from-IsSound m (e ∷ es) (n, ns) v =
    Ensures->>= IsSound (step m e) (λ m'. run m' es)
      λ m' f. run_from-IsSound m' es ns (rw f at (step-IsSound m e n v))

new-IsSound : IsSound new_client_manager
unfolding new_client_manager lookup
new-IsSound = record { entries = λ k p e. cc; pending = tt; unused = λ p n. refl }

-- With one loop of the manager, whose handlers nothing comes between, and nobody logging in with an
-- empty name: after any run every entry of the map of users leads to a client that is registered, is
-- logged in and has that key for its own; every login in the queue names a client that is logged in
-- under the same key; and no pointer beyond those handed out is logged in. (With two loops an entry
-- may lead to a client that is no longer registered: see Ws/System/Loops.antt.)
pub run-IsSound :
    (es : List Event) (m : Manager)
    → All IsNamed es
    → run new_client_manager es ≡ done m
    → IsSound m
run-IsSound es m n e = rw e at (run_from-IsSound new_client_manager es n new-IsSound)
