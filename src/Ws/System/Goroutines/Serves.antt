-- ===== src/Ws/System/Goroutines/Serves.antt =====
-- Every run of the server keeps the invariant, however its goroutines take their turns.
use microservices_trading_bo.Common.{
  ℕ, zero, suc, ◌<◌, ◌≡◌, ◌≢◌, refl, Text, text_eq_iff, List, [], ◌∷◌, ◌++◌, All, All-append, arith,
  Bool-cases, inl, inr, lookup, ltb, ltb_iff,
}
use microservices_trading_bo.Ws.Channel.{Run, done, blocked, panicked, ◌>>=◌, Ensures, Ensures->>=}
use microservices_trading_bo.Ws.Client.{Login, new_client, client_key, login_key, login, is_login}
use microservices_trading_bo.Ws.Manager.{Manager, write_heap, store, new_client_manager}
use microservices_trading_bo.Ws.System
use microservices_trading_bo.Ws.System.Sound.{IsPending, Keeps, All-map, Keeps-IsPending}
use microservices_trading_bo.Ws.System.Loops.{Stage, announces, finished, over, advance}
use microservices_trading_bo.Ws.System.Goroutines.{
  Server, new_server, Act, connects, read_ends, writes, asks_unregister, asks_broadcast, clears,
  logs_in, takes, goes_on, goroutine, put_goroutine, take, is_waiting, moved, begin_login, beside,
  serve_act, serve,
}
use microservices_trading_bo.Ws.System.Goroutines.Known.{
  IsFair, IsKnown, IsMove, Keeps-IsFair, Keeps-IsUser, advance-IsMove,
}
use microservices_trading_bo.Ws.System.Goroutines.Beside.{
  connects-IsKnown, read_ends-IsKnown, writes-IsKnown, asks_unregister-IsKnown,
  asks_broadcast-IsKnown, clears-IsKnown, take-IsMove,
}

goroutine-All :
    (P : Stage → Type 0) (ss : List Stage) (i : ℕ) → P over → All P ss → P (goroutine ss i)
unfolding goroutine
goroutine-All P [] i z a = z
goroutine-All P (s ∷ ss) zero z (p, a) = p
goroutine-All P (s ∷ ss) (suc i) z (p, a) = goroutine-All P ss i z a

put_goroutine-All :
    (P : Stage → Type 0) (ss : List Stage) (i : ℕ) (t : Stage)
    → P t
    → All P ss
    → All P (put_goroutine ss i t)
unfolding put_goroutine
put_goroutine-All P [] i t q a = tt
put_goroutine-All P (s ∷ ss) zero t q (p, a) = (q, a)
put_goroutine-All P (s ∷ ss) (suc i) t q (p, a) = (p, put_goroutine-All P ss i t q a)

abbrev pub IsSettled : Server → Type 0
IsSettled s = IsKnown s.manager s.goroutines

-- More goroutines.
more-IsKnown :
    (m : Manager) (ss ts : List Stage)
    → IsKnown m ss
    → All (IsFair m.heap) ts
    → IsKnown m (ss ++ ts)
more-IsKnown m ss ts v a = record {
  entries = v.entries;
  pending = v.pending;
  at_hand = All-append (IsFair m.heap) ss ts v.at_hand a;
  unused = v.unused;
}

moved-IsSettled :
    (s : Server) (i : ℕ) (r : Run (Manager × Stage))
    → Ensures (IsMove s.goroutines) r
    → Ensures IsSettled (r >>= λ r. done (moved s i r))
unfolding moved
moved-IsSettled s i (done (m, t)) (v, f) = record {
  entries = v.entries;
  pending = v.pending;
  at_hand = put_goroutine-All (IsFair m.heap) s.goroutines i t f v.at_hand;
  unused = v.unused;
}
moved-IsSettled s i blocked v = tt
moved-IsSettled s i panicked v = tt

beside-IsSettled :
    (s : Server) (e : System.Event)
    → Ensures (λ m. IsKnown m s.goroutines) (System.step s.manager e)
    → Ensures IsSettled (beside s e)
unfolding beside
beside-IsSettled s e h = Ensures->>= IsSettled (System.step s.manager e) _ λ m f. rw f at h

begin_login-IsSettled :
    (s : Server) (p app_id : ℕ) (user_id : Text) (now : ℕ)
    → p < s.manager.next
    → user_id ≢ []
    → IsSettled s
    → IsSettled (begin_login s p app_id user_id now)
unfolding begin_login is_login login client_key login_key
begin_login-IsSettled s p app_id user_id now old named v =
    elim (Bool-cases (is_login (s.manager.heap p))) [
      | inl inside ↦ rw (begin_login, inside) v
      | inr out ↦
          let m = s.manager in
          let h = write_heap m.heap p (login (m.heap p) app_id user_id now) in
          let keep : Keeps m.heap h =
            λ q n. ground (arith, out, text_eq_iff (m.heap p).user_id [], n) in
          let at_p : h p ≡ login (m.heap p) app_id user_id now = ground arith in
          let l : Login = record { app_id = app_id; user_id = user_id; client = p } in
          let pend : IsPending h l = rw at_p (refl, named) in
          rw (begin_login, out)
            (more-IsKnown (store m p (login (m.heap p) app_id user_id now)) s.goroutines
              (announces l ∷ [])
              (record {
                entries = λ k q e. Keeps-IsUser m.heap h k q keep (v.entries k q e);
                pending = Keeps-IsPending m.heap h m.login_queue.buffer keep v.pending;
                at_hand = All-map (λ t f. Keeps-IsFair m.heap h t keep f) s.goroutines v.at_hand;
                unused = λ q n. ground (arith, v.unused q, old, n);
              })
              (pend, tt))
    ]

-- Whoever logs in has a name that is not empty.
abbrev pub IsNamed : Act → Type 0
IsNamed (logs_in p app_id user_id now) = user_id ≢ []
IsNamed _ = Unit

serve_act-IsSettled :
    (s : Server) (a : Act) → IsNamed a → IsSettled s → Ensures IsSettled (serve_act s a)
unfolding serve_act
serve_act-IsSettled s (connects addr now) n v =
    Ensures->>= IsSettled (beside s (System.Event.connects addr now)) _ λ s' e.
      more-IsKnown s'.manager s'.goroutines (finished ∷ [])
        (rw e at (
          beside-IsSettled s (System.Event.connects addr now)
            (connects-IsKnown s.manager s.goroutines v addr now)))
        (tt, tt)
serve_act-IsSettled s (read_ends p) n v =
    beside-IsSettled s (System.Event.read_ends p) (read_ends-IsKnown s.manager s.goroutines v p)
serve_act-IsSettled s (writes p) n v =
    beside-IsSettled s (System.Event.writes p) (writes-IsKnown s.manager s.goroutines v p)
serve_act-IsSettled s (asks_unregister p) n v =
    beside-IsSettled s (System.Event.asks_unregister p)
      (asks_unregister-IsKnown s.manager s.goroutines v p)
serve_act-IsSettled s (asks_broadcast msg) n v =
    beside-IsSettled s (System.Event.asks_broadcast msg)
      (asks_broadcast-IsKnown s.manager s.goroutines v msg)
serve_act-IsSettled s (clears now) n v =
    beside-IsSettled s (System.Event.clears now) (clears-IsKnown s.manager s.goroutines v now)
serve_act-IsSettled s (logs_in p app_id user_id now) n v =
    elim (Bool-cases (ltb p s.manager.next)) [
      | inl old ↦
          rw old
            (begin_login-IsSettled s p app_id user_id now ((ltb_iff p s.manager.next).0 old) n v)
      | inr new ↦ rw new v
    ]
serve_act-IsSettled s (takes i c) n v = elim (Bool-cases (is_waiting (goroutine s.goroutines i))) [
  | inl free ↦
      rw free (moved-IsSettled s i (take s.manager c) (take-IsMove s.manager s.goroutines v c))
  | inr busy ↦ rw busy v
]
serve_act-IsSettled s (goes_on i) n v =
    moved-IsSettled s i (advance s.manager (goroutine s.goroutines i)) (
      advance-IsMove s.manager (goroutine s.goroutines i) s.goroutines v
        (goroutine-All (IsFair s.manager.heap) s.goroutines i tt v.at_hand))

serve_from-IsSettled :
    (s : Server) (acts : List Act)
    → All IsNamed acts
    → IsSettled s
    → Ensures IsSettled (serve s acts)
unfolding serve
serve_from-IsSettled s [] n v = v
serve_from-IsSettled s (a ∷ acts) (n, ns) v =
    Ensures->>= IsSettled (serve_act s a) (λ s'. serve s' acts)
      λ s' f. serve_from-IsSettled s' acts ns (rw f at (serve_act-IsSettled s a n v))

new_server-IsSettled : IsSettled new_server
unfolding new_client_manager lookup new_client
new_server-IsSettled = record {
  entries = λ k p e. cc;
  pending = tt;
  at_hand = tt;
  unused = λ p n. refl;
}

-- After any run of the server, with a loop of the manager for each connection, and the loops and the
-- logins taking turns between the calls of the manager's methods in any way, in which nobody logs in
-- with an empty name: every entry of the map of users leads to a client that is logged in and has
-- that key for its own; every login in the queue, in the hands of AuthController or of a loop names
-- a client that is logged in under the same key; and no pointer beyond those handed out is logged in.
pub serve-IsSettled :
    (acts : List Act) (s : Server) → All IsNamed acts → serve new_server acts ≡ done s → IsSettled s
serve-IsSettled acts s n e = rw e at (serve_from-IsSettled new_server acts n new_server-IsSettled)
