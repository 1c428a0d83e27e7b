-- ===== src/Ws/System/Goroutines/Known.antt =====
-- Whoever is entered as a user is logged in under that key, however the goroutines of the server take
-- their turns.
use microservices_trading_bo.Common.{
  ℕ, ◌≤◌, ◌≡◌, ◌≢◌, sym, ◌∙◌, Text, text_eq_iff, true, false, Bool, List, [], ◌∷◌, some, All,
  All-append, arith, Bool-cases, inl, inr, lookup, lookup-insert, lookup-delete, if◌then◌else◌,
  contains,
}
use microservices_trading_bo.Ws.Channel.{Run, done, ◌>>=◌, Ensures, Ensures->>=, send, send-buffer}
use microservices_trading_bo.Ws.Client.{Client, Login, client_key, login_key, enqueue, close_client}
use microservices_trading_bo.Ws.Manager.{
  Manager, write_heap, store, add_users, add_clients, del_clients, del_users, in_client,
}
use microservices_trading_bo.Ws.Manager.Events.{greeting, broadcast_to}
use microservices_trading_bo.Ws.System.Identity.{
  SameUser, SameUsers, client_key-SameUser, write_heap-SameUsers, enqueue-SameUser,
  close_client-SameUser, broadcast_to-SameUsers,
}
use microservices_trading_bo.Ws.System.Sound.{
  IsPending, Keeps, SameUsers-Keeps, All-map, Keeps-IsPending,
}
use microservices_trading_bo.Ws.System.Loops.{
  Stage, register_begins, register_greets, login_begins, login_enters, unregister_begins,
  unregister_users, unregister_closes, broadcast_begins, broadcast_sends, announces, finished, over,
  advance,
}

-- The client is logged in, under that key.
abbrev pub IsUser : (ℕ → Client) → Text → ℕ → Type 0
IsUser heap k p = (client_key (heap p) ≡ k) × ((heap p).user_id ≢ [])

-- The login that a goroutine has at hand is one of its client.
abbrev pub IsFair : (ℕ → Client) → Stage → Type 0
IsFair heap (login_begins l) = IsPending heap l
IsFair heap (login_enters l) = IsPending heap l
IsFair heap (announces l) = IsPending heap l
IsFair heap _ = Unit

pub record IsKnown (m : Manager) (ss : List Stage) : Type 0 where
  pub entries : (k : Text) (p : ℕ) → lookup k m.users ≡ some p → IsUser m.heap k p
  pub pending : All (IsPending m.heap) m.login_queue.buffer
  pub at_hand : All (IsFair m.heap) ss
  pub unused : (p : ℕ) → m.next ≤ p → (m.heap p).user_id ≡ []

Keeps-IsPending-one : (h k : ℕ → Client) (l : Login) → Keeps h k → IsPending h l → IsPending k l
Keeps-IsPending-one h k l keep p = (Keeps-IsPending h k (l ∷ []) keep (p, tt)).0

pub Keeps-IsFair : (h k : ℕ → Client) (s : Stage) → Keeps h k → IsFair h s → IsFair k s
Keeps-IsFair h k (login_begins l) keep p = Keeps-IsPending-one h k l keep p
Keeps-IsFair h k (login_enters l) keep p = Keeps-IsPending-one h k l keep p
Keeps-IsFair h k (announces l) keep p = Keeps-IsPending-one h k l keep p
Keeps-IsFair h k (register_begins p) keep f = tt
Keeps-IsFair h k (register_greets p) keep f = tt
Keeps-IsFair h k (unregister_begins p) keep f = tt
Keeps-IsFair h k (unregister_users p) keep f = tt
Keeps-IsFair h k (unregister_closes p) keep f = tt
Keeps-IsFair h k (broadcast_begins msg) keep f = tt
Keeps-IsFair h k (broadcast_sends msg ps) keep f = tt
Keeps-IsFair h k finished keep f = tt
Keeps-IsFair h k over keep f = tt

pub Keeps-IsUser :
    (h k : ℕ → Client) (key : Text) (p : ℕ) → Keeps h k → IsUser h key p → IsUser k key p
Keeps-IsUser h k key p keep (e, n) =
    let same = keep p n in (client_key-SameUser (h p) (k p) same ∙ e, λ f. n (sym same.1 ∙ f))

-- A new heap, with the users and the login queue as they were.
pub heap-IsKnown :
    (m : Manager) (h : ℕ → Client) (ss : List Stage)
    → SameUsers m.heap h
    → IsKnown m ss
    → IsKnown (record m { heap = h }) ss
heap-IsKnown m h ss s v =
    let keep = SameUsers-Keeps m.heap h s in
    record {
      entries = λ k p e. Keeps-IsUser m.heap h k p keep (v.entries k p e);
      pending = Keeps-IsPending m.heap h m.login_queue.buffer keep v.pending;
      at_hand = All-map (λ t f. Keeps-IsFair m.heap h t keep f) ss v.at_hand;
      unused = λ p n. (s p).1 ∙ v.unused p n;
    }

add_users-IsKnown :
    (m : Manager) (l : Login) (ss : List Stage)
    → IsPending m.heap l
    → IsKnown m ss
    → IsKnown (add_users m (login_key l) l.client) ss
unfolding add_users
add_users-IsKnown m l ss pend v = record {
  entries = λ k p e. ground (
    arith,
    lookup-insert (login_key l) k l.client m.users,
    text_eq_iff (login_key l) k,
    v.entries k p,
  );
  pending = v.pending;
  at_hand = v.at_hand;
  unused = v.unused;
}

del_clients-IsKnown :
    (m : Manager) (p : ℕ) (ss : List Stage) → IsKnown m ss → IsKnown (del_clients m p) ss
unfolding del_clients
del_clients-IsKnown m p ss v = elim (Bool-cases (contains p m.clients)) [
  | inl here ↦
      rw (del_clients, here)
        (record {
          entries = v.entries;
          pending = v.pending;
          at_hand = v.at_hand;
          unused = v.unused;
        })
  | inr out ↦ rw (del_clients, out) v
]

del_users-frame :
    (m : Manager) (p : ℕ)
    → let m' = (del_users m p).0 in
      (m'.heap ≡ m.heap)
      × (m'.next ≡ m.next)
      × (m'.login_queue ≡ m.login_queue)
      × ((k : Text) (q : ℕ) → lookup k m'.users ≡ some q → lookup k m.users ≡ some q)
unfolding del_users
del_users-frame m p = (
  ground arith,
  ground arith,
  ground arith,
  λ k q e. ground (arith, e, lookup-delete (client_key (m.heap p)) k m.users),
)

del_users-IsKnown :
    (m : Manager) (p : ℕ) (ss : List Stage) → IsKnown m ss → IsKnown (del_users m p).0 ss
del_users-IsKnown m p ss v =
    let (same_heap, same_next, same_queue, subset) = del_users-frame m p in
    record {
      entries = λ k q e. rw same_heap (v.entries k q (subset k q e));
      pending = rw (same_heap, same_queue) v.pending;
      at_hand = rw same_heap v.at_hand;
      unused = λ q n. rw same_heap (v.unused q (rw same_next at n));
    }

-- What a goroutine leaves, and what it has at hand then.
abbrev pub IsMove : List Stage → Manager × Stage → Type 0
IsMove ss r = IsKnown r.0 ss × IsFair r.0.heap r.1

if-IsFair :
    (h : ℕ → Client) (b : Bool) (s t : Stage)
    → IsFair h s
    → IsFair h t
    → IsFair h (if b then s else t)
if-IsFair h true s t f g = f
if-IsFair h false s t f g = g

stored-IsMove :
    (m : Manager) (p : ℕ) (r : Run Client) (ss : List Stage)
    → IsKnown m ss
    → ((c : Client) → r ≡ done c → SameUser (m.heap p) c)
    → Ensures (IsMove ss) (r >>= λ c. done (store m p c, finished))
stored-IsMove m p r ss v same = Ensures->>= (IsMove ss) r _ λ c e.
    (heap-IsKnown m (write_heap m.heap p c) ss (write_heap-SameUsers m.heap p c (same c e)) v, tt)

pub advance-IsMove :
    (m : Manager) (s : Stage) (ss : List Stage)
    → IsKnown m ss
    → IsFair m.heap s
    → Ensures (IsMove ss) (advance m s)
unfolding advance add_clients
advance-IsMove m (register_begins p) ss v f = (
  record { entries = v.entries; pending = v.pending; at_hand = v.at_hand; unused = v.unused },
  tt,
)
advance-IsMove m (register_greets p) ss v f =
    stored-IsMove m p (enqueue (m.heap p) greeting) ss v
      (λ c e. enqueue-SameUser (m.heap p) c greeting e)
advance-IsMove m (login_begins l) ss v f =
    (v, if-IsFair m.heap (in_client m l.client) (login_enters l) finished f tt)
advance-IsMove m (login_enters l) ss v f = (add_users-IsKnown m l ss f v, tt)
advance-IsMove m (unregister_begins p) ss v f = (del_clients-IsKnown m p ss v, tt)
advance-IsMove m (unregister_users p) ss v f = (
  del_users-IsKnown m p ss v,
  if-IsFair (del_users m p).0.heap (del_users m p).1 (unregister_closes p) finished tt tt,
)
advance-IsMove m (unregister_closes p) ss v f =
    stored-IsMove m p (close_client (m.heap p)) ss v (λ c e. close_client-SameUser (m.heap p) c e)
advance-IsMove m (broadcast_begins msg) ss v f = (v, tt)
advance-IsMove m (broadcast_sends msg []) ss v f = (v, tt)
advance-IsMove m (broadcast_sends msg (p ∷ ps)) ss v f =
    Ensures->>= (IsMove ss) (broadcast_to m.heap p msg) _
      λ h e. (heap-IsKnown m h ss (broadcast_to-SameUsers m.heap h p msg e) v, tt)
advance-IsMove m (announces l) ss v f = Ensures->>= (IsMove ss) (send m.login_queue l) _ λ queue e.
    (
      record {
        entries = v.entries;
        pending =
            rw (send-buffer m.login_queue queue l e)
              (All-append (IsPending m.heap) m.login_queue.buffer (l ∷ []) v.pending (f, tt));
        at_hand = v.at_hand;
        unused = v.unused;
      },
      tt,
    )
advance-IsMove m finished ss v f = (v, tt)
advance-IsMove m over ss v f = (v, tt)
