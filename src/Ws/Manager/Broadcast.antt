-- ===== src/Ws/Manager/Broadcast.antt =====
-- What a broadcast does to each connected client.
use microservices_trading_bo.Common.{
  ℕ, ◌≤◌, ◌≡◌, refl, sym, ◌∙◌, Bool, true, false, ◌||◌, List, [], ◌∷◌, length, arith, ==_iff, ltb,
  if◌then◌else◌, Bool-cases, inl, inr, contains, contains-add, add,
}
use microservices_trading_bo.Ws.Channel.{done, panicked, close, put}
use microservices_trading_bo.Ws.Client.{Client, Message}
use microservices_trading_bo.Ws.Manager.{Manager, write_heap, in_client, clients_range, get_clients}
use microservices_trading_bo.Ws.Manager.Events.{broadcast_to, broadcast_each, event_broadcast}

-- A list that names no pointer twice.
abbrev pub IsDistinct : List ℕ → Type 0
IsDistinct [] = Unit
IsDistinct (p ∷ ps) = (contains p ps ≡ false) × IsDistinct ps

gather : ℕ → List ℕ → List ℕ × Bool
gather p gathered = (add p gathered, true)

gathered-contains :
    (q : ℕ) (ps acc : List ℕ)
    → contains q (clients_range gather ps acc) ≡ (contains q acc || contains q ps)
unfolding clients_range gather contains
gathered-contains q [] acc = ground arith
gathered-contains q (p ∷ ps) acc =
    ground (arith, gathered-contains q ps (add p acc), contains-add p q acc)

add-IsDistinct : (p : ℕ) (ps : List ℕ) → IsDistinct ps → IsDistinct (add p ps)
unfolding add
add-IsDistinct p ps d = elim (Bool-cases (contains p ps)) [
  | inl old ↦ rw old d
  | inr new ↦ rw new (new, d)
]

gathered-IsDistinct : (ps acc : List ℕ) → IsDistinct acc → IsDistinct (clients_range gather ps acc)
unfolding clients_range gather
gathered-IsDistinct [] acc d = d
gathered-IsDistinct (p ∷ ps) acc d = gathered-IsDistinct ps (add p acc) (add-IsDistinct p acc d)

-- `GetClients` copies the set, each pointer once.
pub contains-get_clients : (m : Manager) (q : ℕ) → contains q (get_clients m) ≡ in_client m q
unfolding get_clients in_client gather contains
contains-get_clients m q = gathered-contains q m.clients []

get_clients-IsDistinct : (m : Manager) → IsDistinct (get_clients m)
unfolding get_clients gather
get_clients-IsDistinct m = gathered-IsDistinct m.clients [] tt

-- A client after a broadcast reached it with its queue open: the message is queued last if there is
-- room, and the queue is closed otherwise.
unfoldable pub reached : Client → Message → Client
reached c msg =
    if ltb (length c.queue.buffer) c.queue.capacity
    then record c { queue = put c.queue msg }
    else record c { queue = record c.queue { closed = true } }

broadcast_to_lem :
    (h : ℕ → Client) (p : ℕ) (msg : Message)
    → broadcast_to h p msg
      ≡ (if (h p).queue.closed then panicked else done (write_heap h p (reached (h p) msg)))
unfolding broadcast_to reached close
broadcast_to_lem h p msg = ground arith

-- The heap after the loop, where no queue was closed.
spread : Message → List ℕ → (ℕ → Client) → ℕ → Client
spread msg ps h q = if contains q ps then reached (h q) msg else h q

broadcast_each_lem :
    (msg : Message) (ps : List ℕ) (h : ℕ → Client)
    → IsDistinct ps
    → ((q : ℕ) → contains q ps ≡ true → (h q).queue.closed ≡ false)
    → (k : ℕ → Client) × (broadcast_each msg ps h ≡ done k) × ((q : ℕ) → k q ≡ spread msg ps h q)
unfolding broadcast_each spread contains
broadcast_each_lem msg [] h d o = (h, refl, λ q. refl)
broadcast_each_lem msg (p ∷ ps) h (new, d) o =
    let (k, done_k, at_k) =
      broadcast_each_lem msg ps (write_heap h p (reached (h p) msg)) d
        (λ q c. ground (arith, o q)) in
    (
      k,
      ground (arith, broadcast_to_lem h p msg, o p, done_k),
      λ q. at_k q ∙ ground (arith, ==_iff p q),
    )

broadcast_each_panics :
    (msg : Message) (ps : List ℕ) (h : ℕ → Client) (q : ℕ)
    → contains q ps ≡ true
    → (h q).queue.closed ≡ true
    → broadcast_each msg ps h ≡ panicked
unfolding broadcast_each contains
broadcast_each_panics msg [] h q c shut = cc
broadcast_each_panics msg (p ∷ ps) h q c shut = ground (
  arith,
  broadcast_to_lem h p msg,
  broadcast_each_panics msg ps (write_heap h p (reached (h p) msg)) q,
)

-- A broadcast with no closed queue among the connected clients is done: it leaves every connected
-- client as `reached` says (the message last in its queue, or the queue closed if there was no
-- room) and every other client as it was.
pub event_broadcast_reaches :
    (m : Manager) (msg : Message)
    → ((q : ℕ) → in_client m q ≡ true → (m.heap q).queue.closed ≡ false)
    → (m' : Manager) × (event_broadcast m msg ≡ done m')
      × ((q : ℕ) → m'.heap q ≡ (if in_client m q then reached (m.heap q) msg else m.heap q))
      × (m'.clients ≡ m.clients)
      × (m'.users ≡ m.users)
unfolding event_broadcast spread
event_broadcast_reaches m msg o =
    let (k, done_k, at_k) =
      broadcast_each_lem msg (get_clients m) m.heap (get_clients-IsDistinct m)
        (λ q c. o q (sym (contains-get_clients m q) ∙ c)) in
    (record m { heap = k }, rw done_k, λ q. at_k q ∙ rw (contains-get_clients m q), refl, refl)

-- One connected client whose queue is closed makes a broadcast panic, and with it the server.
pub event_broadcast_panics :
    (m : Manager) (msg : Message) (q : ℕ)
    → in_client m q ≡ true
    → (m.heap q).queue.closed ≡ true
    → event_broadcast m msg ≡ panicked
unfolding event_broadcast
event_broadcast_panics m msg q c shut =
    rw (broadcast_each_panics msg (get_clients m) m.heap q (contains-get_clients m q ∙ c) shut)

pub event_broadcast_twice :
    (m : Manager) (first second : Message) (q : ℕ)
    → ((p : ℕ) → in_client m p ≡ true → (m.heap p).queue.closed ≡ false)
    → in_client m q ≡ true
    → (m.heap q).queue.capacity ≤ length (m.heap q).queue.buffer
    → (m' : Manager) × (event_broadcast m first ≡ done m') × (event_broadcast m' second ≡ panicked)
unfolding in_client reached
event_broadcast_twice m first second q o c full =
    let (m', done_m', at_m', same, _) = event_broadcast_reaches m first o in
    (m', done_m', event_broadcast_panics m' second q (rw same c) (rw (at_m' q) (ground arith)))
