-- ===== src/Ws/System/Identity.antt =====
-- What keeps the address, the platform and the user id of every client: all but a login.
use microservices_trading_bo.Common.{
  ℕ, ◌≡◌, refl, ◌∙◌, Bool, true, false, List, [], ◌∷◌, arith, if◌then◌else◌,
}
use microservices_trading_bo.Ws.Channel.{done, >>=-eq-done}
use microservices_trading_bo.Ws.Client.{
  Client, Message, client_key, enqueue, close_client, read_end, write, write_from, send_msg,
  is_heartbeat_timeout,
}
use microservices_trading_bo.Ws.Manager.{
  Manager, get_clients, write_heap, send_to, close_timed_out, clear_timeout_connections,
}
use microservices_trading_bo.Ws.Manager.Events.{broadcast_to, broadcast_each}

abbrev pub SameUser : Client → Client → Type 0
SameUser c d = (d.app_id ≡ c.app_id) × (d.user_id ≡ c.user_id) × (d.addr ≡ c.addr)

abbrev pub SameUsers : (ℕ → Client) → (ℕ → Client) → Type 0
SameUsers h k = (p : ℕ) → SameUser (h p) (k p)

pub client_key-SameUser : (c d : Client) → SameUser c d → client_key d ≡ client_key c
unfolding client_key
client_key-SameUser c d (a, u, _) = cc

pub SameUsers-refl : (h : ℕ → Client) → SameUsers h h
SameUsers-refl h p = (refl, refl, refl)

pub SameUsers-trans : (h k l : ℕ → Client) → SameUsers h k → SameUsers k l → SameUsers h l
SameUsers-trans h k l s t p = ((t p).0 ∙ (s p).0, (t p).1 ∙ (s p).1, (t p).2 ∙ (s p).2)

pub write_heap-SameUsers :
    (h : ℕ → Client) (p : ℕ) (c : Client) → SameUser (h p) c → SameUsers h (write_heap h p c)
write_heap-SameUsers h p c (a, u, d) q = ground arith

pub enqueue-SameUser : (c d : Client) (msg : Message) → enqueue c msg ≡ done d → SameUser c d
unfolding enqueue
enqueue-SameUser c d msg e = ground arith

pub close_client-SameUser : (c d : Client) → close_client c ≡ done d → SameUser c d
unfolding close_client
close_client-SameUser c d e = ground arith

pub read_end-SameUser : (c d : Client) → read_end c ≡ done d → SameUser c d
unfolding read_end
read_end-SameUser c d e = ground arith

write_from-SameUser : (ms : List Message) (c : Client) → SameUser c (write_from ms c).1
unfolding write_from
write_from-SameUser [] c = (refl, refl, refl)
write_from-SameUser (m ∷ ms) c =
    write_from-SameUser ms (record c { queue = record c.queue { buffer = ms } })

pub write-SameUser : (c : Client) → SameUser c (write c).1
unfolding write
write-SameUser c = write_from-SameUser c.queue.buffer c

pub broadcast_to-SameUsers :
    (h k : ℕ → Client) (p : ℕ) (msg : Message) → broadcast_to h p msg ≡ done k → SameUsers h k
unfolding broadcast_to
broadcast_to-SameUsers h k p msg e q = ground arith

pub broadcast_each-SameUsers :
    (msg : Message) (ps : List ℕ) (h k : ℕ → Client)
    → broadcast_each msg ps h ≡ done k
    → SameUsers h k
unfolding broadcast_each
broadcast_each-SameUsers msg [] h k e = λ q. ground arith
broadcast_each-SameUsers msg (p ∷ ps) h k e =
    let (g, first, later) = >>=-eq-done (broadcast_to h p msg) (broadcast_each msg ps) e in
    SameUsers-trans h g k (broadcast_to-SameUsers h g p msg first)
      (broadcast_each-SameUsers msg ps g k later)

pub send_to-SameUsers :
    (h k : ℕ → Client) (p : ℕ) (msg : Message) → send_to h p msg ≡ done k → SameUsers h k
unfolding send_to send_msg
send_to-SameUsers h k p msg e q = ground arith

if-SameUsers : (b : Bool) (h k : ℕ → Client) → SameUsers h k → SameUsers h (if b then k else h)
if-SameUsers true h k s = s
if-SameUsers false h k s = SameUsers-refl h

close_timed_out-SameUsers :
    (now : ℕ) (ps : List ℕ) (h : ℕ → Client) → SameUsers h (close_timed_out now ps h)
unfolding close_timed_out
close_timed_out-SameUsers now [] h = SameUsers-refl h
close_timed_out-SameUsers now (p ∷ ps) h =
    let late = is_heartbeat_timeout (h p) now in
    let closed : ℕ → Client = write_heap h p (record (h p) { socket_closed = true }) in
    let round : ℕ → Client = if late then closed else h in
    SameUsers-trans h round (close_timed_out now ps round)
      (if-SameUsers late h closed (write_heap-SameUsers h p _ (refl, refl, refl)))
      (close_timed_out-SameUsers now ps round)

pub clear_timeout_connections-SameUsers :
    (m : Manager) (now : ℕ) → SameUsers m.heap (clear_timeout_connections m now).heap
unfolding clear_timeout_connections
clear_timeout_connections-SameUsers m now = close_timed_out-SameUsers now (get_clients m) m.heap
