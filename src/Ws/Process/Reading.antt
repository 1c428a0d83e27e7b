-- ===== src/Ws/Process/Reading.antt =====
-- The end of a connection: data_server/ws/websocket/client.go, `Read`, and the broadcasts after it.
use microservices_trading_bo.Common.{ℕ, ◌≡◌, true, List, [], ◌∷◌, arith}
use microservices_trading_bo.Ws.Channel.{done, panicked, >>=-eq-done, close}
use microservices_trading_bo.Ws.Client.{Client, Message, close_client, read_end}
use microservices_trading_bo.Ws.Manager.{Manager, in_client}
use microservices_trading_bo.Ws.Manager.Events.{event_broadcast}
use microservices_trading_bo.Ws.Manager.Broadcast.{event_broadcast_panics}
use microservices_trading_bo.Ws.Process.{Wire, Handlers, process_data, read}

read_end-closes : (c d : Client) → read_end c ≡ done d → d.queue.closed ≡ true
unfolding read_end close_client close
read_end-closes c d e = ground arith

read-closes :
    (wire : Wire) (handlers : Handlers wire.Reply) (p : ℕ) (messages : List Message)
    (m m' : Manager)
    → read wire handlers p messages m ≡ done m'
    → (m'.heap p).queue.closed ≡ true
unfolding read
read-closes wire handlers p [] m m' e =
    let (c, ended, same) = >>=-eq-done (read_end (m.heap p)) _ e in
    ground (arith, read_end-closes (m.heap p) c ended, same)
read-closes wire handlers p (message ∷ messages) m m' e =
    let (m1, processed, rest) = >>=-eq-done (process_data wire handlers m p message) _ e in
    read-closes wire handlers p messages m1 m' rest

-- Once reading from a client has ended, whatever it sent before, its queue is closed; while the
-- client is still among the connected ones, every broadcast panics.
pub read-broadcast :
    (wire : Wire) (handlers : Handlers wire.Reply) (p : ℕ) (messages : List Message)
    (m m' : Manager) (msg : Message)
    → read wire handlers p messages m ≡ done m'
    → in_client m' p ≡ true
    → ((m'.heap p).queue.closed ≡ true) × (event_broadcast m' msg ≡ panicked)
read-broadcast wire handlers p messages m m' msg e here =
    let closed = read-closes wire handlers p messages m m' e in
    (closed, event_broadcast_panics m' msg p here closed)
