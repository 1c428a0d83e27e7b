-- ===== src/Ws/Client.antt =====
-- data_server/ws/websocket/client.go: one connection and its queue of messages to send.
pub mod Fifo
use microservices_trading_bo.Common.{
  ℕ, ◌+◌, ◌%◌, Text, Bool, false, not, List, [], ◌∷◌, Option, none, some, leb, text_eq,
}
use microservices_trading_bo.Ws.Channel.{Channel, Run, done, ◌>>=◌, recover, make, send, close}
use microservices_trading_bo.Ws.Key.{get_user_key}

abbrev pub Message : Type 0
Message = Text

-- `Socket` is a connection of another library: what the server does to it is to close it.
pub record Client : Type 0 where
  pub addr : Text
  pub socket_closed : Bool
  pub queue : Channel Message
  pub app_id : ℕ
  pub user_id : Text
  pub first_time : ℕ
  pub heartbeat_time : ℕ
  pub login_time : ℕ

pub record Login : Type 0 where
  pub app_id : ℕ
  pub user_id : Text
  pub client : ℕ

unfoldable pub login_key : Login → Text
login_key l = get_user_key l.app_id l.user_id

abbrev pub heartbeat_expiration_time : ℕ
heartbeat_expiration_time = 360

-- 2 ^ 64
abbrev pub u64_mod : ℕ
u64_mod = 18446744073709551616

unfoldable pub new_client : Text → ℕ → Client
new_client addr first_time = record {
  addr = addr;
  socket_closed = false;
  queue = make 100;
  app_id = 0;
  user_id = [];
  first_time = first_time;
  heartbeat_time = first_time;
  login_time = 0;
}

unfoldable pub client_key : Client → Text
client_key c = get_user_key c.app_id c.user_id

unfoldable pub heartbeat : Client → ℕ → Client
heartbeat c now = record c { heartbeat_time = now }

unfoldable pub login : Client → ℕ → Text → ℕ → Client
unfolding heartbeat
login c app_id user_id now =
    heartbeat (record c { app_id = app_id; user_id = user_id; login_time = now }) now

-- The sum of two uint64 wraps around.
unfoldable pub is_heartbeat_timeout : Client → ℕ → Bool
is_heartbeat_timeout c now = leb ((c.heartbeat_time + heartbeat_expiration_time) % u64_mod) now

unfoldable pub is_login : Client → Bool
is_login c = not (text_eq c.user_id [])

-- `c.Send <- msg`
unfoldable pub enqueue : Client → Message → Run Client
unfolding send
enqueue c msg = do queue ← send c.queue msg; done (record c { queue = queue })

-- `SendMsg`, on a receiver that may be nil: a panic is recovered and drops the message.
unfoldable pub send_msg : Option Client → Message → Run (Option Client)
unfolding enqueue
send_msg none msg = done none
send_msg (some c) msg = recover (some c) (do c' ← enqueue c msg; done (some c'))

-- `close(c.Send)`
unfoldable pub close_client : Client → Run Client
unfolding close
close_client c = do queue ← close c.queue; done (record c { queue = queue })

-- The end of `Read`: the queue is closed, and a panic of that is recovered.
unfoldable pub read_end : Client → Run Client
unfolding close_client
read_end c = recover c (close_client c)

unfoldable pub write_from : List Message → Client → List Message × Client
write_from [] c = ([], c)
write_from (m ∷ rest) c =
    let (written, c') = write_from rest (record c { queue = record c.queue { buffer = rest } }) in
    (m ∷ written, c')

-- `Write` up to where it returns or waits: what it wrote, and the client then.
unfoldable pub write : Client → List Message × Client
unfolding write_from
write c = write_from c.queue.buffer c
