-- ===== src/Bitso/Websocket/Tests.antt =====
-- Runs of the reader, at a concrete decoding.
use microservices_trading_bo.Common.{
  ◌≡◌, refl, Text, codes, text_eq, true, false, List, [], ◌∷◌, none, some, if◌then◌else◌,
}
use microservices_trading_bo.Ws.Channel.{send, receive}
use microservices_trading_bo.Bitso.Websocket.{
  Decoding, orders, trades, classify, Websocket, new_websocket, Event, arrives, receives,
  read_message, step, run,
}
use microservices_trading_bo.Bitso.Websocket.Laws.{items, run_relays}

-- A message is its own type, and has a payload.
abbrev plain : Decoding
plain = record {
  Reply = Text;
  DiffOrder = Text;
  Order = Text;
  Trade = Text;
  head = λ reply. record { type = reply; has_payload = true };
  reply = λ message. if text_eq message (codes "bad") then none else some message;
  diff_order = λ message. some message;
  order = λ message. some message;
  trade = λ message. some message;
}

abbrev history : List (Event plain)
history =
    arrives (codes "trades")
    ∷ arrives (codes "ka")
    ∷ arrives (codes "orders")
    ∷ receives
    ∷ arrives (codes "bad")
    ∷ arrives (codes "trades")
    ∷ []

abbrev after_history : Websocket plain
after_history = record {
  inbox = record { buffer = orders (codes "orders") ∷ []; capacity = 8; closed = false };
  closed = true;
  received = trades (codes "trades") ∷ [];
}

run_relays_example : trades (codes "trades") ∷ orders (codes "orders") ∷ [] ≡ items plain history
unfolding run step read_message classify send receive new_websocket text_eq
run_relays_example = run_relays plain history after_history refl

items-history : items plain history ≡ trades (codes "trades") ∷ orders (codes "orders") ∷ []
unfolding items classify text_eq
items-history = refl
