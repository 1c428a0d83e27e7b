-- ===== src/Bitso/Websocket.antt =====
-- data_server/bitso/websocket.go: the goroutine that reads the exchange's messages, the channel that
-- it fills, and the receiver that empties it. The connection and JSON are the record `Decoding`.
pub mod Laws
pub mod Structs
pub mod Messages
mod Tests
use microservices_trading_bo.Common.{
  ℕ, Text, codes, Bool, true, false, not, ◌&&◌, List, [], ◌∷◌, ◌++◌, Option, none, some,
  if◌then◌else◌, text_eq,
}
use microservices_trading_bo.Ws.Channel.{
  Channel, Run, done, blocked, panicked, ◌>>=◌, item, ended, waiting, make, send, receive,
}
use microservices_trading_bo.Bitso.Book.{Book}

-- `Type`, and whether `Payload` is other than nil; the other fields are in `Reply`.
pub record Head : Type 0 where
  pub type : Text
  pub has_payload : Bool

-- Each decoder is `json.Unmarshal` into the type named; none is its error.
pub record Decoding : Type 1 where
  pub Reply : Type 0
  pub DiffOrder : Type 0
  pub Order : Type 0
  pub Trade : Type 0
  pub head : Reply → Head
  pub reply : Text → Option Reply
  pub diff_order : Text → Option DiffOrder
  pub order : Text → Option Order
  pub trade : Text → Option Trade

-- `WebsocketMessage`
pub record WebsocketMessage : Type 0 where
  pub action : Text
  pub book : Option Book
  pub type : Text

-- The message that `Subscribe` writes.
unfoldable pub subscribe : Option Book → Text → WebsocketMessage
subscribe book channel_name = record {
  action = codes "subscribe";
  book = book;
  type = channel_name;
}

abbrev pub inbox_size : ℕ
inbox_size = 8

module _ (dec : Decoding) where
  open dec use {Reply, DiffOrder, Order, Trade}

  -- What is put in the inbox.
  pub data Item : Type 0 where
    diffs : DiffOrder → Item
    orders : Order → Item
    trades : Trade → Item
    replies : Reply → Item

  -- What a message leads to: the reader returns, or goes on with an item or without one.
  pub data Verdict : Type 0 where
    stops skips : Verdict
    puts : Item → Verdict

  unless_wrong : {A : Type 0} → (A → Item) → Option A → Verdict
  unless_wrong make_item none = stops
  unless_wrong make_item (some a) = puts (make_item a)

  -- The `switch` of the reader.
  unfoldable pub classify : Text → Verdict
  unfolding unless_wrong
  classify message = elim (dec.reply message) [
    | none ↦ stops
    | some reply ↦
        let head = dec.head reply in
        if text_eq head.type (codes "diff-orders") && head.has_payload
        then unless_wrong diffs (dec.diff_order message)
        else if text_eq head.type (codes "ka")
        then skips
        else if text_eq head.type (codes "orders") && head.has_payload
        then unless_wrong orders (dec.order message)
        else if text_eq head.type (codes "trades") && head.has_payload
        then unless_wrong trades (dec.trade message)
        else puts (replies reply)
  ]

  -- The reader has returned, and the connection is closed, if `closed`. `received` is what the
  -- receiver took, in that order.
  pub record Websocket : Type 0 where
    pub inbox : Channel Item
    pub closed : Bool
    pub received : List Item

  unfoldable pub new_websocket : Websocket
  new_websocket = record { inbox = make inbox_size; closed = false; received = [] }

  -- A message arrives, the connection fails, or the receiver takes an item.
  pub data Event : Type 0 where
    arrives : Text → Event
    breaks receives : Event

  -- A round of the reader.
  unfoldable pub read_message : Websocket → Text → Run Websocket
  unfolding classify send
  read_message ws message = elim (classify message) [
    | stops ↦ done (record ws { closed = true })
    | skips ↦ done ws
    | puts it ↦ (do inbox ← send ws.inbox it; done (record ws { inbox = inbox }))
  ]

  -- Once the reader has returned it reads nothing. The inbox is never closed.
  unfoldable pub step : Websocket → Event → Run Websocket
  unfolding read_message receive
  step ws (arrives message) = if ws.closed then done ws else read_message ws message
  step ws breaks = done (record ws { closed = true })
  step ws receives = elim (receive ws.inbox) [
    | item it inbox ↦ done (record ws { inbox = inbox; received = ws.received ++ it ∷ [] })
    | ended ↦ done ws
    | waiting ↦ blocked
  ]

  unfoldable pub run : Websocket → List Event → Run Websocket
  run ws [] = done ws
  run ws (e ∷ es) = step ws e >>= λ ws'. run ws' es
