-- ===== src/Bitso/Websocket/Messages/Sent.antt =====
-- The messages that the exchange sends to data_server/bitso/websocket.go, as JSON.
use microservices_trading_bo.Common.{
  ◌≡◌, Text, codes, text_eq, true, false, List, [], ◌∷◌, All, some, ok, show_nat,
}
use microservices_trading_bo.Bitso.Book.{Book, book_string}
use microservices_trading_bo.Bitso.Value.{
  Value, null, num, str, array, object, Items, nil, cons, Fields, end, field,
}
use microservices_trading_bo.Bitso.Answers.Sound.{IsBook}
use microservices_trading_bo.Bitso.Websocket.{diffs, orders, trades, replies, Verdict, skips, puts}
use microservices_trading_bo.Bitso.Websocket.Structs.{
  TradeEntry, WebsocketTrade, DiffEntry, WebsocketDiffOrder, OrderEntry, WebsocketOrder,
}
use microservices_trading_bo.Bitso.Websocket.Messages.{WireFormat, no_reply, decoding}
use microservices_trading_bo.Bitso.Websocket.Messages.Numbers.{show_int}
use microservices_trading_bo.Bitso.Websocket.Messages.Sound.{
  IsOrderEntry, IsDiffOrder, IsWebsocketTrade,
}

abbrev pub array_of : {A : Type 0} → (A → Fields) → List A → Items
array_of fields [] = nil
array_of fields (a ∷ rest) = cons (object (fields a)) (array_of fields rest)

abbrev pub trade_entry_fields : TradeEntry → Fields
trade_entry_fields t = field (codes "i") (num (show_nat t.tid)) (
    field (codes "a") (str t.amount) (
      field (codes "r") (str t.price) (
        field (codes "v") (str t.value) (
          field (codes "mo") (str t.maker_order_id)
            (field (codes "to") (str t.taker_order_id) end)))))

abbrev pub diff_entry_fields : DiffEntry → Fields
diff_entry_fields t = field (codes "d") (num (show_nat t.timestamp)) (
    field (codes "r") (str t.price) (
      field (codes "t") (num (show_int t.position)) (
        field (codes "a") (str t.amount)
          (field (codes "v") (str t.value) (field (codes "o") (str t.order_id) end)))))

-- A message of the exchange: on a channel, one that keeps the connection alive, or the answer to a
-- subscription, which has no payload.
pub data Sent (Float : Type 0) : Type 0 where
  trade_sent : WebsocketTrade → Sent Float
  diff_sent : WebsocketDiffOrder → Sent Float
  order_sent : WebsocketOrder Float → Sent Float
  kept_alive : Sent Float
  answered : (action response channel : Text) → Sent Float

-- A message on a channel.
abbrev pub on_channel : Text → Book → Value → Value
on_channel channel book payload = object (
    field (codes "type") (str channel)
      (field (codes "book") (str (book_string book)) (field (codes "payload") payload end)))

module _ (wire : WireFormat) (show_float : wire.Float → Text) where
  abbrev pub order_entry_fields : OrderEntry wire.Float → Fields
  order_entry_fields t = field (codes "r") (num (show_float t.price)) (
      field (codes "a") (num (show_float t.amount)) (
        field (codes "t") (num (show_int t.position)) (
          field (codes "v") (num (show_float t.value))
            (field (codes "d") (num (show_nat t.timestamp)) end))))

  -- The payload of a message on a channel.
  abbrev pub payload_of : Sent wire.Float → Value
  payload_of (trade_sent t) = array (array_of trade_entry_fields t.payload)
  payload_of (diff_sent d) = array (array_of diff_entry_fields d.payload)
  payload_of (order_sent o) = object (
      field (codes "bids") (array (array_of order_entry_fields o.payload.bids))
        (field (codes "asks") (array (array_of order_entry_fields o.payload.asks)) end))
  payload_of kept_alive = null
  payload_of (answered action response channel) = null

  abbrev pub written : Sent wire.Float → Value
  written (trade_sent t) = on_channel (codes "trades") t.book (payload_of (trade_sent t))
  written (diff_sent d) = on_channel (codes "diff-orders") d.book (payload_of (diff_sent d))
  written (order_sent o) = on_channel (codes "orders") o.book (payload_of (order_sent o))
  written kept_alive = object (field (codes "type") (str (codes "ka")) end)
  written (answered action response channel) = object (
      field (codes "action") (str action)
        (field (codes "response") (str response) (field (codes "type") (str channel) end)))

  -- An `interface{}` takes the payload, and then is other than nil.
  abbrev pub IsTaken : Value → Type 0
  IsTaken v =
      (a : wire.dyn.Any) × (wire.dyn.set_any wire.dyn.nothing v ≡ ok a) × (wire.present a ≡ true)

  -- The numbers of an entry are read back from their text.
  abbrev pub IsShown : OrderEntry wire.Float → Type 0
  IsShown t =
      IsOrderEntry t
      × (wire.parse_float (show_float t.price) ≡ some t.price)
      × (wire.parse_float (show_float t.amount) ≡ some t.amount)
      × (wire.parse_float (show_float t.value) ≡ some t.value)

  -- What can be sent so: books that their names are parsed to, numbers that fit, and an answer for a
  -- channel under another name than that of the messages that keep alive.
  abbrev pub IsSendable : Sent wire.Float → Type 0
  IsSendable (trade_sent t) = IsWebsocketTrade wire.reading t × IsTaken (payload_of (trade_sent t))
  IsSendable (diff_sent d) = IsDiffOrder wire.reading d × IsTaken (payload_of (diff_sent d))
  IsSendable (order_sent o) =
      IsBook wire.reading o.book
      × All IsShown o.payload.bids
      × All IsShown o.payload.asks
      × IsTaken (payload_of (order_sent o))
  IsSendable kept_alive = Unit
  IsSendable (answered action response channel) =
      (text_eq channel (codes "ka") ≡ false) × (wire.present wire.dyn.nothing ≡ false)

  -- What the receiver is to get.
  abbrev pub item_of : Sent wire.Float → Verdict (decoding wire)
  item_of (trade_sent t) = puts (trades t)
  item_of (diff_sent d) = puts (diffs d)
  item_of (order_sent o) = puts (orders o)
  item_of kept_alive = skips
  item_of (answered action response channel) =
      puts
        (replies (record (no_reply wire) { action = action; response = response; type = channel }))
