-- ===== src/Bitso/Websocket/Messages.antt =====
-- data_server/bitso/websocket.go: the decoding of the messages that the exchange sends, which is what the reader of Bitso/Websocket.antt goes by.
pub mod Numbers
pub mod Sound
pub mod Received
pub mod Sent
pub mod Again
pub mod Delivered
mod Tests
use microservices_trading_bo.Common.{
  ℕ, Text, codes, Bool, List, [], ◌∷◌, Option, none, some, Outcome, ok, err, panics,
}
use microservices_trading_bo.Bitso.Atoi.{ℤ, pos}
use microservices_trading_bo.Bitso.Json.{Error}
use microservices_trading_bo.Bitso.Book.{Book}
use microservices_trading_bo.Bitso.Payload.{Monetary}
use microservices_trading_bo.Bitso.Value.{Value, Setter, on_field, set_text, set_list, set_struct}
use microservices_trading_bo.Bitso.Answers.{Reading, Dynamic, no_book, book_setter}
use microservices_trading_bo.Bitso.Websocket.{Decoding}
use microservices_trading_bo.Bitso.Websocket.Structs.{
  WebsocketReply, TradeEntry, WebsocketTrade, DiffEntry, WebsocketDiffOrder, OrderEntry, Levels,
  WebsocketOrder,
}
use microservices_trading_bo.Bitso.Websocket.Messages.Numbers.{set_uint, set_int, set_float}

-- What the decoding stands on: the syntax of JSON, `interface{}`, whether one is other than nil, and
-- `float64` with `strconv.ParseFloat`, which is none for an error.
pub record WireFormat : Type 1 where
  pub parse : Text → Option Value
  pub reading : Reading
  pub dyn : Dynamic
  pub present : dyn.Any → Bool
  pub Float : Type 0
  pub zero_float : Float
  pub parse_float : Text → Option Float

abbrev pub no_trade_entry : TradeEntry
no_trade_entry = record {
  tid = 0;
  amount = [];
  price = [];
  value = [];
  maker_order_id = [];
  taker_order_id = [];
}

abbrev pub trade_entry_setters : List (Text × Setter TradeEntry)
trade_entry_setters =
    (codes "i", on_field (λ s. s.tid) (λ s x. record s { tid = x }) set_uint)
    ∷ (codes "a", on_field (λ s. s.amount) (λ s x. record s { amount = x }) set_text)
    ∷ (codes "r", on_field (λ s. s.price) (λ s x. record s { price = x }) set_text)
    ∷ (codes "v", on_field (λ s. s.value) (λ s x. record s { value = x }) set_text)
    ∷ (
      codes "mo",
      on_field (λ s. s.maker_order_id) (λ s x. record s { maker_order_id = x }) set_text,
    )
    ∷ (
      codes "to",
      on_field (λ s. s.taker_order_id) (λ s x. record s { taker_order_id = x }) set_text,
    )
    ∷ []

abbrev pub no_diff_entry : DiffEntry
no_diff_entry = record {
  timestamp = 0;
  price = [];
  position = pos 0;
  amount = [];
  value = [];
  order_id = [];
}

abbrev pub diff_entry_setters : List (Text × Setter DiffEntry)
diff_entry_setters =
    (codes "d", on_field (λ s. s.timestamp) (λ s x. record s { timestamp = x }) set_uint)
    ∷ (codes "r", on_field (λ s. s.price) (λ s x. record s { price = x }) set_text)
    ∷ (codes "t", on_field (λ s. s.position) (λ s x. record s { position = x }) set_int)
    ∷ (codes "a", on_field (λ s. s.amount) (λ s x. record s { amount = x }) set_text)
    ∷ (codes "v", on_field (λ s. s.value) (λ s x. record s { value = x }) set_text)
    ∷ (codes "o", on_field (λ s. s.order_id) (λ s x. record s { order_id = x }) set_text)
    ∷ []

unfoldable pub set_trade_entry : Setter TradeEntry
unfolding set_struct
set_trade_entry = set_struct trade_entry_setters

unfoldable pub set_diff_entry : Setter DiffEntry
unfolding set_struct
set_diff_entry = set_struct diff_entry_setters

-- An error counts as none; so does a panic, which no decoding ends in.
abbrev pub to_option : {A : Type 0} → Outcome Error A → Option A
to_option (ok a) = some a
to_option (err e) = none
to_option panics = none

module _ (wire : WireFormat) where
  abbrev pub no_reply : WebsocketReply wire.dyn.Any
  no_reply = record { action = []; response = []; time = 0; type = []; payload = wire.dyn.nothing }

  abbrev pub reply_setters : List (Text × Setter (WebsocketReply wire.dyn.Any))
  reply_setters =
      (codes "action", on_field (λ s. s.action) (λ s x. record s { action = x }) set_text)
      ∷ (codes "response", on_field (λ s. s.response) (λ s x. record s { response = x }) set_text)
      ∷ (codes "time", on_field (λ s. s.time) (λ s x. record s { time = x }) set_uint)
      ∷ (codes "type", on_field (λ s. s.type) (λ s x. record s { type = x }) set_text)
      ∷ (
        codes "payload",
        on_field (λ s. s.payload) (λ s x. record s { payload = x }) wire.dyn.set_any,
      )
      ∷ []

  unfoldable pub set_reply : Setter (WebsocketReply wire.dyn.Any)
  unfolding set_struct
  set_reply = set_struct reply_setters

  abbrev pub no_websocket_trade : WebsocketTrade
  no_websocket_trade = record { book = no_book; payload = [] }

  abbrev pub websocket_trade_setters : List (Text × Setter WebsocketTrade)
  websocket_trade_setters =
      (
        codes "Book",
        on_field (λ s. s.book) (λ s x. record s { book = x }) (book_setter wire.reading),
      )
      ∷ (
        codes "Payload",
        on_field (λ s. s.payload) (λ s x. record s { payload = x })
            (set_list no_trade_entry set_trade_entry),
      )
      ∷ []

  unfoldable pub set_websocket_trade : Setter WebsocketTrade
  unfolding set_struct
  set_websocket_trade = set_struct websocket_trade_setters

  abbrev pub no_diff_order : WebsocketDiffOrder
  no_diff_order = record { book = no_book; payload = [] }

  abbrev pub diff_order_setters : List (Text × Setter WebsocketDiffOrder)
  diff_order_setters =
      (
        codes "Book",
        on_field (λ s. s.book) (λ s x. record s { book = x }) (book_setter wire.reading),
      )
      ∷ (
        codes "Payload",
        on_field (λ s. s.payload) (λ s x. record s { payload = x })
            (set_list no_diff_entry set_diff_entry),
      )
      ∷ []

  unfoldable pub set_diff_order : Setter WebsocketDiffOrder
  unfolding set_struct
  set_diff_order = set_struct diff_order_setters

  abbrev pub float_setter : Setter wire.Float
  float_setter = set_float wire.parse_float

  abbrev pub no_order_entry : OrderEntry wire.Float
  no_order_entry = record {
    price = wire.zero_float;
    amount = wire.zero_float;
    position = pos 0;
    value = wire.zero_float;
    timestamp = 0;
  }

  abbrev pub order_entry_setters : List (Text × Setter (OrderEntry wire.Float))
  order_entry_setters =
      (codes "r", on_field (λ s. s.price) (λ s x. record s { price = x }) float_setter)
      ∷ (codes "a", on_field (λ s. s.amount) (λ s x. record s { amount = x }) float_setter)
      ∷ (codes "t", on_field (λ s. s.position) (λ s x. record s { position = x }) set_int)
      ∷ (codes "v", on_field (λ s. s.value) (λ s x. record s { value = x }) float_setter)
      ∷ (codes "d", on_field (λ s. s.timestamp) (λ s x. record s { timestamp = x }) set_uint)
      ∷ []

  unfoldable pub set_order_entry : Setter (OrderEntry wire.Float)
  unfolding set_struct
  set_order_entry = set_struct order_entry_setters

  abbrev pub no_levels : Levels wire.Float
  no_levels = record { bids = []; asks = [] }

  abbrev pub levels_setters : List (Text × Setter (Levels wire.Float))
  levels_setters =
      (
        codes "bids",
        on_field (λ s. s.bids) (λ s x. record s { bids = x })
            (set_list no_order_entry set_order_entry),
      )
      ∷ (
        codes "asks",
        on_field (λ s. s.asks) (λ s x. record s { asks = x })
            (set_list no_order_entry set_order_entry),
      )
      ∷ []

  unfoldable pub set_levels : Setter (Levels wire.Float)
  unfolding set_struct
  set_levels = set_struct levels_setters

  abbrev pub no_websocket_order : WebsocketOrder wire.Float
  no_websocket_order = record { book = no_book; payload = no_levels }

  abbrev pub websocket_order_setters : List (Text × Setter (WebsocketOrder wire.Float))
  websocket_order_setters =
      (
        codes "Book",
        on_field (λ s. s.book) (λ s x. record s { book = x }) (book_setter wire.reading),
      )
      ∷ (codes "payload", on_field (λ s. s.payload) (λ s x. record s { payload = x }) set_levels)
      ∷ []

  unfoldable pub set_websocket_order : Setter (WebsocketOrder wire.Float)
  unfolding set_struct
  set_websocket_order = set_struct websocket_order_setters

  -- `json.Unmarshal(data, &res)`
  unfoldable pub unmarshal : {A : Type 0} → A → Setter A → Text → Option A
  unmarshal zero_value set message = elim (wire.parse message) [
    | none ↦ none
    | some v ↦ to_option (set zero_value v)
  ]

  -- The decoders of the reader.
  abbrev pub decoding : Decoding
  decoding = record {
    Reply = WebsocketReply wire.dyn.Any;
    DiffOrder = WebsocketDiffOrder;
    Order = WebsocketOrder wire.Float;
    Trade = WebsocketTrade;
    head = λ reply. record { type = reply.type; has_payload = wire.present reply.payload };
    reply = unmarshal no_reply set_reply;
    diff_order = unmarshal no_diff_order set_diff_order;
    order = unmarshal no_websocket_order set_websocket_order;
    trade = unmarshal no_websocket_trade set_websocket_trade;
  }
