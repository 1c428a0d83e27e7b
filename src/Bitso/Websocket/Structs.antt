-- ===== src/Bitso/Websocket/Structs.antt =====
-- data_server/bitso/websocket.go: what the exchange sends over its websocket. `Any` is Go's
-- `interface{}`, and `Float` its float64.
use microservices_trading_bo.Common.{ℕ, Text, List}
use microservices_trading_bo.Bitso.Atoi.{ℤ}
use microservices_trading_bo.Bitso.Book.{Book}
use microservices_trading_bo.Bitso.Payload.{Monetary}

pub record WebsocketReply (Any : Type 0) : Type 0 where
  pub action : Text
  pub response : Text
  pub time : ℕ
  pub type : Text
  pub payload : Any

-- An element of the payload of `WebsocketTrade`.
pub record TradeEntry : Type 0 where
  pub tid : ℕ
  pub amount : Monetary
  pub price : Monetary
  pub value : Monetary
  pub maker_order_id : Text
  pub taker_order_id : Text

pub record WebsocketTrade : Type 0 where
  pub book : Book
  pub payload : List TradeEntry

-- An element of the payload of `WebsocketDiffOrder`.
pub record DiffEntry : Type 0 where
  pub timestamp : ℕ
  pub price : Monetary
  pub position : ℤ
  pub amount : Monetary
  pub value : Monetary
  pub order_id : Text

pub record WebsocketDiffOrder : Type 0 where
  pub book : Book
  pub payload : List DiffEntry

-- A bid or an ask of `WebsocketOrder`.
pub record OrderEntry (Float : Type 0) : Type 0 where
  pub price : Float
  pub amount : Float
  pub position : ℤ
  pub value : Float
  pub timestamp : ℕ

-- The payload of `WebsocketOrder`.
pub record Levels (Float : Type 0) : Type 0 where
  pub bids : List (OrderEntry Float)
  pub asks : List (OrderEntry Float)

pub record WebsocketOrder (Float : Type 0) : Type 0 where
  pub book : Book
  pub payload : Levels Float
