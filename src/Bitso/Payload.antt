-- ===== src/Bitso/Payload.antt =====
-- What the exchange's answers hold: data_server/bitso/balance.go, fee.go, ticker.go, trade.go,
-- order_book.go, exchange_order_book.go, funding.go, withdrawal.go and ledger.go. `Any` is Go's
-- `interface{}`; a ticker may have times of another type, as a database does.
use microservices_trading_bo.Common.{ℕ, Text, List}
use microservices_trading_bo.Bitso.Book.{Book}
use microservices_trading_bo.Bitso.Time.{Time}

abbrev pub Monetary : Type 0
Monetary = Text

pub record Balance : Type 0 where
  pub currency : Text
  pub total : Monetary
  pub locked : Monetary
  pub available : Monetary

pub record Fee : Type 0 where
  pub book : Book
  pub fee_decimal : Monetary
  pub fee_percent : Monetary
  pub maker_fee_decimal : Monetary
  pub maker_fee_percent : Monetary
  pub taker_fee_decimal : Monetary
  pub taker_fee_percent : Monetary

pub record CustomerFees : Type 0 where
  pub fees : List Fee
  pub withdrawal_fees : List (Text × Monetary)

pub record Ticker (Instant : Type 0) : Type 0 where
  pub book : Book
  pub volume : Monetary
  pub high : Monetary
  pub last : Monetary
  pub low : Monetary
  pub vwap : Monetary
  pub ask : Monetary
  pub bid : Monetary
  pub created_at : Instant

pub record Trade : Type 0 where
  pub book : Book
  pub created_at : Time
  pub amount : Monetary
  pub maker_side : ℕ
  pub price : Monetary
  pub tid : ℕ

-- `UserTrade`, and `UserOrderTrade`, which differs in the name of one JSON field.
pub record UserTrade : Type 0 where
  pub book : Book
  pub major : Monetary
  pub created_at : Time
  pub minor : Monetary
  pub fees_amount : Monetary
  pub fees_currency : Text
  pub price : Monetary
  pub tid : ℕ
  pub oid : Text
  pub side : ℕ

pub record Order : Type 0 where
  pub book : Book
  pub price : Monetary
  pub amount : Monetary
  pub oid : Text

pub record OrderBook : Type 0 where
  pub asks : List Order
  pub bids : List Order
  pub updated_at : Time
  pub sequence : Text

pub record UserOrder : Type 0 where
  pub book : Book
  pub original_amount : Monetary
  pub unfilled_amount : Monetary
  pub original_value : Monetary
  pub created_at : Time
  pub updated_at : Time
  pub price : Monetary
  pub oid : Text
  pub side : ℕ
  pub status : ℕ
  pub type : Text

pub record ExchangeOrderBook : Type 0 where
  pub book : Book
  pub minimum_amount : Monetary
  pub maximum_amount : Monetary
  pub minimum_price : Monetary
  pub maximum_price : Monetary
  pub minimum_value : Monetary
  pub maximum_value : Monetary

pub record Funding (Any : Type 0) : Type 0 where
  pub fid : Text
  pub currency : Text
  pub method : Text
  pub amount : Monetary
  pub status : Text
  pub created_at : Time
  pub details : List (Text × Any)

pub record Withdrawal (Any : Type 0) : Type 0 where
  pub wid : Text
  pub status : Text
  pub created_at : Time
  pub currency : Text
  pub method : Text
  pub amount : Monetary
  pub details : List (Text × Any)

pub record BalanceUpdate : Type 0 where
  pub currency : Text
  pub amount : Monetary

pub record Transaction (Any : Type 0) : Type 0 where
  pub eid : Text
  pub operation : ℕ
  pub created_at : Time
  pub balance_updates : List BalanceUpdate
  pub details : List (Text × Any)
