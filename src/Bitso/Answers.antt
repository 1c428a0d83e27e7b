-- ===== src/Bitso/Answers.antt =====
-- The decoding of the answers of the exchange: the tags of the structs of data_server/bitso. The
-- tables of the enumerations may be visited in any order.
pub mod Trades
pub mod Orders
pub mod Account
pub mod Ledger
pub mod Sound
pub mod Calls
mod Tests
use microservices_trading_bo.Common.{ℕ, Text, codes, List, [], ◌∷◌, Outcome, ok, ◌>>=◌}
use microservices_trading_bo.Common.Names.{Table}
use microservices_trading_bo.Bitso.Json.{Error}
use microservices_trading_bo.Bitso.Book.{Book, unmarshal_book}
use microservices_trading_bo.Bitso.Currency.{unmarshal_currency}
use microservices_trading_bo.Bitso.Tid.{unmarshal_tid}
use microservices_trading_bo.Bitso.Time.{Time, zero_time, unmarshal_time}
use microservices_trading_bo.Bitso.Enums.Side.{unmarshal_side}
use microservices_trading_bo.Bitso.Enums.Status.{unmarshal_status}
use microservices_trading_bo.Bitso.Enums.Operation.{unmarshal_operation}
use microservices_trading_bo.Bitso.Value.{
  Value, Setter, by_method, on_field, set_text, set_list, set_map, set_struct,
}
use microservices_trading_bo.Bitso.Payload.{
  Trade, UserTrade, Order, OrderBook, UserOrder, ExchangeOrderBook, Ticker, Balance, Fee,
  CustomerFees, Funding, Withdrawal, BalanceUpdate, Transaction,
}

-- How the methods of the field types read: ToLower beyond ASCII, and the orders of the tables.
pub record Reading : Type 0 where
  pub beyond : ℕ → ℕ
  pub sides : Table
  pub statuses : Table
  pub operations : Table

-- `interface{}`: what a value becomes, from nil on.
pub record Dynamic : Type 1 where
  pub Any : Type 0
  pub nothing : Any
  pub set_any : Any → Value → Outcome Error Any

abbrev pub no_book : Book
no_book = record { major = []; minor = [] }

abbrev pub tid_setter : Setter ℕ
tid_setter = by_method unmarshal_tid

abbrev pub time_setter : Setter Time
time_setter = by_method unmarshal_time

module _ (r : Reading) where
  abbrev pub book_setter : Setter Book
  book_setter = by_method (unmarshal_book r.beyond)

  abbrev pub currency_setter : Setter Text
  currency_setter = by_method (unmarshal_currency r.beyond)

  abbrev pub side_setter : Setter ℕ
  side_setter = by_method (unmarshal_side r.sides)

  abbrev pub status_setter : Setter ℕ
  status_setter = by_method (unmarshal_status r.statuses)

  abbrev pub operation_setter : Setter ℕ
  operation_setter = by_method (unmarshal_operation r.operations)
