-- ===== src/Bitso/Answers/Account.antt =====
-- The decoding of the structs of data_server/bitso/ticker.go, balance.go and fee.go.
use microservices_trading_bo.Common.{Text, codes, List, [], ◌∷◌}
use microservices_trading_bo.Bitso.Time.{Time, zero_time}
use microservices_trading_bo.Bitso.Value.{Setter, on_field, set_text, set_list, set_map, set_struct}
use microservices_trading_bo.Bitso.Payload.{Ticker, Balance, Fee, CustomerFees}
use microservices_trading_bo.Bitso.Answers.{
  Reading, no_book, book_setter, currency_setter, time_setter,
}

abbrev pub no_ticker : Ticker Time
no_ticker = record {
  book = no_book;
  volume = [];
  high = [];
  last = [];
  low = [];
  vwap = [];
  ask = [];
  bid = [];
  created_at = zero_time;
}

abbrev pub ticker_setters : Reading → List (Text × Setter (Ticker Time))
ticker_setters r =
    (codes "book", on_field (λ s. s.book) (λ s x. record s { book = x }) (book_setter r))
    ∷ (codes "volume", on_field (λ s. s.volume) (λ s x. record s { volume = x }) set_text)
    ∷ (codes "high", on_field (λ s. s.high) (λ s x. record s { high = x }) set_text)
    ∷ (codes "last", on_field (λ s. s.last) (λ s x. record s { last = x }) set_text)
    ∷ (codes "low", on_field (λ s. s.low) (λ s x. record s { low = x }) set_text)
    ∷ (codes "vwap", on_field (λ s. s.vwap) (λ s x. record s { vwap = x }) set_text)
    ∷ (codes "ask", on_field (λ s. s.ask) (λ s x. record s { ask = x }) set_text)
    ∷ (codes "bid", on_field (λ s. s.bid) (λ s x. record s { bid = x }) set_text)
    ∷ (
      codes "created_at",
      on_field (λ s. s.created_at) (λ s x. record s { created_at = x }) time_setter,
    )
    ∷ []

unfoldable pub set_ticker : Reading → Setter (Ticker Time)
unfolding set_struct
set_ticker r = set_struct (ticker_setters r)

abbrev pub no_balance : Balance
no_balance = record { currency = []; total = []; locked = []; available = [] }

abbrev pub balance_setters : Reading → List (Text × Setter Balance)
balance_setters r =
    (
      codes "currency",
      on_field (λ s. s.currency) (λ s x. record s { currency = x }) (currency_setter r),
    )
    ∷ (codes "total", on_field (λ s. s.total) (λ s x. record s { total = x }) set_text)
    ∷ (codes "locked", on_field (λ s. s.locked) (λ s x. record s { locked = x }) set_text)
    ∷ (codes "available", on_field (λ s. s.available) (λ s x. record s { available = x }) set_text)
    ∷ []

unfoldable pub set_balance : Reading → Setter Balance
unfolding set_struct
set_balance r = set_struct (balance_setters r)

abbrev pub no_fee : Fee
no_fee = record {
  book = no_book;
  fee_decimal = [];
  fee_percent = [];
  maker_fee_decimal = [];
  maker_fee_percent = [];
  taker_fee_decimal = [];
  taker_fee_percent = [];
}

abbrev pub fee_setters : Reading → List (Text × Setter Fee)
fee_setters r =
    (codes "book", on_field (λ s. s.book) (λ s x. record s { book = x }) (book_setter r))
    ∷ (
      codes "fee_decimal",
      on_field (λ s. s.fee_decimal) (λ s x. record s { fee_decimal = x }) set_text,
    )
    ∷ (
      codes "fee_percent",
      on_field (λ s. s.fee_percent) (λ s x. record s { fee_percent = x }) set_text,
    )
    ∷ (
      codes "maker_fee_decimal",
      on_field (λ s. s.maker_fee_decimal) (λ s x. record s { maker_fee_decimal = x }) set_text,
    )
    ∷ (
      codes "maker_fee_percent",
      on_field (λ s. s.maker_fee_percent) (λ s x. record s { maker_fee_percent = x }) set_text,
    )
    ∷ (
      codes "taker_fee_decimal",
      on_field (λ s. s.taker_fee_decimal) (λ s x. record s { taker_fee_decimal = x }) set_text,
    )
    ∷ (
      codes "taker_fee_percent",
      on_field (λ s. s.taker_fee_percent) (λ s x. record s { taker_fee_percent = x }) set_text,
    )
    ∷ []

unfoldable pub set_fee : Reading → Setter Fee
unfolding set_struct
set_fee r = set_struct (fee_setters r)

abbrev pub no_customer_fees : CustomerFees
no_customer_fees = record { fees = []; withdrawal_fees = [] }

abbrev pub customer_fees_setters : Reading → List (Text × Setter CustomerFees)
customer_fees_setters r =
    (
      codes "fees",
      on_field (λ s. s.fees) (λ s x. record s { fees = x }) (set_list no_fee (set_fee r)),
    )
    ∷ (
      codes "withdrawal_fees",
      on_field (λ s. s.withdrawal_fees) (λ s x. record s { withdrawal_fees = x })
          (set_map [] set_text),
    )
    ∷ []

unfoldable pub set_customer_fees : Reading → Setter CustomerFees
unfolding set_struct
set_customer_fees r = set_struct (customer_fees_setters r)
