-- ===== src/Bitso/Answers/Trades.antt =====
-- The decoding of the structs of data_server/bitso/trade.go.
use microservices_trading_bo.Common.{Text, codes, List, [], ◌∷◌}
use microservices_trading_bo.Bitso.Time.{zero_time}
use microservices_trading_bo.Bitso.Value.{Setter, on_field, set_text, set_struct}
use microservices_trading_bo.Bitso.Payload.{Trade, UserTrade}
use microservices_trading_bo.Bitso.Answers.{
  Reading, no_book, book_setter, currency_setter, side_setter, tid_setter, time_setter,
}

abbrev pub no_trade : Trade
no_trade = record {
  book = no_book;
  created_at = zero_time;
  amount = [];
  maker_side = 0;
  price = [];
  tid = 0;
}

abbrev pub trade_setters : Reading → List (Text × Setter Trade)
trade_setters r =
    (codes "book", on_field (λ s. s.book) (λ s x. record s { book = x }) (book_setter r))
    ∷ (
      codes "created_at",
      on_field (λ s. s.created_at) (λ s x. record s { created_at = x }) time_setter,
    )
    ∷ (codes "amount", on_field (λ s. s.amount) (λ s x. record s { amount = x }) set_text)
    ∷ (
      codes "maker_side",
      on_field (λ s. s.maker_side) (λ s x. record s { maker_side = x }) (side_setter r),
    )
    ∷ (codes "price", on_field (λ s. s.price) (λ s x. record s { price = x }) set_text)
    ∷ (codes "tid", on_field (λ s. s.tid) (λ s x. record s { tid = x }) tid_setter)
    ∷ []

unfoldable pub set_trade : Reading → Setter Trade
unfolding set_struct
set_trade r = set_struct (trade_setters r)

abbrev pub no_user_trade : UserTrade
no_user_trade = record {
  book = no_book;
  major = [];
  created_at = zero_time;
  minor = [];
  fees_amount = [];
  fees_currency = [];
  price = [];
  tid = 0;
  oid = [];
  side = 0;
}

abbrev pub user_trade_setters : Reading → List (Text × Setter UserTrade)
user_trade_setters r =
    (codes "book", on_field (λ s. s.book) (λ s x. record s { book = x }) (book_setter r))
    ∷ (codes "major", on_field (λ s. s.major) (λ s x. record s { major = x }) set_text)
    ∷ (
      codes "created_at",
      on_field (λ s. s.created_at) (λ s x. record s { created_at = x }) time_setter,
    )
    ∷ (codes "minor", on_field (λ s. s.minor) (λ s x. record s { minor = x }) set_text)
    ∷ (
      codes "fees_amount",
      on_field (λ s. s.fees_amount) (λ s x. record s { fees_amount = x }) set_text,
    )
    ∷ (
      codes "fees_currency",
      on_field (λ s. s.fees_currency) (λ s x. record s { fees_currency = x }) (currency_setter r),
    )
    ∷ (codes "price", on_field (λ s. s.price) (λ s x. record s { price = x }) set_text)
    ∷ (codes "tid", on_field (λ s. s.tid) (λ s x. record s { tid = x }) tid_setter)
    ∷ (codes "oid", on_field (λ s. s.oid) (λ s x. record s { oid = x }) set_text)
    ∷ (codes "side", on_field (λ s. s.side) (λ s x. record s { side = x }) (side_setter r))
    ∷ []

unfoldable pub set_user_trade : Reading → Setter UserTrade
unfolding set_struct
set_user_trade r = set_struct (user_trade_setters r)

-- `UserOrderTrade`
abbrev pub user_order_trade_setters : Reading → List (Text × Setter UserTrade)
user_order_trade_setters r =
    (codes "book", on_field (λ s. s.book) (λ s x. record s { book = x }) (book_setter r))
    ∷ (codes "major", on_field (λ s. s.major) (λ s x. record s { major = x }) set_text)
    ∷ (
      codes "created_at",
      on_field (λ s. s.created_at) (λ s x. record s { created_at = x }) time_setter,
    )
    ∷ (codes "minor", on_field (λ s. s.minor) (λ s x. record s { minor = x }) set_text)
    ∷ (
      codes "fees_amount",
      on_field (λ s. s.fees_amount) (λ s x. record s { fees_amount = x }) set_text,
    )
    ∷ (
      codes "currency",
      on_field (λ s. s.fees_currency) (λ s x. record s { fees_currency = x }) (currency_setter r),
    )
    ∷ (codes "price", on_field (λ s. s.price) (λ s x. record s { price = x }) set_text)
    ∷ (codes "tid", on_field (λ s. s.tid) (λ s x. record s { tid = x }) tid_setter)
    ∷ (codes "oid", on_field (λ s. s.oid) (λ s x. record s { oid = x }) set_text)
    ∷ (codes "side", on_field (λ s. s.side) (λ s x. record s { side = x }) (side_setter r))
    ∷ []

unfoldable pub set_user_order_trade : Reading → Setter UserTrade
unfolding set_struct
set_user_order_trade r = set_struct (user_order_trade_setters r)
