-- ===== src/Bitso/Answers/Orders.antt =====
-- The decoding of the structs of data_server/bitso/order_book.go and exchange_order_book.go.
use microservices_trading_bo.Common.{Text, codes, List, [], ◌∷◌}
use microservices_trading_bo.Bitso.Time.{zero_time}
use microservices_trading_bo.Bitso.Value.{Setter, on_field, set_text, set_list, set_struct}
use microservices_trading_bo.Bitso.Payload.{Order, OrderBook, UserOrder, ExchangeOrderBook}
use microservices_trading_bo.Bitso.Answers.{
  Reading, no_book, book_setter, side_setter, status_setter, time_setter,
}

abbrev pub no_public_order : Order
no_public_order = record { book = no_book; price = []; amount = []; oid = [] }

abbrev pub public_order_setters : Reading → List (Text × Setter Order)
public_order_setters r =
    (codes "book", on_field (λ s. s.book) (λ s x. record s { book = x }) (book_setter r))
    ∷ (codes "price", on_field (λ s. s.price) (λ s x. record s { price = x }) set_text)
    ∷ (codes "amount", on_field (λ s. s.amount) (λ s x. record s { amount = x }) set_text)
    ∷ (codes "oid", on_field (λ s. s.oid) (λ s x. record s { oid = x }) set_text)
    ∷ []

unfoldable pub set_public_order : Reading → Setter Order
unfolding set_struct
set_public_order r = set_struct (public_order_setters r)

abbrev pub no_order_book : OrderBook
no_order_book = record { asks = []; bids = []; updated_at = zero_time; sequence = [] }

abbrev pub order_book_setters : Reading → List (Text × Setter OrderBook)
order_book_setters r =
    (
      codes "asks",
      on_field (λ s. s.asks) (λ s x. record s { asks = x })
          (set_list no_public_order (set_public_order r)),
    )
    ∷ (
      codes "bids",
      on_field (λ s. s.bids) (λ s x. record s { bids = x })
          (set_list no_public_order (set_public_order r)),
    )
    ∷ (
      codes "updated_at",
      on_field (λ s. s.updated_at) (λ s x. record s { updated_at = x }) time_setter,
    )
    ∷ (codes "sequence", on_field (λ s. s.sequence) (λ s x. record s { sequence = x }) set_text)
    ∷ []

unfoldable pub set_order_book : Reading → Setter OrderBook
unfolding set_struct
set_order_book r = set_struct (order_book_setters r)

abbrev pub no_user_order : UserOrder
no_user_order = record {
  book = no_book;
  original_amount = [];
  unfilled_amount = [];
  original_value = [];
  created_at = zero_time;
  updated_at = zero_time;
  price = [];
  oid = [];
  side = 0;
  status = 0;
  type = [];
}

abbrev pub user_order_setters : Reading → List (Text × Setter UserOrder)
user_order_setters r =
    (codes "book", on_field (λ s. s.book) (λ s x. record s { book = x }) (book_setter r))
    ∷ (
      codes "original_amount",
      on_field (λ s. s.original_amount) (λ s x. record s { original_amount = x }) set_text,
    )
    ∷ (
      codes "unfilled_amount",
      on_field (λ s. s.unfilled_amount) (λ s x. record s { unfilled_amount = x }) set_text,
    )
    ∷ (
      codes "original_value",
      on_field (λ s. s.original_value) (λ s x. record s { original_value = x }) set_text,
    )
    ∷ (
      codes "created_at",
      on_field (λ s. s.created_at) (λ s x. record s { created_at = x }) time_setter,
    )
    ∷ (
      codes "updated_at",
      on_field (λ s. s.updated_at) (λ s x. record s { updated_at = x }) time_setter,
    )
    ∷ (codes "price", on_field (λ s. s.price) (λ s x. record s { price = x }) set_text)
    ∷ (codes "oid", on_field (λ s. s.oid) (λ s x. record s { oid = x }) set_text)
    ∷ (codes "side", on_field (λ s. s.side) (λ s x. record s { side = x }) (side_setter r))
    ∷ (codes "status", on_field (λ s. s.status) (λ s x. record s { status = x }) (status_setter r))
    ∷ (codes "type", on_field (λ s. s.type) (λ s x. record s { type = x }) set_text)
    ∷ []

unfoldable pub set_user_order : Reading → Setter UserOrder
unfolding set_struct
set_user_order r = set_struct (user_order_setters r)

abbrev pub no_exchange_order_book : ExchangeOrderBook
no_exchange_order_book = record {
  book = no_book;
  minimum_amount = [];
  maximum_amount = [];
  minimum_price = [];
  maximum_price = [];
  minimum_value = [];
  maximum_value = [];
}

abbrev pub exchange_order_book_setters : Reading → List (Text × Setter ExchangeOrderBook)
exchange_order_book_setters r =
    (codes "book", on_field (λ s. s.book) (λ s x. record s { book = x }) (book_setter r))
    ∷ (
      codes "minimum_amount",
      on_field (λ s. s.minimum_amount) (λ s x. record s { minimum_amount = x }) set_text,
    )
    ∷ (
      codes "maximum_amount",
      on_field (λ s. s.maximum_amount) (λ s x. record s { maximum_amount = x }) set_text,
    )
    ∷ (
      codes "minimum_price",
      on_field (λ s. s.minimum_price) (λ s x. record s { minimum_price = x }) set_text,
    )
    ∷ (
      codes "maximum_price",
      on_field (λ s. s.maximum_price) (λ s x. record s { maximum_price = x }) set_text,
    )
    ∷ (
      codes "minimun_value",
      on_field (λ s. s.minimum_value) (λ s x. record s { minimum_value = x }) set_text,
    )
    ∷ (
      codes "maximum_value",
      on_field (λ s. s.maximum_value) (λ s x. record s { maximum_value = x }) set_text,
    )
    ∷ []

unfoldable pub set_exchange_order_book : Reading → Setter ExchangeOrderBook
unfolding set_struct
set_exchange_order_book r = set_struct (exchange_order_book_setters r)
