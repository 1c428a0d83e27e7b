-- ===== src/Bitso/Answers/Sound/Orders.antt =====
-- What holds of the structs of data_server/bitso/order_book.go and exchange_order_book.go that were decoded.
use microservices_trading_bo.Common.{arith, All}
use microservices_trading_bo.Bitso.Payload.{Order, OrderBook, UserOrder, ExchangeOrderBook}
use microservices_trading_bo.Bitso.Time.Reading.{IsStamp, zero_time-IsStamp}
use microservices_trading_bo.Bitso.Value.{set_text}
use microservices_trading_bo.Bitso.Value.Laws.{
  Keeps, Keeps-set_text, Keeps-on_field, Keeps-free, Keeps-set_struct, Keeps-set_list,
}
use microservices_trading_bo.Bitso.Answers.{Reading}
use microservices_trading_bo.Bitso.Answers.Sound.{
  IsReading, IsBook, AtMost, IsBook-Keeps, side-Keeps, IsStamp-Keeps, status-Keeps, no_book-IsBook,
}
use microservices_trading_bo.Bitso.Answers.Orders.{
  no_public_order, set_public_order, public_order_setters, no_order_book, set_order_book,
  order_book_setters, no_user_order, set_user_order, user_order_setters, no_exchange_order_book,
  set_exchange_order_book, exchange_order_book_setters,
}

abbrev pub IsOrder : Reading → Order → Type 0
IsOrder r t = IsBook r t.book

pub no_public_order-IsOrder : (r : Reading) → IsOrder r no_public_order
no_public_order-IsOrder r = no_book-IsBook r

pub IsOrder-Keeps : (r : Reading) → IsReading r → Keeps (IsOrder r) (set_public_order r)
unfolding set_public_order
IsOrder-Keeps r s = Keeps-set_struct (IsOrder r) (public_order_setters r) (
  Keeps-on_field (IsOrder r) (IsBook r) _ _ _ (λ t p. p) (λ t a p q. q) (IsBook-Keeps r s),
  (
    Keeps-free (IsOrder r) (λ t. t.price) (λ t x. record t { price = x }) set_text (λ t a p. p)
        Keeps-set_text,
    (
      Keeps-free (IsOrder r) (λ t. t.amount) (λ t x. record t { amount = x }) set_text (λ t a p. p)
          Keeps-set_text,
      (
        Keeps-free (IsOrder r) (λ t. t.oid) (λ t x. record t { oid = x }) set_text (λ t a p. p)
            Keeps-set_text,
        tt,
      ),
    ),
  ),
)

abbrev pub IsOrderBook : Reading → OrderBook → Type 0
IsOrderBook r t = All (IsOrder r) t.asks × All (IsOrder r) t.bids × IsStamp t.updated_at

pub no_order_book-IsOrderBook : (r : Reading) → IsOrderBook r no_order_book
no_order_book-IsOrderBook r = (tt, tt, zero_time-IsStamp)

pub IsOrderBook-Keeps : (r : Reading) → IsReading r → Keeps (IsOrderBook r) (set_order_book r)
unfolding set_order_book
IsOrderBook-Keeps r s = Keeps-set_struct (IsOrderBook r) (order_book_setters r) (
  Keeps-on_field (IsOrderBook r) (All (IsOrder r)) _ _ _ (λ t p. p.0) (λ t a p q. (q, p.1, p.2))
      (Keeps-set_list (IsOrder r) no_public_order (set_public_order r) (no_public_order-IsOrder r)
        (IsOrder-Keeps r s)),
  (
    Keeps-on_field (IsOrderBook r) (All (IsOrder r)) _ _ _ (λ t p. p.1) (λ t a p q. (p.0, q, p.2))
        (Keeps-set_list (IsOrder r) no_public_order (set_public_order r) (no_public_order-IsOrder r)
          (IsOrder-Keeps r s)),
    (
      Keeps-on_field (IsOrderBook r) IsStamp _ _ _ (λ t p. p.2) (λ t a p q. (p.0, p.1, q))
          IsStamp-Keeps,
      (
        Keeps-free (IsOrderBook r) (λ t. t.sequence) (λ t x. record t { sequence = x }) set_text
            (λ t a p. p) Keeps-set_text,
        tt,
      ),
    ),
  ),
)

abbrev pub IsUserOrder : Reading → UserOrder → Type 0
IsUserOrder r t =
    IsBook r t.book
    × IsStamp t.created_at
    × IsStamp t.updated_at
    × AtMost 2 t.side
    × AtMost 5 t.status

pub no_user_order-IsUserOrder : (r : Reading) → IsUserOrder r no_user_order
no_user_order-IsUserOrder r =
    (no_book-IsBook r, zero_time-IsStamp, zero_time-IsStamp, omega arith, omega arith)

pub IsUserOrder-Keeps : (r : Reading) → IsReading r → Keeps (IsUserOrder r) (set_user_order r)
unfolding set_user_order
IsUserOrder-Keeps r s = Keeps-set_struct (IsUserOrder r) (user_order_setters r) (
  Keeps-on_field (IsUserOrder r) (IsBook r) _ _ _ (λ t p. p.0) (λ t a p q. (q, p.1, p.2, p.3, p.4))
      (IsBook-Keeps r s),
  (
    Keeps-free (IsUserOrder r) (λ t. t.original_amount) (λ t x. record t { original_amount = x })
        set_text (λ t a p. p) Keeps-set_text,
    (
      Keeps-free (IsUserOrder r) (λ t. t.unfilled_amount) (λ t x. record t { unfilled_amount = x })
          set_text (λ t a p. p) Keeps-set_text,
      (
        Keeps-free (IsUserOrder r) (λ t. t.original_value) (λ t x. record t { original_value = x })
            set_text (λ t a p. p) Keeps-set_text,
        (
          Keeps-on_field (IsUserOrder r) IsStamp _ _ _ (λ t p. p.1)
              (λ t a p q. (p.0, q, p.2, p.3, p.4)) IsStamp-Keeps,
          (
            Keeps-on_field (IsUserOrder r) IsStamp _ _ _ (λ t p. p.2)
                (λ t a p q. (p.0, p.1, q, p.3, p.4)) IsStamp-Keeps,
            (
              Keeps-free (IsUserOrder r) (λ t. t.price) (λ t x. record t { price = x }) set_text
                  (λ t a p. p) Keeps-set_text,
              (
                Keeps-free (IsUserOrder r) (λ t. t.oid) (λ t x. record t { oid = x }) set_text
                    (λ t a p. p) Keeps-set_text,
                (
                  Keeps-on_field (IsUserOrder r) (AtMost 2) _ _ _ (λ t p. p.3)
                      (λ t a p q. (p.0, p.1, p.2, q, p.4)) (side-Keeps r s),
                  (
                    Keeps-on_field (IsUserOrder r) (AtMost 5) _ _ _ (λ t p. p.4)
                        (λ t a p q. (p.0, p.1, p.2, p.3, q)) (status-Keeps r s),
                    (
                      Keeps-free (IsUserOrder r) (λ t. t.type) (λ t x. record t { type = x })
                          set_text (λ t a p. p) Keeps-set_text,
                      tt,
                    ),
                  ),
                ),
              ),
            ),
          ),
        ),
      ),
    ),
  ),
)

abbrev pub IsExchangeOrderBook : Reading → ExchangeOrderBook → Type 0
IsExchangeOrderBook r t = IsBook r t.book

pub no_exchange_order_book-IsExchangeOrderBook :
    (r : Reading) → IsExchangeOrderBook r no_exchange_order_book
no_exchange_order_book-IsExchangeOrderBook r = no_book-IsBook r

pub IsExchangeOrderBook-Keeps :
    (r : Reading) → IsReading r → Keeps (IsExchangeOrderBook r) (set_exchange_order_book r)
unfolding set_exchange_order_book
IsExchangeOrderBook-Keeps r s =
    Keeps-set_struct (IsExchangeOrderBook r) (exchange_order_book_setters r) (
      Keeps-on_field (IsExchangeOrderBook r) (IsBook r) _ _ _ (λ t p. p) (λ t a p q. q)
          (IsBook-Keeps r s),
      (
        Keeps-free (IsExchangeOrderBook r) (λ t. t.minimum_amount)
            (λ t x. record t { minimum_amount = x }) set_text (λ t a p. p) Keeps-set_text,
        (
          Keeps-free (IsExchangeOrderBook r) (λ t. t.maximum_amount)
              (λ t x. record t { maximum_amount = x }) set_text (λ t a p. p) Keeps-set_text,
          (
            Keeps-free (IsExchangeOrderBook r) (λ t. t.minimum_price)
                (λ t x. record t { minimum_price = x }) set_text (λ t a p. p) Keeps-set_text,
            (
              Keeps-free (IsExchangeOrderBook r) (λ t. t.maximum_price)
                  (λ t x. record t { maximum_price = x }) set_text (λ t a p. p) Keeps-set_text,
              (
                Keeps-free (IsExchangeOrderBook r) (λ t. t.minimum_value)
                    (λ t x. record t { minimum_value = x }) set_text (λ t a p. p) Keeps-set_text,
                (
                  Keeps-free (IsExchangeOrderBook r) (λ t. t.maximum_value)
                      (λ t x. record t { maximum_value = x }) set_text (λ t a p. p) Keeps-set_text,
                  tt,
                ),
              ),
            ),
          ),
        ),
      ),
    )
