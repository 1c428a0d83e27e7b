-- ===== src/Bitso/Answers/Sound/Trades.antt =====
-- What holds of the structs of data_server/bitso/trade.go that were decoded.
use microservices_trading_bo.Common.{arith}
use microservices_trading_bo.Bitso.Payload.{Trade, UserTrade}
use microservices_trading_bo.Bitso.Time.Reading.{IsStamp, zero_time-IsStamp}
use microservices_trading_bo.Bitso.Value.{set_text}
use microservices_trading_bo.Bitso.Value.Laws.{
  Keeps, Keeps-set_text, Keeps-on_field, Keeps-free, Keeps-set_struct,
}
use microservices_trading_bo.Bitso.Answers.{Reading}
use microservices_trading_bo.Bitso.Answers.Sound.{
  IsReading, IsBook, IsCurrency, AtMost, IsTid, IsBook-Keeps, side-Keeps, IsTid-Keeps,
  IsStamp-Keeps, IsCurrency-Keeps, no_book-IsBook, unset-IsCurrency,
}
use microservices_trading_bo.Bitso.Answers.Trades.{
  no_trade, set_trade, trade_setters, no_user_trade, set_user_trade, user_trade_setters,
  set_user_order_trade, user_order_trade_setters,
}

abbrev pub IsTrade : Reading → Trade → Type 0
IsTrade r t = IsBook r t.book × IsStamp t.created_at × AtMost 2 t.maker_side × IsTid t.tid

pub no_trade-IsTrade : (r : Reading) → IsTrade r no_trade
no_trade-IsTrade r = (no_book-IsBook r, zero_time-IsStamp, omega arith, omega arith)

pub IsTrade-Keeps : (r : Reading) → IsReading r → Keeps (IsTrade r) (set_trade r)
unfolding set_trade
IsTrade-Keeps r s = Keeps-set_struct (IsTrade r) (trade_setters r) (
  Keeps-on_field (IsTrade r) (IsBook r) _ _ _ (λ t p. p.0) (λ t a p q. (q, p.1, p.2, p.3))
      (IsBook-Keeps r s),
  (
    Keeps-on_field (IsTrade r) IsStamp _ _ _ (λ t p. p.1) (λ t a p q. (p.0, q, p.2, p.3))
        IsStamp-Keeps,
    (
      Keeps-free (IsTrade r) (λ t. t.amount) (λ t x. record t { amount = x }) set_text (λ t a p. p)
          Keeps-set_text,
      (
        Keeps-on_field (IsTrade r) (AtMost 2) _ _ _ (λ t p. p.2) (λ t a p q. (p.0, p.1, q, p.3))
            (side-Keeps r s),
        (
          Keeps-free (IsTrade r) (λ t. t.price) (λ t x. record t { price = x }) set_text
              (λ t a p. p) Keeps-set_text,
          (
            Keeps-on_field (IsTrade r) IsTid _ _ _ (λ t p. p.3) (λ t a p q. (p.0, p.1, p.2, q))
                IsTid-Keeps,
            tt,
          ),
        ),
      ),
    ),
  ),
)

abbrev pub IsUserTrade : Reading → UserTrade → Type 0
IsUserTrade r t =
    IsBook r t.book
    × IsStamp t.created_at
    × IsCurrency r t.fees_currency
    × IsTid t.tid
    × AtMost 2 t.side

pub no_user_trade-IsUserTrade : (r : Reading) → IsUserTrade r no_user_trade
no_user_trade-IsUserTrade r =
    (no_book-IsBook r, zero_time-IsStamp, unset-IsCurrency r, omega arith, omega arith)

pub IsUserTrade-Keeps : (r : Reading) → IsReading r → Keeps (IsUserTrade r) (set_user_trade r)
unfolding set_user_trade
IsUserTrade-Keeps r s = Keeps-set_struct (IsUserTrade r) (user_trade_setters r) (
  Keeps-on_field (IsUserTrade r) (IsBook r) _ _ _ (λ t p. p.0) (λ t a p q. (q, p.1, p.2, p.3, p.4))
      (IsBook-Keeps r s),
  (
    Keeps-free (IsUserTrade r) (λ t. t.major) (λ t x. record t { major = x }) set_text (λ t a p. p)
        Keeps-set_text,
    (
      Keeps-on_field (IsUserTrade r) IsStamp _ _ _ (λ t p. p.1) (λ t a p q. (p.0, q, p.2, p.3, p.4))
          IsStamp-Keeps,
      (
        Keeps-free (IsUserTrade r) (λ t. t.minor) (λ t x. record t { minor = x }) set_text
            (λ t a p. p) Keeps-set_text,
        (
          Keeps-free (IsUserTrade r) (λ t. t.fees_amount) (λ t x. record t { fees_amount = x })
              set_text (λ t a p. p) Keeps-set_text,
          (
            Keeps-on_field (IsUserTrade r) (IsCurrency r) _ _ _ (λ t p. p.2)
                (λ t a p q. (p.0, p.1, q, p.3, p.4)) (IsCurrency-Keeps r s),
            (
              Keeps-free (IsUserTrade r) (λ t. t.price) (λ t x. record t { price = x }) set_text
                  (λ t a p. p) Keeps-set_text,
              (
                Keeps-on_field (IsUserTrade r) IsTid _ _ _ (λ t p. p.3)
                    (λ t a p q. (p.0, p.1, p.2, q, p.4)) IsTid-Keeps,
                (
                  Keeps-free (IsUserTrade r) (λ t. t.oid) (λ t x. record t { oid = x }) set_text
                      (λ t a p. p) Keeps-set_text,
                  (
                    Keeps-on_field (IsUserTrade r) (AtMost 2) _ _ _ (λ t p. p.4)
                        (λ t a p q. (p.0, p.1, p.2, p.3, q)) (side-Keeps r s),
                    tt,
                  ),
                ),
              ),
            ),
          ),
        ),
      ),
    ),
  ),
)

pub set_user_order_trade-Keeps :
    (r : Reading) → IsReading r → Keeps (IsUserTrade r) (set_user_order_trade r)
unfolding set_user_order_trade
set_user_order_trade-Keeps r s = Keeps-set_struct (IsUserTrade r) (user_order_trade_setters r) (
  Keeps-on_field (IsUserTrade r) (IsBook r) _ _ _ (λ t p. p.0) (λ t a p q. (q, p.1, p.2, p.3, p.4))
      (IsBook-Keeps r s),
  (
    Keeps-free (IsUserTrade r) (λ t. t.major) (λ t x. record t { major = x }) set_text (λ t a p. p)
        Keeps-set_text,
    (
      Keeps-on_field (IsUserTrade r) IsStamp _ _ _ (λ t p. p.1) (λ t a p q. (p.0, q, p.2, p.3, p.4))
          IsStamp-Keeps,
      (
        Keeps-free (IsUserTrade r) (λ t. t.minor) (λ t x. record t { minor = x }) set_text
            (λ t a p. p) Keeps-set_text,
        (
          Keeps-free (IsUserTrade r) (λ t. t.fees_amount) (λ t x. record t { fees_amount = x })
              set_text (λ t a p. p) Keeps-set_text,
          (
            Keeps-on_field (IsUserTrade r) (IsCurrency r) _ _ _ (λ t p. p.2)
                (λ t a p q. (p.0, p.1, q, p.3, p.4)) (IsCurrency-Keeps r s),
            (
              Keeps-free (IsUserTrade r) (λ t. t.price) (λ t x. record t { price = x }) set_text
                  (λ t a p. p) Keeps-set_text,
              (
                Keeps-on_field (IsUserTrade r) IsTid _ _ _ (λ t p. p.3)
                    (λ t a p q. (p.0, p.1, p.2, q, p.4)) IsTid-Keeps,
                (
                  Keeps-free (IsUserTrade r) (λ t. t.oid) (λ t x. record t { oid = x }) set_text
                      (λ t a p. p) Keeps-set_text,
                  (
                    Keeps-on_field (IsUserTrade r) (AtMost 2) _ _ _ (λ t p. p.4)
                        (λ t a p q. (p.0, p.1, p.2, p.3, q)) (side-Keeps r s),
                    tt,
                  ),
                ),
              ),
            ),
          ),
        ),
      ),
    ),
  ),
)
