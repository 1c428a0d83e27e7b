-- ===== src/Bitso/Answers/Sound/Account.antt =====
-- What holds of the structs of data_server/bitso/ticker.go, balance.go and fee.go that were decoded.
use microservices_trading_bo.Common.{All}
use microservices_trading_bo.Bitso.Payload.{Ticker, Balance, Fee, CustomerFees}
use microservices_trading_bo.Bitso.Time.Reading.{IsStamp, zero_time-IsStamp}
use microservices_trading_bo.Bitso.Value.{set_text, set_map}
use microservices_trading_bo.Bitso.Value.Laws.{
  Keeps, Keeps-set_text, Keeps-set_map, Keeps-on_field, Keeps-free, Keeps-set_struct,
  Keeps-set_list,
}
use microservices_trading_bo.Bitso.Answers.{Reading}
use microservices_trading_bo.Bitso.Answers.Sound.{
  IsReading, IsBook, IsCurrency, IsBook-Keeps, IsStamp-Keeps, IsCurrency-Keeps, no_book-IsBook,
  unset-IsCurrency,
}
use microservices_trading_bo.Bitso.Answers.Account.{
  no_ticker, set_ticker, ticker_setters, no_balance, set_balance, balance_setters, no_fee, set_fee,
  fee_setters, no_customer_fees, set_customer_fees, customer_fees_setters,
}
use microservices_trading_bo.Bitso.Time.{Time}
use microservices_trading_bo.Common.{[]}

abbrev pub IsTicker : Reading → Ticker Time → Type 0
IsTicker r t = IsBook r t.book × IsStamp t.created_at

pub no_ticker-IsTicker : (r : Reading) → IsTicker r no_ticker
no_ticker-IsTicker r = (no_book-IsBook r, zero_time-IsStamp)

pub IsTicker-Keeps : (r : Reading) → IsReading r → Keeps (IsTicker r) (set_ticker r)
unfolding set_ticker
IsTicker-Keeps r s = Keeps-set_struct (IsTicker r) (ticker_setters r) (
  Keeps-on_field (IsTicker r) (IsBook r) _ _ _ (λ t p. p.0) (λ t a p q. (q, p.1))
      (IsBook-Keeps r s),
  (
    Keeps-free (IsTicker r) (λ t. t.volume) (λ t x. record t { volume = x }) set_text (λ t a p. p)
        Keeps-set_text,
    (
      Keeps-free (IsTicker r) (λ t. t.high) (λ t x. record t { high = x }) set_text (λ t a p. p)
          Keeps-set_text,
      (
        Keeps-free (IsTicker r) (λ t. t.last) (λ t x. record t { last = x }) set_text (λ t a p. p)
            Keeps-set_text,
        (
          Keeps-free (IsTicker r) (λ t. t.low) (λ t x. record t { low = x }) set_text (λ t a p. p)
              Keeps-set_text,
          (
            Keeps-free (IsTicker r) (λ t. t.vwap) (λ t x. record t { vwap = x }) set_text
                (λ t a p. p) Keeps-set_text,
            (
              Keeps-free (IsTicker r) (λ t. t.ask) (λ t x. record t { ask = x }) set_text
                  (λ t a p. p) Keeps-set_text,
              (
                Keeps-free (IsTicker r) (λ t. t.bid) (λ t x. record t { bid = x }) set_text
                    (λ t a p. p) Keeps-set_text,
                (
                  Keeps-on_field (IsTicker r) IsStamp _ _ _ (λ t p. p.1) (λ t a p q. (p.0, q))
                      IsStamp-Keeps,
                  tt,
                ),
              ),
            ),
          ),
        ),
      ),
    ),
  ),
)

abbrev pub IsBalance : Reading → Balance → Type 0
IsBalance r t = IsCurrency r t.currency

pub no_balance-IsBalance : (r : Reading) → IsBalance r no_balance
no_balance-IsBalance r = unset-IsCurrency r

pub IsBalance-Keeps : (r : Reading) → IsReading r → Keeps (IsBalance r) (set_balance r)
unfolding set_balance
IsBalance-Keeps r s = Keeps-set_struct (IsBalance r) (balance_setters r) (
  Keeps-on_field (IsBalance r) (IsCurrency r) _ _ _ (λ t p. p) (λ t a p q. q)
      (IsCurrency-Keeps r s),
  (
    Keeps-free (IsBalance r) (λ t. t.total) (λ t x. record t { total = x }) set_text (λ t a p. p)
        Keeps-set_text,
    (
      Keeps-free (IsBalance r) (λ t. t.locked) (λ t x. record t { locked = x }) set_text
          (λ t a p. p) Keeps-set_text,
      (
        Keeps-free (IsBalance r) (λ t. t.available) (λ t x. record t { available = x }) set_text
            (λ t a p. p) Keeps-set_text,
        tt,
      ),
    ),
  ),
)

abbrev pub IsFee : Reading → Fee → Type 0
IsFee r t = IsBook r t.book

pub no_fee-IsFee : (r : Reading) → IsFee r no_fee
no_fee-IsFee r = no_book-IsBook r

pub IsFee-Keeps : (r : Reading) → IsReading r → Keeps (IsFee r) (set_fee r)
unfolding set_fee
IsFee-Keeps r s = Keeps-set_struct (IsFee r) (fee_setters r) (
  Keeps-on_field (IsFee r) (IsBook r) _ _ _ (λ t p. p) (λ t a p q. q) (IsBook-Keeps r s),
  (
    Keeps-free (IsFee r) (λ t. t.fee_decimal) (λ t x. record t { fee_decimal = x }) set_text
        (λ t a p. p) Keeps-set_text,
    (
      Keeps-free (IsFee r) (λ t. t.fee_percent) (λ t x. record t { fee_percent = x }) set_text
          (λ t a p. p) Keeps-set_text,
      (
        Keeps-free (IsFee r) (λ t. t.maker_fee_decimal) (λ t x. record t { maker_fee_decimal = x })
            set_text (λ t a p. p) Keeps-set_text,
        (
          Keeps-free (IsFee r) (λ t. t.maker_fee_percent)
              (λ t x. record t { maker_fee_percent = x }) set_text (λ t a p. p) Keeps-set_text,
          (
            Keeps-free (IsFee r) (λ t. t.taker_fee_decimal)
                (λ t x. record t { taker_fee_decimal = x }) set_text (λ t a p. p) Keeps-set_text,
            (
              Keeps-free (IsFee r) (λ t. t.taker_fee_percent)
                  (λ t x. record t { taker_fee_percent = x }) set_text (λ t a p. p) Keeps-set_text,
              tt,
            ),
          ),
        ),
      ),
    ),
  ),
)

abbrev pub IsCustomerFees : Reading → CustomerFees → Type 0
IsCustomerFees r t = All (IsFee r) t.fees

pub no_customer_fees-IsCustomerFees : (r : Reading) → IsCustomerFees r no_customer_fees
no_customer_fees-IsCustomerFees r = tt

pub IsCustomerFees-Keeps :
    (r : Reading) → IsReading r → Keeps (IsCustomerFees r) (set_customer_fees r)
unfolding set_customer_fees
IsCustomerFees-Keeps r s = Keeps-set_struct (IsCustomerFees r) (customer_fees_setters r) (
  Keeps-on_field (IsCustomerFees r) (All (IsFee r)) _ _ _ (λ t p. p) (λ t a p q. q)
      (Keeps-set_list (IsFee r) no_fee (set_fee r) (no_fee-IsFee r) (IsFee-Keeps r s)),
  (
    Keeps-free (IsCustomerFees r) (λ t. t.withdrawal_fees) (λ t x. record t { withdrawal_fees = x })
        (set_map [] set_text) (λ t a p. p) (Keeps-set_map [] set_text Keeps-set_text),
    tt,
  ),
)
