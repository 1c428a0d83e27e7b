-- ===== src/Bitso/Answers/Calls/Laws.antt =====
-- What the calls of data_server/bitso/client.go return is well formed, whatever the exchange answers.
use microservices_trading_bo.Common.{
  ◌≡◌, List, [], ◌∷◌, Outcome, ok, err, panics, All, arith, inl, inr, subst,
}
use microservices_trading_bo.Ws.Channel.{done, Run-cases}
use microservices_trading_bo.Bitso.Value.Laws.{Holds}
use microservices_trading_bo.Bitso.Client.{Failure, Libraries}
use microservices_trading_bo.Bitso.Client.Api.{World}
use microservices_trading_bo.Bitso.Client.Endpoints
use microservices_trading_bo.Bitso.Client.Endpoints.{Reader}
use microservices_trading_bo.Bitso.Answers.{Reading, Dynamic}
use microservices_trading_bo.Bitso.Answers.Sound.{IsReading}
use microservices_trading_bo.Bitso.Answers.Sound.Trades.{IsTrade, IsUserTrade}
use microservices_trading_bo.Bitso.Answers.Sound.Orders.{
  IsOrderBook, IsUserOrder, IsExchangeOrderBook,
}
use microservices_trading_bo.Bitso.Answers.Sound.Account.{IsTicker, IsBalance, IsCustomerFees}
use microservices_trading_bo.Bitso.Answers.Sound.Ledger.{IsFunding, IsWithdrawal, IsTransaction}
use microservices_trading_bo.Bitso.Answers.Calls.{
  Parsing, Call, Answer, perform, available_books, tickers, ticker, trades, order_book, balances,
  fees, ledger, fundings, withdrawals, my_trades, my_open_orders, ledger_by_operation, order_trades,
  lookup_orders, lookup_order, my_open_orders_reader,
}
use microservices_trading_bo.Bitso.Answers.Calls.Calm.{IsCalm, Gives-get_response}
use microservices_trading_bo.Bitso.Answers.Calls.Readers.{
  available_books_reader-Gives, tickers_reader-Gives, ticker_reader-Gives, trades_reader-Gives,
  order_book_reader-Gives, balances_reader-Gives, fees_reader-Gives, ledger_reader-Gives,
  fundings_reader-Gives, withdrawals_reader-Gives, my_trades_reader-Gives,
  my_open_orders_reader-Gives, order_trades_reader-Gives,
}

-- Every book is one that its name is parsed to, every currency is in lower case, every side, status and
-- operation is declared or 0, every id is below 2 ^ 64, every time is one of the calendar.
abbrev pub IsWellFormed : Reading → (dyn : Dynamic) (c : Call) → Answer dyn c → Type 0
IsWellFormed r dyn available_books = All (IsExchangeOrderBook r)
IsWellFormed r dyn tickers = All (IsTicker r)
IsWellFormed r dyn (ticker _) = IsTicker r
IsWellFormed r dyn (trades _) = All (IsTrade r)
IsWellFormed r dyn (order_book _) = IsOrderBook r
IsWellFormed r dyn (balances _) = All (IsBalance r)
IsWellFormed r dyn (fees _) = IsCustomerFees r
IsWellFormed r dyn (ledger _) = All (IsTransaction r dyn)
IsWellFormed r dyn (fundings _) = All (IsFunding r dyn)
IsWellFormed r dyn (withdrawals _) = All (IsWithdrawal r dyn)
IsWellFormed r dyn (my_trades _) = All (IsUserTrade r)
IsWellFormed r dyn (my_open_orders _) = All (IsUserOrder r)
IsWellFormed r dyn (ledger_by_operation _ _) = All (IsTransaction r dyn)
IsWellFormed r dyn (order_trades _ _) = All (IsUserTrade r)
IsWellFormed r dyn (lookup_orders _) = All (IsUserOrder r)
IsWellFormed r dyn (lookup_order _) = IsUserOrder r

Holds-first_order :
    {A : Type 0} (P : A → Type 0) (answer : Outcome Failure (List A))
    → Holds (All P) answer
    → Holds P (Endpoints.first_order answer)
Holds-first_order P (ok (o ∷ orders)) h = h.0
Holds-first_order P (ok []) h = tt
Holds-first_order P (err f) h = tt
Holds-first_order P panics h = h

-- If the enumerations are read by the tables of the package, in any order, and lowering is as documented:
-- whatever the exchange answers, a call whose libraries give values or errors does not end in a panic;
-- and what it returns is well formed: each book is one that its own name is parsed to, each currency is
-- in lower case, each side, status and operation is declared or 0, each transaction id is below
-- 2 ^ 64, and each time is one of the calendar.
pub perform-IsWellFormed :
    (lib : Libraries) (p : Parsing) (r : Reading) (dyn : Dynamic) (c : Call) (w w' : World)
    (x : Outcome Failure (Answer dyn c))
    → IsReading r
    → IsCalm lib p dyn
    → perform lib p r dyn c w ≡ done (w', x)
    → Holds (IsWellFormed r dyn c) x
unfolding perform
perform-IsWellFormed lib p r dyn available_books w w' x s calm e =
    Gives-get_response lib p dyn calm (All (IsExchangeOrderBook r)) w _ _ _ w' x
      (available_books_reader-Gives lib p r dyn s calm) e
perform-IsWellFormed lib p r dyn tickers w w' x s calm e =
    Gives-get_response lib p dyn calm (All (IsTicker r)) w _ _ _ w' x
      (tickers_reader-Gives lib p r dyn s calm) e
perform-IsWellFormed lib p r dyn (ticker book) w w' x s calm e =
    Gives-get_response lib p dyn calm (IsTicker r) w _ _ _ w' x
      (ticker_reader-Gives lib p r dyn s calm) e
perform-IsWellFormed lib p r dyn (trades params) w w' x s calm e =
    Gives-get_response lib p dyn calm (All (IsTrade r)) w _ _ _ w' x
      (trades_reader-Gives lib p r dyn s calm) e
perform-IsWellFormed lib p r dyn (order_book params) w w' x s calm e =
    Gives-get_response lib p dyn calm (IsOrderBook r) w _ _ _ w' x
      (order_book_reader-Gives lib p r dyn s calm) e
perform-IsWellFormed lib p r dyn (balances params) w w' x s calm e =
    Gives-get_response lib p dyn calm (All (IsBalance r)) w _ _ _ w' x
      (balances_reader-Gives lib p r dyn s calm) e
perform-IsWellFormed lib p r dyn (fees params) w w' x s calm e =
    Gives-get_response lib p dyn calm (IsCustomerFees r) w _ _ _ w' x
      (fees_reader-Gives lib p r dyn s calm) e
perform-IsWellFormed lib p r dyn (ledger params) w w' x s calm e =
    Gives-get_response lib p dyn calm (All (IsTransaction r dyn)) w _ _ _ w' x
      (ledger_reader-Gives lib p r dyn s calm) e
perform-IsWellFormed lib p r dyn (fundings params) w w' x s calm e =
    Gives-get_response lib p dyn calm (All (IsFunding r dyn)) w _ _ _ w' x
      (fundings_reader-Gives lib p r dyn s calm) e
perform-IsWellFormed lib p r dyn (withdrawals params) w w' x s calm e =
    Gives-get_response lib p dyn calm (All (IsWithdrawal r dyn)) w _ _ _ w' x
      (withdrawals_reader-Gives lib p r dyn s calm) e
perform-IsWellFormed lib p r dyn (my_trades params) w w' x s calm e =
    Gives-get_response lib p dyn calm (All (IsUserTrade r)) w _ _ _ w' x
      (my_trades_reader-Gives lib p r dyn s calm) e
perform-IsWellFormed lib p r dyn (my_open_orders params) w w' x s calm e =
    Gives-get_response lib p dyn calm (All (IsUserOrder r)) w _ _ _ w' x
      (my_open_orders_reader-Gives lib p r dyn s calm) e
perform-IsWellFormed lib p r dyn (ledger_by_operation op params) w w' x s calm e =
    Gives-get_response lib p dyn calm (All (IsTransaction r dyn)) w _ _ _ w' x
      (ledger_reader-Gives lib p r dyn s calm) e
perform-IsWellFormed lib p r dyn (order_trades oid params) w w' x s calm e =
    Gives-get_response lib p dyn calm (All (IsUserTrade r)) w _ _ _ w' x
      (order_trades_reader-Gives lib p r dyn s calm) e
perform-IsWellFormed lib p r dyn (lookup_orders oids) w w' x s calm e =
    Gives-get_response lib p dyn calm (All (IsUserOrder r)) w _ _ _ w' x
      (my_open_orders_reader-Gives lib p r dyn s calm) e
perform-IsWellFormed lib p r dyn (lookup_order oid) w w' x s calm e =
    elim (Run-cases (Endpoints.lookup_orders lib w (oid ∷ []) (my_open_orders_reader p r))) [
      | inl ((v, orders), looked) ↦
          let took : Endpoints.first_order orders ≡ x = ground (arith, looked, e) in
          subst (Holds (IsUserOrder r)) took (
            Holds-first_order (IsUserOrder r) orders (
              Gives-get_response lib p dyn calm (All (IsUserOrder r)) w _ _ _ v orders
                (my_open_orders_reader-Gives lib p r dyn s calm) looked))
      | inr (inl looked) ↦ absurd (ground (arith, looked, e))
      | inr (inr looked) ↦ absurd (ground (arith, looked, e))
    ]
