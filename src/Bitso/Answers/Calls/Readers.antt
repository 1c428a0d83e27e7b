-- ===== src/Bitso/Answers/Calls/Readers.antt =====
-- What each call of data_server/bitso/client.go reads its answer into is well formed.
use microservices_trading_bo.Common.{codes, [], All}
use microservices_trading_bo.Bitso.Value.{set_list}
use microservices_trading_bo.Bitso.Value.Laws.{Holds-intro, Anything, Keeps, Keeps-set_list}
use microservices_trading_bo.Bitso.Client.{Libraries}
use microservices_trading_bo.Bitso.Answers.{Reading, Dynamic}
use microservices_trading_bo.Bitso.Answers.Trades.{
  no_trade, set_trade, no_user_trade, set_user_trade, set_user_order_trade,
}
use microservices_trading_bo.Bitso.Answers.Orders.{
  no_order_book, set_order_book, no_user_order, set_user_order, no_exchange_order_book,
  set_exchange_order_book,
}
use microservices_trading_bo.Bitso.Answers.Account.{
  no_ticker, set_ticker, no_balance, set_balance, no_customer_fees, set_customer_fees,
}
use microservices_trading_bo.Bitso.Answers.Ledger.{
  no_funding, set_funding, no_withdrawal, set_withdrawal, no_transaction, set_transaction,
}
use microservices_trading_bo.Bitso.Answers.Sound.{IsReading}
use microservices_trading_bo.Bitso.Answers.Sound.Trades.{
  IsTrade, no_trade-IsTrade, IsTrade-Keeps, IsUserTrade, no_user_trade-IsUserTrade,
  IsUserTrade-Keeps, set_user_order_trade-Keeps,
}
use microservices_trading_bo.Bitso.Answers.Sound.Orders.{
  IsOrderBook, no_order_book-IsOrderBook, IsOrderBook-Keeps, IsUserOrder, no_user_order-IsUserOrder,
  IsUserOrder-Keeps, IsExchangeOrderBook, no_exchange_order_book-IsExchangeOrderBook,
  IsExchangeOrderBook-Keeps,
}
use microservices_trading_bo.Bitso.Answers.Sound.Account.{
  IsTicker, no_ticker-IsTicker, IsTicker-Keeps, IsBalance, no_balance-IsBalance, IsBalance-Keeps,
  IsCustomerFees, no_customer_fees-IsCustomerFees, IsCustomerFees-Keeps,
}
use microservices_trading_bo.Bitso.Answers.Sound.Ledger.{
  IsFunding, no_funding-IsFunding, IsFunding-Keeps, IsWithdrawal, no_withdrawal-IsWithdrawal,
  IsWithdrawal-Keeps, IsTransaction, no_transaction-IsTransaction, IsTransaction-Keeps,
}
use microservices_trading_bo.Bitso.Answers.Calls.{
  Parsing, wrapped, available_books_reader, tickers_reader, ticker_reader, trades_reader,
  order_book_reader, balances_reader, fees_reader, ledger_reader, fundings_reader,
  withdrawals_reader, my_trades_reader, order_trades_reader, my_open_orders_reader,
}
use microservices_trading_bo.Bitso.Answers.Calls.Calm.{
  IsCalm, Gives, Keeps-wrapped, Gives-read_payload,
}

module _ (lib : Libraries) (p : Parsing) (r : Reading) (dyn : Dynamic) (s : IsReading r)
    (calm : IsCalm lib p dyn) where
  any-Anything : Keeps Anything dyn.set_any
  any-Anything a v _ = Holds-intro Anything (dyn.set_any a v) (calm.set_any a v) (λ _ _. tt)

  pub available_books_reader-Gives :
      Gives (All (IsExchangeOrderBook r)) (available_books_reader p r)
  unfolding available_books_reader
  available_books_reader-Gives =
      Gives-read_payload lib p dyn calm (All (IsExchangeOrderBook r)) []
        (set_list no_exchange_order_book (set_exchange_order_book r)) tt
        (Keeps-set_list (IsExchangeOrderBook r) no_exchange_order_book (set_exchange_order_book r)
          (no_exchange_order_book-IsExchangeOrderBook r) (IsExchangeOrderBook-Keeps r s))

  pub tickers_reader-Gives : Gives (All (IsTicker r)) (tickers_reader p r)
  unfolding tickers_reader
  tickers_reader-Gives =
      Gives-read_payload lib p dyn calm (All (IsTicker r)) [] (set_list no_ticker (set_ticker r)) tt
        (Keeps-set_list (IsTicker r) no_ticker (set_ticker r) (no_ticker-IsTicker r)
          (IsTicker-Keeps r s))

  pub ticker_reader-Gives : Gives (IsTicker r) (ticker_reader p r)
  unfolding ticker_reader
  ticker_reader-Gives =
      Gives-read_payload lib p dyn calm (IsTicker r) no_ticker (set_ticker r) (no_ticker-IsTicker r)
        (IsTicker-Keeps r s)

  pub trades_reader-Gives : Gives (All (IsTrade r)) (trades_reader p r)
  unfolding trades_reader
  trades_reader-Gives =
      Gives-read_payload lib p dyn calm (All (IsTrade r)) [] (set_list no_trade (set_trade r)) tt
        (Keeps-set_list (IsTrade r) no_trade (set_trade r) (no_trade-IsTrade r) (IsTrade-Keeps r s))

  pub order_book_reader-Gives : Gives (IsOrderBook r) (order_book_reader p r)
  unfolding order_book_reader
  order_book_reader-Gives =
      Gives-read_payload lib p dyn calm (IsOrderBook r) no_order_book (set_order_book r)
        (no_order_book-IsOrderBook r) (IsOrderBook-Keeps r s)

  pub balances_reader-Gives : Gives (All (IsBalance r)) (balances_reader p r)
  unfolding balances_reader
  balances_reader-Gives =
      Gives-read_payload lib p dyn calm (All (IsBalance r)) []
        (wrapped (codes "balances") (set_list no_balance (set_balance r))) tt
        (Keeps-wrapped (All (IsBalance r)) (codes "balances") (set_list no_balance (set_balance r))
          (Keeps-set_list (IsBalance r) no_balance (set_balance r) (no_balance-IsBalance r)
            (IsBalance-Keeps r s)))

  pub fees_reader-Gives : Gives (IsCustomerFees r) (fees_reader p r)
  unfolding fees_reader
  fees_reader-Gives =
      Gives-read_payload lib p dyn calm (IsCustomerFees r) no_customer_fees (set_customer_fees r)
        (no_customer_fees-IsCustomerFees r) (IsCustomerFees-Keeps r s)

  pub ledger_reader-Gives : Gives (All (IsTransaction r dyn)) (ledger_reader p r dyn)
  unfolding ledger_reader
  ledger_reader-Gives =
      Gives-read_payload lib p dyn calm (All (IsTransaction r dyn)) []
        (set_list (no_transaction dyn) (set_transaction r dyn)) tt
        (Keeps-set_list (IsTransaction r dyn) (no_transaction dyn) (set_transaction r dyn)
          (no_transaction-IsTransaction r dyn) (IsTransaction-Keeps r dyn s any-Anything))

  pub fundings_reader-Gives : Gives (All (IsFunding r dyn)) (fundings_reader p r dyn)
  unfolding fundings_reader
  fundings_reader-Gives =
      Gives-read_payload lib p dyn calm (All (IsFunding r dyn)) []
        (set_list (no_funding dyn) (set_funding r dyn)) tt
        (Keeps-set_list (IsFunding r dyn) (no_funding dyn) (set_funding r dyn)
          (no_funding-IsFunding r dyn) (IsFunding-Keeps r dyn s any-Anything))

  pub withdrawals_reader-Gives : Gives (All (IsWithdrawal r dyn)) (withdrawals_reader p r dyn)
  unfolding withdrawals_reader
  withdrawals_reader-Gives =
      Gives-read_payload lib p dyn calm (All (IsWithdrawal r dyn)) []
        (set_list (no_withdrawal dyn) (set_withdrawal r dyn)) tt
        (Keeps-set_list (IsWithdrawal r dyn) (no_withdrawal dyn) (set_withdrawal r dyn)
          (no_withdrawal-IsWithdrawal r dyn) (IsWithdrawal-Keeps r dyn s any-Anything))

  pub my_trades_reader-Gives : Gives (All (IsUserTrade r)) (my_trades_reader p r)
  unfolding my_trades_reader
  my_trades_reader-Gives =
      Gives-read_payload lib p dyn calm (All (IsUserTrade r)) []
        (set_list no_user_trade (set_user_trade r)) tt
        (Keeps-set_list (IsUserTrade r) no_user_trade (set_user_trade r)
          (no_user_trade-IsUserTrade r) (IsUserTrade-Keeps r s))

  pub my_open_orders_reader-Gives : Gives (All (IsUserOrder r)) (my_open_orders_reader p r)
  unfolding my_open_orders_reader
  my_open_orders_reader-Gives =
      Gives-read_payload lib p dyn calm (All (IsUserOrder r)) []
        (set_list no_user_order (set_user_order r)) tt
        (Keeps-set_list (IsUserOrder r) no_user_order (set_user_order r)
          (no_user_order-IsUserOrder r) (IsUserOrder-Keeps r s))

  pub order_trades_reader-Gives : Gives (All (IsUserTrade r)) (order_trades_reader p r)
  unfolding order_trades_reader
  order_trades_reader-Gives =
      Gives-read_payload lib p dyn calm (All (IsUserTrade r)) []
        (set_list no_user_trade (set_user_order_trade r)) tt
        (Keeps-set_list (IsUserTrade r) no_user_trade (set_user_order_trade r)
          (no_user_trade-IsUserTrade r) (set_user_order_trade-Keeps r s))
