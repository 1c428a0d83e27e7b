-- ===== src/Bitso/Answers/Calls.antt =====
-- data_server/bitso/client.go: what each call reads the answer into, and the calls by their names.
pub mod Calm
pub mod Readers
pub mod Laws
pub mod Returned
use microservices_trading_bo.Common.{Text, codes, List, [], ◌∷◌, Outcome, ok, err, panics, ◌>>=◌, ℕ}
use microservices_trading_bo.Ws.Channel.{Run}
use microservices_trading_bo.Bitso.Json.{Error}
use microservices_trading_bo.Bitso.Book.{Book}
use microservices_trading_bo.Bitso.Time.{Time}
use microservices_trading_bo.Bitso.Payload.{
  Trade, UserTrade, OrderBook, UserOrder, ExchangeOrderBook, Ticker, Balance, CustomerFees, Funding,
  Withdrawal, Transaction,
}
use microservices_trading_bo.Bitso.Value.{Value, Setter, on_field, set_list, set_struct, set_text}
use microservices_trading_bo.Bitso.Client.{Failure, Libraries}
use microservices_trading_bo.Bitso.Client.Api.{World}
use microservices_trading_bo.Bitso.Client.Endpoints
use microservices_trading_bo.Bitso.Client.Endpoints.{Reader}
use microservices_trading_bo.Bitso.Answers.{Reading, Dynamic}
use microservices_trading_bo.Bitso.Answers.Trades.{
  no_trade, set_trade, no_user_trade, set_user_trade, set_user_order_trade,
}
use microservices_trading_bo.Bitso.Answers.Orders.{
  no_order_book, set_order_book, no_user_order, set_user_order, no_exchange_order_book,
  set_exchange_order_book,
}
use microservices_trading_bo.Bitso.Answers.Account.{
  no_ticker, set_ticker, no_balance, set_balance, no_customer_fees, set_customer_fees,
}
use microservices_trading_bo.Bitso.Answers.Ledger.{
  no_funding, set_funding, no_withdrawal, set_withdrawal, no_transaction, set_transaction,
}

-- The syntax of JSON, and an error of the decoding as one of the client.
pub record Parsing : Type 0 where
  pub parse : Text → Outcome Failure Value
  pub failure : Error → Failure

abbrev pub as_failure : {A : Type 0} → Parsing → Outcome Error A → Outcome Failure A
as_failure p (ok a) = ok a
as_failure p (err e) = err (p.failure e)
as_failure p panics = panics

-- A struct with one field, as it is left.
abbrev pub wrapped : {A : Type 0} → Text → Setter A → Setter A
wrapped name set = set_struct ((name, on_field (λ a. a) (λ _ x. x) set) ∷ [])

-- `json.Unmarshal(buf, &res)`, where `res` has the field Payload.
unfoldable pub read_payload : {A : Type 0} → Parsing → A → Setter A → Reader A
unfolding set_struct
read_payload p zero_value set buf = do
  v ← p.parse buf
  as_failure p (wrapped (codes "payload") set zero_value v)

module _ (p : Parsing) (r : Reading) where
  unfoldable pub available_books_reader : Reader (List ExchangeOrderBook)
  unfolding read_payload
  available_books_reader =
      read_payload p [] (set_list no_exchange_order_book (set_exchange_order_book r))

  unfoldable pub tickers_reader : Reader (List (Ticker Time))
  unfolding read_payload
  tickers_reader = read_payload p [] (set_list no_ticker (set_ticker r))

  unfoldable pub ticker_reader : Reader (Ticker Time)
  unfolding read_payload
  ticker_reader = read_payload p no_ticker (set_ticker r)

  unfoldable pub trades_reader : Reader (List Trade)
  unfolding read_payload
  trades_reader = read_payload p [] (set_list no_trade (set_trade r))

  unfoldable pub order_book_reader : Reader (OrderBook)
  unfolding read_payload
  order_book_reader = read_payload p no_order_book (set_order_book r)

  unfoldable pub fees_reader : Reader (CustomerFees)
  unfolding read_payload
  fees_reader = read_payload p no_customer_fees (set_customer_fees r)

  unfoldable pub my_trades_reader : Reader (List UserTrade)
  unfolding read_payload
  my_trades_reader = read_payload p [] (set_list no_user_trade (set_user_trade r))

  unfoldable pub order_trades_reader : Reader (List UserTrade)
  unfolding read_payload
  order_trades_reader = read_payload p [] (set_list no_user_trade (set_user_order_trade r))

  unfoldable pub my_open_orders_reader : Reader (List UserOrder)
  unfolding read_payload
  my_open_orders_reader = read_payload p [] (set_list no_user_order (set_user_order r))

  -- The payload has a field of its own.
  unfoldable pub balances_reader : Reader (List Balance)
  unfolding read_payload
  balances_reader =
      read_payload p [] (wrapped (codes "balances") (set_list no_balance (set_balance r)))

  module _ (dyn : Dynamic) where
    unfoldable pub ledger_reader : Reader (List (Transaction dyn.Any))
    unfolding read_payload
    ledger_reader = read_payload p [] (set_list (no_transaction dyn) (set_transaction r dyn))

    unfoldable pub fundings_reader : Reader (List (Funding dyn.Any))
    unfolding read_payload
    fundings_reader = read_payload p [] (set_list (no_funding dyn) (set_funding r dyn))

    unfoldable pub withdrawals_reader : Reader (List (Withdrawal dyn.Any))
    unfolding read_payload
    withdrawals_reader = read_payload p [] (set_list (no_withdrawal dyn) (set_withdrawal r dyn))

-- A call of the API that returns data, with its arguments.
pub data Call : Type 0 where
  available_books tickers : Call
  ticker : Book → Call
  trades order_book balances fees ledger fundings withdrawals my_trades my_open_orders :
      List (Text × Text) → Call
  ledger_by_operation : ℕ → List (Text × Text) → Call
  order_trades : Text → List (Text × Text) → Call
  lookup_orders : List Text → Call
  lookup_order : Text → Call

abbrev pub Answer : Dynamic → Call → Type 0
Answer dyn available_books = List ExchangeOrderBook
Answer dyn tickers = List (Ticker Time)
Answer dyn (ticker _) = Ticker Time
Answer dyn (trades _) = List Trade
Answer dyn (order_book _) = OrderBook
Answer dyn (balances _) = List Balance
Answer dyn (fees _) = CustomerFees
Answer dyn (ledger _) = List (Transaction dyn.Any)
Answer dyn (fundings _) = List (Funding dyn.Any)
Answer dyn (withdrawals _) = List (Withdrawal dyn.Any)
Answer dyn (my_trades _) = List UserTrade
Answer dyn (my_open_orders _) = List UserOrder
Answer dyn (ledger_by_operation _ _) = List (Transaction dyn.Any)
Answer dyn (order_trades _ _) = List UserTrade
Answer dyn (lookup_orders _) = List UserOrder
Answer dyn (lookup_order _) = UserOrder

unfoldable pub perform :
    Libraries
    → Parsing
    → Reading
    → (dyn : Dynamic) (c : Call) → World
    → Run (World × Outcome Failure (Answer dyn c))
unfolding Endpoints.available_books Endpoints.tickers Endpoints.ticker Endpoints.trades
    Endpoints.order_book Endpoints.balances Endpoints.fees Endpoints.ledger Endpoints.fundings
    Endpoints.withdrawals Endpoints.my_trades Endpoints.my_open_orders Endpoints.ledger_by_operation
    Endpoints.order_trades Endpoints.lookup_orders Endpoints.lookup_order available_books_reader
    tickers_reader ticker_reader trades_reader order_book_reader fees_reader my_trades_reader
    order_trades_reader my_open_orders_reader ledger_reader fundings_reader withdrawals_reader
    balances_reader
perform lib p r dyn available_books w = Endpoints.available_books lib w (available_books_reader p r)
perform lib p r dyn tickers w = Endpoints.tickers lib w (tickers_reader p r)
perform lib p r dyn (ticker book) w = Endpoints.ticker lib w book (ticker_reader p r)
perform lib p r dyn (trades params) w = Endpoints.trades lib w params (trades_reader p r)
perform lib p r dyn (order_book params) w =
    Endpoints.order_book lib w params (order_book_reader p r)
perform lib p r dyn (balances params) w = Endpoints.balances lib w params (balances_reader p r)
perform lib p r dyn (fees params) w = Endpoints.fees lib w params (fees_reader p r)
perform lib p r dyn (my_trades params) w = Endpoints.my_trades lib w params (my_trades_reader p r)
perform lib p r dyn (my_open_orders params) w =
    Endpoints.my_open_orders lib w params (my_open_orders_reader p r)
perform lib p r dyn (ledger params) w = Endpoints.ledger lib w params (ledger_reader p r dyn)
perform lib p r dyn (fundings params) w = Endpoints.fundings lib w params (fundings_reader p r dyn)
perform lib p r dyn (withdrawals params) w =
    Endpoints.withdrawals lib w params (withdrawals_reader p r dyn)
perform lib p r dyn (ledger_by_operation op params) w =
    Endpoints.ledger_by_operation lib w op params (ledger_reader p r dyn)
perform lib p r dyn (order_trades oid params) w =
    Endpoints.order_trades lib w oid params (order_trades_reader p r)
perform lib p r dyn (lookup_orders oids) w =
    Endpoints.lookup_orders lib w oids (my_open_orders_reader p r)
perform lib p r dyn (lookup_order oid) w =
    Endpoints.lookup_order lib w oid (my_open_orders_reader p r)
