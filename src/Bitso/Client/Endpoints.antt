-- ===== src/Bitso/Client/Endpoints.antt =====
-- data_server/bitso/client.go: the calls of the API, each with the reading of its payload as an
-- argument: its types are data of other files.
use microservices_trading_bo.Common.{
  ℕ, Text, codes, List, [], ◌∷◌, ◌++◌, Option, none, some, Outcome, ok, err, panics,
}
use microservices_trading_bo.Common.Names.{Table, name_of}
use microservices_trading_bo.Ws.Channel.{Run, done, blocked, panicked}
use microservices_trading_bo.Bitso.Book.{Book, book_string}
use microservices_trading_bo.Bitso.Enums.Operation.{
  operation_funding, operation_withdrawal, operation_trade, operation_fee,
}
use microservices_trading_bo.Bitso.Client.{Failure, Libraries}
use microservices_trading_bo.Bitso.Client.Api.{World, get_response, delete_response, post_response}

-- `strings.Join(oids, "-")`
unfoldable pub join_dashes : List Text → Text
join_dashes [] = []
join_dashes (oid ∷ []) = oid
join_dashes (oid ∷ (next ∷ oids)) = oid ++ b'-' ∷ join_dashes (next ∷ oids)

-- `optype`
abbrev pub optype : Table
optype =
    (operation_funding, codes "fundings")
    ∷ (operation_withdrawal, codes "withdrawals")
    ∷ (operation_trade, codes "trades")
    ∷ (operation_fee, codes "fees")
    ∷ []

-- A key that the map does not hold gives the empty string.
abbrev text_or_empty : Option Text → Text
text_or_empty none = []
text_or_empty (some z) = z

-- The payload of an answer.
abbrev pub Reader {ℓ} : Type ℓ → Type ℓ
Reader A = Text → Outcome Failure A

-- `orders[0]`, if there is one.
abbrev pub first_order {ℓ} : {A : Type ℓ} → Outcome Failure (List A) → Outcome Failure A
first_order (ok (order ∷ orders)) = ok order
first_order (ok []) = err Failure.no_such_order
first_order (err e) = err e
first_order panics = panics

module _ {ℓ} (lib : Libraries) {A : Type ℓ} where
  unfoldable pub available_books : World → Reader A → Run (World × Outcome Failure A)
  unfolding get_response
  available_books w read = get_response lib w (codes "/available_books") [] read

  unfoldable pub tickers : World → Reader A → Run (World × Outcome Failure A)
  unfolding get_response
  tickers w read = get_response lib w (codes "/ticker") [] read

  unfoldable pub trades : World → List (Text × Text) → Reader A → Run (World × Outcome Failure A)
  unfolding get_response
  trades w params read = get_response lib w (codes "/trades") params read

  unfoldable pub order_book :
      World → List (Text × Text) → Reader A → Run (World × Outcome Failure A)
  unfolding get_response
  order_book w params read = get_response lib w (codes "/order_book") params read

  unfoldable pub balances : World → List (Text × Text) → Reader A → Run (World × Outcome Failure A)
  unfolding get_response
  balances w params read = get_response lib w (codes "/balance") params read

  unfoldable pub fees : World → List (Text × Text) → Reader A → Run (World × Outcome Failure A)
  unfolding get_response
  fees w params read = get_response lib w (codes "/fees") params read

  unfoldable pub ledger : World → List (Text × Text) → Reader A → Run (World × Outcome Failure A)
  unfolding get_response
  ledger w params read = get_response lib w (codes "/ledger") params read

  unfoldable pub fundings : World → List (Text × Text) → Reader A → Run (World × Outcome Failure A)
  unfolding get_response
  fundings w params read = get_response lib w (codes "/fundings") params read

  unfoldable pub withdrawals :
      World → List (Text × Text) → Reader A → Run (World × Outcome Failure A)
  unfolding get_response
  withdrawals w params read = get_response lib w (codes "/withdrawals") params read

  unfoldable pub my_trades : World → List (Text × Text) → Reader A → Run (World × Outcome Failure A)
  unfolding get_response
  my_trades w params read = get_response lib w (codes "/user_trades") params read

  unfoldable pub my_open_orders :
      World → List (Text × Text) → Reader A → Run (World × Outcome Failure A)
  unfolding get_response
  my_open_orders w params read = get_response lib w (codes "/open_orders") params read

  unfoldable pub ticker : World → Book → Reader A → Run (World × Outcome Failure A)
  unfolding get_response book_string
  ticker w book read =
      get_response lib w (codes "/ticker") ((codes "book", book_string book) ∷ []) read

  unfoldable pub ledger_by_operation :
      World → ℕ → List (Text × Text) → Reader A → Run (World × Outcome Failure A)
  unfolding get_response name_of
  ledger_by_operation w op params read =
      get_response lib w (codes "/ledger/" ++ text_or_empty (name_of optype op)) params read

  unfoldable pub order_trades :
      World → Text → List (Text × Text) → Reader A → Run (World × Outcome Failure A)
  unfolding get_response
  order_trades w oid params read = get_response lib w (codes "/order_trades/" ++ oid) params read

  unfoldable pub lookup_orders :
      World → List Text → Reader (List A) → Run (World × Outcome Failure (List A))
  unfolding get_response join_dashes
  lookup_orders w oids read = get_response lib w (codes "/orders/" ++ join_dashes oids) [] read

  unfoldable pub lookup_order : World → Text → Reader (List A) → Run (World × Outcome Failure A)
  unfolding lookup_orders
  lookup_order w oid read = elim (lookup_orders w (oid ∷ []) read) [
    | done (w', orders) ↦ done (w', first_order orders)
    | blocked ↦ blocked
    | panicked ↦ panicked
  ]

  unfoldable pub cancel_orders : World → List Text → Reader A → Run (World × Outcome Failure A)
  unfolding delete_response join_dashes
  cancel_orders w oids read = delete_response lib w (codes "/orders/" ++ join_dashes oids) [] read

  unfoldable pub cancel_order : World → Text → Reader A → Run (World × Outcome Failure A)
  unfolding cancel_orders
  cancel_order w oid read = cancel_orders w (oid ∷ []) read

  -- `encoded` is `json.Marshal(order)`.
  unfoldable pub place_order :
      World → Outcome Failure Text → Reader A → Run (World × Outcome Failure A)
  unfolding post_response
  place_order w encoded read = post_response lib w (codes "/orders/") encoded read
