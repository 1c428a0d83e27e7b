-- ===== src/Trading/Store/Laws.antt =====
-- What is reported of a ticker that is saved, and how far the tables are made.
use microservices_trading_bo.Common.{◌≡◌, Text, Option, none, Option-cases, inl, inr, arith}
use microservices_trading_bo.Trading.Fate.{Fate, returns, Fate-cases}
use microservices_trading_bo.Bitso.Payload.{Ticker}
use microservices_trading_bo.Trading.Store.{
  Cassandra, insert_ticker, ticker_row, insert_in_goroutine, channels_ok, save_ticker,
}

-- Whether the insert fails or not, SaveTicker reports no error, with the database as the insert left
-- it; an insert that panics ends the program.
pub save_ticker_lem :
    (lib : Cassandra) (session : Option lib.Session) (id : Text) (t : Ticker lib.Instant)
    (db : lib.Db)
    → save_ticker lib session id t db
      ≡ elim (lib.execute session insert_ticker (ticker_row lib id t) db) [
        | returns (db', failed) ↦ returns (db', none)
        | Fate.waits ↦ Fate.waits
        | Fate.panics ↦ Fate.dies
        | Fate.dies ↦ Fate.dies
      ]
unfolding save_ticker insert_in_goroutine channels_ok
save_ticker_lem lib session id t db =
    elim (Fate-cases (lib.execute session insert_ticker (ticker_row lib id t) db)) [
      | inl ((db', failed), e) ↦ elim (Option-cases failed) [
        | inl f ↦ ground (arith, e, f)
        | inr (fault, f) ↦ ground (arith, e, f)
      ]
      | inr (inl e) ↦ ground (arith, e)
      | inr (inr (inl e)) ↦ ground (arith, e)
      | inr (inr (inr e)) ↦ ground (arith, e)
    ]
