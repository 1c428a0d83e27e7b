-- ===== src/Trading/Store.antt =====
-- data_server/database/cassandra_db.go, repository/crud and utils/channels: the connection to the
-- database, and what is saved. The driver is the record `Cassandra`.
pub mod Laws
use microservices_trading_bo.Common.{
  ℕ, Text, codes, Bool, true, false, List, [], ◌∷◌, Option, none, some, if◌then◌else◌,
}
use microservices_trading_bo.Bitso.Book.{Book}
use microservices_trading_bo.Trading.Fate.{Fate, returns, waits, panics, dies, ◌>>=◌}
use microservices_trading_bo.Bitso.Payload.{Monetary, Ticker, Balance}

pub data Consistency : Type 0 where
  default quorum : Consistency

-- The fields of a `gocql.ClusterConfig` that the code sets; the timeout is in seconds.
pub record ClusterConfig : Type 0 where
  pub host : Text
  pub consistency : Consistency
  pub proto_version : ℕ
  pub connect_timeout : ℕ
  pub username : Text
  pub password : Text

-- A value that is bound in a query.
pub data Bound (Instant : Type 0) : Type 0 where
  uuid : Text → Bound Instant
  money : Monetary → Bound Instant
  book : Book → Bound Instant
  at : Instant → Bound Instant

-- A pointer that may be nil is an option; so is an error. `Db` is the database. `execute` is `Exec`
-- of a query of a session, and `create_session` the method of a configuration.
pub record Cassandra : Type 1 where
  pub Instant : Type 0
  pub Session : Type 0
  pub Db : Type 0
  pub new_cluster : Text → ClusterConfig
  pub create_session : Option ClusterConfig → Db → Fate (Option Session × Option Text)
  pub execute : Option Session → Text → List (Bound Instant) → Db → Fate (Db × Option Text)

unfoldable pub set_cluster_config : Text → Text → ClusterConfig → ClusterConfig
set_cluster_config username password cluster = record cluster {
  consistency = quorum;
  proto_version = 4;
  connect_timeout = 10;
  username = username;
  password = password;
}

-- The result hides the variable of the package, which has the same name.
unfoldable pub get_cluster : Option ClusterConfig → Option ClusterConfig
get_cluster cluster = none

abbrev create_keyspace : Text
create_keyspace =
    codes
      "CREATE KEYSPACE IF NOT EXISTS crypto_trading WITH REPLICATION = {'class' : 'NetworkTopologyStrategy', 'AWS_VPC_US_WEST_2' : 3};"

abbrev create_ticker : Text
create_ticker =
    codes
      "CREATE TABLE IF NOT EXISTS crypto_trading.ticker (id UUID, ask double, bid double, book varchar, created_at timestamp,high double,last double,low double,volume double,vwap double, PRIMARY KEY (id, book, created_at));"

abbrev create_order : Text
create_order =
    codes
      "CREATE TABLE IF NOT EXISTS crypto_trading.order (id UUID, ask boolean, bid boolean, book varchar, created_at timestamp,high double,last double,low double,volume double,vwap double, PRIMARY KEY (id, book, created_at));"

-- As it stands in the code, without a parenthesis after the columns.
abbrev pub insert_ticker : Text
insert_ticker =
    codes
      "INSERT INTO tickers (id, ask, bid, book, created_at, high,last, low, volume, vwap, VALUES (?, ?, ?,?, ?, ?,?, ?, ?, ?)"

-- `channels.OK`, on what the goroutine sends before it closes the channel.
unfoldable pub channels_ok : List Bool → Bool
channels_ok [] = false
channels_ok (true ∷ _) = true
channels_ok (false ∷ _) = false

module _ (db_lib : Cassandra) where
  open db_lib use {Instant, Session, Db, execute, create_session, new_cluster}

  -- `setDBSchema`: the first error is the end of it.
  unfoldable pub set_db_schema : Option ClusterConfig → Db → Fate Db
  set_db_schema cluster db = do
    (session, failed) ← create_session cluster db
    elim failed [
      | some _ ↦ returns db
      | none ↦ (do
        (db1, failed1) ← execute session create_keyspace [] db
        elim failed1 [
          | some _ ↦ returns db1
          | none ↦ (do
            (db2, failed2) ← execute session create_ticker [] db1
            elim failed2 [
              | some _ ↦ returns db2
              | none ↦ (do (db3, failed3) ← execute session create_order [] db2; returns db3)
            ])
        ])
    ]

  -- The variable of the package afterwards, and the database. The settings come from the
  -- environment.
  unfoldable pub cassandra_init_connection :
      Text → Text → Text → Db → Fate (Option ClusterConfig × Db)
  unfolding set_db_schema set_cluster_config
  cassandra_init_connection ip username password db = do
    let cluster = some (set_cluster_config username password (new_cluster ip))
    db' ← set_db_schema cluster db
    returns (cluster, db')

  abbrev ticker_row : Text → Ticker Instant → List (Bound Instant)
  ticker_row id t =
      uuid id
      ∷ money t.ask
      ∷ money t.bid
      ∷ book t.book
      ∷ at t.created_at
      ∷ money t.high
      ∷ money t.last
      ∷ money t.low
      ∷ money t.volume
      ∷ money t.vwap
      ∷ []

  -- What the goroutine of `SaveTicker` sends. Nothing recovers its panic.
  insert_in_goroutine : Option Session → Text → Ticker Instant → Db → Fate (Db × List Bool)
  insert_in_goroutine session id t db = elim (execute session insert_ticker (ticker_row id t) db) [
    | returns (db', failed) ↦ returns (db', elim failed [ none ↦ true ∷ [] | some _ ↦ false ∷ [] ])
    | waits ↦ waits
    | panics ↦ dies
    | dies ↦ dies
  ]

  -- The goroutine has an `err` of its own; the one that is returned stays nil.
  unfoldable pub save_ticker : Option Session → Text → Ticker Instant → Db → Fate (Db × Option Text)
  unfolding insert_in_goroutine channels_ok
  save_ticker session id t db = do
    let err : Option Text = none
    (db', sent) ← insert_in_goroutine session id t db
    returns (db', if channels_ok sent then none else err)

-- `Save` of a balance calls no database.
unfoldable pub save_balance : Balance → Option Text
unfolding channels_ok
save_balance balance =
    let err : Option Text = none in
    let sent : List Bool = elim err [ none ↦ true ∷ [] | some _ ↦ false ∷ [] ] in
    if channels_ok sent then none else err

-- `Delete` of a balance, neither.
unfoldable pub delete_balance : ℕ → ℕ × Option Text
unfolding channels_ok
delete_balance uid =
    let err : Option Text = none in
    if channels_ok (true ∷ [])
    then elim err [ none ↦ (1, none) | some e ↦ (0, some e) ]
    else (0, err)
