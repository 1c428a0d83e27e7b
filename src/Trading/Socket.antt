-- ===== src/Trading/Socket.antt =====
-- data_server/controllers/socket_controller.go and feclient/websocket.go: the page that forwards what
-- the exchange sends, and saves a ticker with each message.
pub mod Laws
use microservices_trading_bo.Common.{
  ℕ, suc, Text, codes, List, [], ◌∷◌, ◌++◌, Option, none, some, Outcome, ok, err, panics,
}
use microservices_trading_bo.Ws.Channel.{
  Channel, Run, done, blocked, panicked, item, ended, waiting, receive,
}
use microservices_trading_bo.Bitso.Book.{Book, new_book}
use microservices_trading_bo.Bitso.Currency.{to_currency}
use microservices_trading_bo.Bitso.Client.{
  Libraries, Client, new_client, set_api_key, set_api_secret,
}
use microservices_trading_bo.Bitso.Client.Api.{World}
use microservices_trading_bo.Bitso.Client.Endpoints.{Reader, ticker}
use microservices_trading_bo.Bitso.Websocket.{
  Decoding, Item, Websocket, Event, WebsocketMessage, new_websocket, subscribe, step,
}
use microservices_trading_bo.Trading.Fate.{Fate, returns, ◌>>=◌}
use microservices_trading_bo.Bitso.Payload.{Ticker}
use microservices_trading_bo.Trading.Store.{Cassandra, ClusterConfig, get_cluster, save_ticker}

-- The libraries, and what they answer. `load`, `dial` and `upgrade` are the errors of reading the
-- environment, of connecting to the exchange and of the upgrade of the request; `key` and `secret` are read from the
-- environment. `marshal` is json.Marshal of what was received, which is nil on a closed channel;
-- `write` is conn.WriteMessage after the frames that were written before.
pub record Outside : Type 1 where
  pub exchange : Libraries
  pub decoding : Decoding
  pub cassandra : Cassandra
  pub read_ticker : Reader (Ticker cassandra.Instant)
  pub marshal : Option (Item decoding) → Outcome Text Text
  pub write : List Text → Text → Option Text
  pub beyond : ℕ → ℕ
  pub load : Option Text
  pub dial : Option Text
  pub upgrade : Option Text
  pub key : Text
  pub secret : Text
  pub cluster : Option ClusterConfig
  pub row_id : Text

-- How a round ends: if it returns, the next one begins.
abbrev pub Next : Type 0
Next = Fate {0} Unit

module _ (o : Outside) where
  open o use {exchange, decoding, cassandra, read_ticker, marshal, write}

  -- `coming` is what the exchange's reader has not done yet; `sent` holds the frames written to the page; `deferred` counts the calls of `cws.Close` to come.
  pub record Handler : Type 0 where
    pub world : World
    pub ws : Websocket decoding
    pub coming : List (Event decoding)
    pub subscribed : WebsocketMessage
    pub sent : List Text
    pub deferred : ℕ
    pub page_closed : ℕ
    pub db : cassandra.Db

  unfoldable pub book : Book
  unfolding new_book to_currency
  book = new_book (to_currency o.beyond (codes "btc")) (to_currency o.beyond (codes "mxn"))

  -- `SaveTiker`: the one `err` is that of the session.
  unfoldable pub save_tiker :
      Option (Ticker cassandra.Instant) → cassandra.Db → Fate (cassandra.Db × Option Text)
  unfolding get_cluster save_ticker
  save_tiker t db = do
    (session, failed) ← cassandra.create_session (get_cluster o.cluster) db
    elim t [
      | none ↦ Fate.panics
      | some row ↦ (do
        (db', _) ← save_ticker cassandra session o.row_id row db
        returns (db', failed))
    ]

  -- `cws.Sent`: the frames written afterwards.
  unfoldable pub sent_after : List Text → Option (Item decoding) → Outcome Text (List Text)
  sent_after frames m = elim (marshal m) [
    | ok frame ↦ elim (write frames frame) [ none ↦ ok (frames ++ frame ∷ []) | some e ↦ err e ]
    | err e ↦ err e
    | panics ↦ panics
  ]

  -- From the message on: an error of `Sent` is logged.
  saves : Handler → Option (Ticker cassandra.Instant) → Handler × Next
  unfolding save_tiker
  saves h t = elim (save_tiker t h.db) [
    | returns (db', _) ↦ (record h { db = db' }, returns tt)
    | Fate.waits ↦ (h, Fate.waits)
    | Fate.panics ↦ (h, Fate.panics)
    | Fate.dies ↦ (h, Fate.dies)
  ]

  forwards : Handler → Option (Item decoding) → Option (Ticker cassandra.Instant) → Handler × Next
  unfolding sent_after saves
  forwards h m t = elim (sent_after h.sent m) [
    | ok frames ↦ saves (record h { sent = frames }) t
    | err _ ↦ saves h t
    | panics ↦ (h, Fate.panics)
  ]

  receives : Handler → Option (Ticker cassandra.Instant) → Handler × Next
  unfolding receive forwards
  receives h t = elim (receive h.ws.inbox) [
    | item m inbox ↦
        forwards
          (record h { ws = record h.ws { inbox = inbox; received = h.ws.received ++ m ∷ [] } })
          (some m) t
    | ended ↦ forwards h none t
    | waiting ↦ (h, Fate.waits)
  ]

  -- What the exchange's reader does before the message is taken, and what is left for it to do: it
  -- waits with a message that the inbox has no room for, and the texts behind it wait too.
  settle : Websocket decoding → List (Event decoding) → Websocket decoding × List (Event decoding)
  unfolding step
  settle ws [] = (ws, [])
  settle ws (e ∷ es) = elim (step decoding ws e) [
    | done ws' ↦ settle ws' es
    | blocked ↦ (ws, e ∷ es)
    | panicked ↦ (ws, [])
  ]

  -- A round of the loop. An error of `Ticker` is ignored: the ticker is nil then.
  unfoldable pub round : Handler → List (Event decoding) → Handler × Next
  unfolding ticker receives settle
  round h es =
      let (ws, left) = settle h.ws (h.coming ++ es) in
      let begun = record h { deferred = suc h.deferred; ws = ws; coming = left } in
      elim (ticker exchange h.world book read_ticker) [
        | done (w, ok t) ↦ receives (record begun { world = w }) (some t)
        | done (w, err _) ↦ receives (record begun { world = w }) none
        | done (w, panics) ↦ (record begun { world = w }, Fate.panics)
        | blocked ↦ (begun, Fate.waits)
        | panicked ↦ (begun, Fate.panics)
      ]

  -- The loop, for as many rounds as the list has entries; a panic runs what was deferred.
  unfoldable pub rounds : Handler → List (List (Event decoding)) → Handler × Next
  unfolding round
  rounds h [] = (h, returns tt)
  rounds h (es ∷ ess) =
      let (h', next) = round h es in
      elim next [
        | returns _ ↦ rounds h' ess
        | Fate.waits ↦ (h', Fate.waits)
        | Fate.panics ↦ (record h' { page_closed = h'.deferred }, Fate.panics)
        | Fate.dies ↦ (h', Fate.dies)
      ]

  abbrev pub begins : ℕ → cassandra.Db → Handler
  begins now db = record {
    world = record {
      client = set_api_secret (set_api_key new_client o.key) o.secret;
      now = now;
      began = now;
      refills = [];
      log = [];
    };
    ws = new_websocket decoding;
    coming = [];
    subscribed = subscribe (some book) (codes "orders");
    sent = [];
    deferred = 0;
    page_closed = 0;
    db = db;
  }

  -- The handler: none if the request could not be upgraded.
  unfoldable pub socket_handler :
      ℕ → cassandra.Db → List (List (Event decoding)) → Fate (Option (Handler × Next))
  unfolding rounds
  socket_handler now db ess = elim o.load [
    | some _ ↦ Fate.dies
    | none ↦ elim o.dial [
      | some _ ↦ Fate.dies
      | none ↦ elim o.upgrade [
        | some _ ↦ returns none
        | none ↦ returns (some (rounds (begins now db) ess))
      ]
    ]
  ]
