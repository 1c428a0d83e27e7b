-- ===== src/Trading/Tests.antt =====
-- The programs around the two halves, at concrete libraries.
mod Strategy
use microservices_trading_bo.Common.{
  arith, ℕ, suc, ◌≤◌, ◌≡◌, ◌≢◌, ◌-◌, refl, Text, codes, text_eq, true, false, List, [], ◌∷◌, none,
  some, length, ltb, if◌then◌else◌, ok,
}
use microservices_trading_bo.Ws.Channel.{send}
use microservices_trading_bo.Bitso.Book.{Book}
use microservices_trading_bo.Bitso.Client.{
  Libraries, new_client, endpoint_url, new_request, unsigned_request, set_api_key, set_api_secret,
  get_api_prefix, Request,
}
use microservices_trading_bo.Bitso.Client.Api.{
  World, do_request, prepare, take_ticket, open_envelope,
}
use microservices_trading_bo.Bitso.Client.Endpoints.{ticker}
use microservices_trading_bo.Bitso.Websocket.{
  Decoding, Websocket, Event, arrives, trades, orders, new_websocket, run, step, read_message,
  classify,
}
use microservices_trading_bo.Bitso.Websocket.Laws.{items, arrivals}
use microservices_trading_bo.Trading.Fate.{Fate, returns}
use microservices_trading_bo.Bitso.Payload.{Balance, Fee, CustomerFees, Ticker}
use microservices_trading_bo.Trading.Store.{Cassandra, Consistency, save_ticker}
use microservices_trading_bo.Trading.Store.Laws.{save_ticker_lem}
use microservices_trading_bo.Trading.Socket.{Outside, Handler, Next, begins, socket_handler, rounds}
use microservices_trading_bo.Trading.Socket.Laws.{socket_handler_ends}
use microservices_trading_bo.Trading.Socket.Laws.Forwards.{socket_handler_forwards}
use microservices_trading_bo.Trading.Strategy.{
  Floats, float64, is_traded, percentage_amount_to_bid, bid_after_fee, ask_after_fee,
  major_bid_arbitrage, minor_ask_arbitrage, estimate,
}
use microservices_trading_bo.Trading.Strategy.Laws.{bid_after_fee_last, major_bid_arbitrage_lem}
use microservices_trading_bo.Trading.Web.{Registration, load_routes, setup_routes_with_middlewares}
use microservices_trading_bo.Trading.Web.Laws.{Served, setup_routes_with_middlewares_lem}

-- A URL is its text, and every call is answered by its address.
abbrev echo : Libraries
echo = record {
  Url = Text;
  parse = λ s. ok s;
  encode = λ params. [];
  with_query = λ u q. u;
  url_string = λ u. u;
  request_uri = λ u. u;
  admits = λ method uri. true;
  mac = λ secret message. message;
  serve = λ req. ok req.uri;
  decode = λ buf. ok (record { success = true; code = []; message = [] });
}

-- A database of one number: how many queries were executed. The third one and those after it fail.
abbrev counter : Cassandra
counter = record {
  Instant = ℕ;
  Session = Unit;
  Db = ℕ;
  new_cluster = λ host. record {
    host = host;
    consistency = Consistency.default;
    proto_version = 2;
    connect_timeout = 0;
    username = [];
    password = [];
  };
  create_session =
      λ config db. elim config [ none ↦ Fate.panics | some c ↦ returns (some tt, none) ];
  execute = λ session query bound db. elim session [
    | none ↦ Fate.panics
    | some s ↦ returns (suc db, if ltb db 2 then none else some (codes "no"))
  ];
}

abbrev btc_mxn : Book
btc_mxn = record { major = codes "btc"; minor = codes "mxn" }

abbrev price : Ticker ℕ
price = record {
  book = btc_mxn;
  volume = codes "1";
  high = codes "9";
  last = codes "8";
  low = codes "7";
  vwap = codes "8";
  ask = codes "8";
  bid = codes "7";
  created_at = 3;
}

save_ticker_lem_example : save_ticker counter (some tt) (codes "id") price 5 ≡ returns (6, none)
save_ticker_lem_example = save_ticker_lem counter (some tt) (codes "id") price 5

-- A message is its own type, and has a payload.
abbrev literal : Decoding
literal = record {
  Reply = Text;
  DiffOrder = Text;
  Order = Text;
  Trade = Text;
  head = λ reply. record { type = reply; has_payload = true };
  reply = λ message. some message;
  diff_order = λ message. some message;
  order = λ message. some message;
  trade = λ message. some message;
}

abbrev open_page : Outside
open_page = record {
  exchange = echo;
  decoding = literal;
  cassandra = counter;
  read_ticker = λ buf. ok price;
  marshal = λ m. ok (elim m [ none ↦ codes "null" | some it ↦ codes "item" ]);
  write = λ frames frame. none;
  beyond = λ c. c;
  load = none;
  dial = none;
  upgrade = none;
  key = [];
  secret = [];
  cluster = none;
  row_id = codes "id";
}

abbrev two_messages : List Text
two_messages = codes "trades" ∷ codes "orders" ∷ []

abbrev two_arrive : List (Event literal)
two_arrive = arrives (codes "trades") ∷ arrives (codes "orders") ∷ []

abbrev ticker_asked : World
ticker_asked = record {
  client = new_client;
  now = 5;
  began = 5;
  refills = [];
  log =
      record {
        at = 5;
        request = unsigned_request (codes "GET") (codes "https://api.bitso.com/v3/ticker") [];
      }
      ∷ [];
}

socket_handler_forwards_example :
    (h : Handler open_page) × (socket_handler open_page 5 0 (two_arrive ∷ two_arrive ∷ [])
      ≡ returns (some (h, Fate.panics)))
    × (h.sent ≡ codes "item" ∷ [])
    × (h.page_closed ≡ 1)
    × (h.ws.inbox.buffer ≡ orders (codes "orders") ∷ [])
    × (h.world ≡ ticker_asked)
unfolding items arrivals classify text_eq ticker do_request prepare take_ticket open_envelope
    endpoint_url new_request new_client set_api_secret set_api_key get_api_prefix
socket_handler_forwards_example =
    socket_handler_forwards open_page (λ db. refl) 5 0 two_messages (two_arrive ∷ []) ticker_asked
      (ok price) (trades (codes "trades")) (orders (codes "orders") ∷ []) (codes "item") refl refl
      refl (omega arith) refl refl (λ e. cc) refl refl

abbrev page_end : Handler open_page
page_end = (rounds open_page (begins open_page 5 0) (two_arrive ∷ two_arrive ∷ [])).0

abbrev page_next : Next
page_next = (rounds open_page (begins open_page 5 0) (two_arrive ∷ two_arrive ∷ [])).1

socket_handler_ends_example :
    (page_next ≢ returns tt) × (length page_end.sent ≤ 1) × (page_end.db ≡ 0)
unfolding socket_handler
socket_handler_ends_example =
    socket_handler_ends open_page (λ db. refl) 5 0 two_arrive (two_arrive ∷ []) page_end page_next
      refl

load_routes-Served :
    (added : List Registration) × (setup_routes_with_middlewares [] ≡ added)
    × Served load_routes added
load_routes-Served = setup_routes_with_middlewares_lem []
