-- ===== src/Bitso/Answers/Tests.antt =====
-- The calls of the API, at an answer that is given.
use microservices_trading_bo.Common.{
  ℕ, ◌<◌, ◌≡◌, refl, Text, codes, text_eq, true, false, All, List, [], ◌∷◌, Outcome, ok, arith, map,
  insert, show_nat,
}
use microservices_trading_bo.Ws.Channel.{done}
use microservices_trading_bo.Bitso.Atoi.{pos}
use microservices_trading_bo.Bitso.Client.{
  Failure, Request, Libraries, endpoint_url, new_request, get_api_prefix,
}
use microservices_trading_bo.Bitso.Client.Api.{
  World, do_request, prepare, take_ticket, open_envelope,
}
use microservices_trading_bo.Bitso.Enums.Side.{order_sides, unmarshal_side, side_string}
use microservices_trading_bo.Bitso.Enums.Status.{status_names}
use microservices_trading_bo.Bitso.Enums.Operation.{operation_names}
use microservices_trading_bo.Bitso.Payload.{Trade}
use microservices_trading_bo.Bitso.Book.{book_string, unmarshal_book, book_from_string}
use microservices_trading_bo.Bitso.Time.{unmarshal_time, time_string, days_in}
use microservices_trading_bo.Bitso.Time.Digits.{east}
use microservices_trading_bo.Bitso.Currency.{rune_lower, to_currency}
use microservices_trading_bo.Bitso.Value.{
  Value, set_list, set_text, bool, array, object, end, field,
}
use microservices_trading_bo.Bitso.Value.Laws.{Holds}
use microservices_trading_bo.Bitso.Answers.{Reading, Dynamic}
use microservices_trading_bo.Bitso.Tid.{unmarshal_tid}
use microservices_trading_bo.Bitso.Answers.Trades.{set_trade}
use microservices_trading_bo.Bitso.Answers.Sound.{IsReading}
use microservices_trading_bo.Bitso.Answers.Calls.{Parsing, trades, perform}
use microservices_trading_bo.Bitso.Answers.Calls.Calm.{IsCalm}
use microservices_trading_bo.Bitso.Answers.Calls.Laws.{IsWellFormed, perform-IsWellFormed}
use microservices_trading_bo.Bitso.Answers.Calls.Returned.{
  trade_items, IsWritten, perform-trades_returned,
}

abbrev bought : Trade
bought = record {
  book = record { major = codes "btc"; minor = codes "mxn" };
  created_at = record {
    year = 2024;
    month = 2;
    day = 29;
    hour = 7;
    minute = 5;
    second = 59;
    nanosecond = 0;
    zone = east 60;
  };
  amount = codes "0.5";
  maker_side = 1;
  price = codes "9";
  tid = 42;
}

abbrev two_trades : List (Trade × Text)
two_trades = (bought, codes "buy") ∷ (record bought { maker_side = 2; tid = 43 }, codes "sell") ∷ []

-- Every request is answered, by two trades.
abbrev answering : Libraries
answering = record {
  Url = Text;
  parse = λ s. ok s;
  encode = λ params. [];
  with_query = λ u q. u;
  url_string = λ u. u;
  request_uri = λ u. u;
  admits = λ method uri. true;
  mac = λ secret message. [];
  serve = λ req. ok (codes "answer");
  decode = λ buf. ok (record { success = true; code = []; message = [] });
}

abbrev envelope : Value
envelope = object (
    field (codes "success") (bool true)
      (field (codes "payload") (array (trade_items two_trades)) end))

abbrev parsing : Parsing
parsing = record { parse = λ buf. ok envelope; failure = λ e. Failure.library [] }

abbrev ascii : Reading
ascii = record {
  beyond = λ c. c;
  sides = order_sides;
  statuses = status_names;
  operations = operation_names;
}

ascii-IsReading : IsReading ascii
unfolding rune_lower
ascii-IsReading = record {
  lowering = record { settled = λ c h. ground arith; letter = λ c h. omega arith };
  sides = λ k v. (λ i. i, λ i. i);
  statuses = λ k v. (λ i. i, λ i. i);
  operations = λ k v. (λ i. i, λ i. i);
}

abbrev values : Dynamic
values = record { Any = Value; nothing = Value.null; set_any = λ old v. ok v }

answering-IsCalm : IsCalm answering parsing values
answering-IsCalm = record {
  serve = λ req e. cc;
  decode = λ buf e. cc;
  parse = λ buf e. cc;
  set_any = λ a v e. cc;
}

abbrev idle : World
idle = record {
  client = record {
    api_prefix = codes "x/";
    key = [];
    secret = [];
    version = codes "v3";
    tickets = record { buffer = []; capacity = 1; closed = false };
    burst_rate = pos 0;
  };
  now = 7;
  began = 7;
  refills = [];
  log = [];
}

abbrev asking : Request
asking = record { method = codes "GET"; uri = codes "x/v3/trades"; headers = []; body = [] }

abbrev asked : World
asked = record idle { log = record { at = 7; request = asking } ∷ [] }

abbrev returned : Outcome Failure (List Trade)
returned = ok (bought ∷ record bought { maker_side = 2; tid = 43 } ∷ [])

-- A trade of that hour.
bought-IsWritten :
    (side : Text) (k id : ℕ)
    → side_string k ≡ ok side
    → id < 100
    → IsWritten ascii (record bought { maker_side = k; tid = id }, side)
unfolding book_from_string book_string to_currency days_in
bought-IsWritten side k id e h = record {
  book = refl;
  time = record {
    years = omega arith;
    months = omega arith;
    days = omega arith;
    hours = omega arith;
    minutes_in = omega arith;
    seconds = omega arith;
    offsets = omega arith;
  };
  whole = refl;
  side = e;
  id = omega arith;
}

two_trades-IsWritten : All (IsWritten ascii) two_trades
unfolding side_string
two_trades-IsWritten = (
  bought-IsWritten (codes "buy") 1 42 refl (omega arith),
  (bought-IsWritten (codes "sell") 2 43 refl (omega arith), tt),
)

performed : perform answering parsing ascii values (trades []) idle ≡ done (asked, returned)
unfolding perform do_request prepare endpoint_url new_request get_api_prefix text_eq insert show_nat
    take_ticket open_envelope time_string book_string set_list set_trade unmarshal_book
    unmarshal_time set_text unmarshal_side unmarshal_tid
performed = refl

perform-IsWellFormed_example : Holds (IsWellFormed ascii values (trades [])) returned
perform-IsWellFormed_example =
    perform-IsWellFormed answering parsing ascii values (trades []) idle asked returned
      ascii-IsReading answering-IsCalm performed

perform-trades_returned_example : returned ≡ ok (map (λ t. t.0) two_trades)
unfolding prepare endpoint_url new_request get_api_prefix text_eq insert
perform-trades_returned_example =
    perform-trades_returned ascii ascii-IsReading answering parsing values idle asked [] asking
      (codes "answer") (record { success = true; code = []; message = [] }) two_trades returned refl
      refl refl refl refl two_trades-IsWritten performed
