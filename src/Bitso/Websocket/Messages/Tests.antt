-- ===== src/Bitso/Websocket/Messages/Tests.antt =====
-- Runs of the reader on messages of the exchange.
use microservices_trading_bo.Common.{
  ◌≡◌, refl, Text, codes, text_eq, true, false, All, List, [], ◌∷◌, Option, none, some, ok, arith,
  show_nat, if◌then◌else◌,
}
use microservices_trading_bo.Ws.Channel.{done, send, receive}
use microservices_trading_bo.Bitso.Atoi.{negsuc}
use microservices_trading_bo.Bitso.Book.{book_from_string, book_string, unmarshal_book}
use microservices_trading_bo.Bitso.Currency.{rune_lower, to_currency}
use microservices_trading_bo.Bitso.Enums.Side.{order_sides}
use microservices_trading_bo.Bitso.Enums.Status.{status_names}
use microservices_trading_bo.Bitso.Enums.Operation.{operation_names}
use microservices_trading_bo.Bitso.Value.{Value, set_text, set_list}
use microservices_trading_bo.Bitso.Answers.{Reading, Dynamic}
use microservices_trading_bo.Bitso.Answers.Sound.{IsReading}
use microservices_trading_bo.Bitso.Websocket.{
  Item, trades, diffs, replies, classify, Websocket, new_websocket, Event, arrives, receives,
  read_message, step, run,
}
use microservices_trading_bo.Bitso.Websocket.Structs.{WebsocketTrade, WebsocketDiffOrder}
use microservices_trading_bo.Bitso.Websocket.Messages.{
  WireFormat, set_reply, set_websocket_trade, set_diff_order, unmarshal, decoding, no_reply,
  set_trade_entry, set_diff_entry,
}
use microservices_trading_bo.Bitso.Websocket.Messages.Numbers.{set_uint, set_int, below_zero}
use microservices_trading_bo.Bitso.Websocket.Messages.Received.{IsItem, run-IsItem}
use microservices_trading_bo.Bitso.Websocket.Messages.Sent.{
  Sent, trade_sent, diff_sent, kept_alive, answered, written,
}
use microservices_trading_bo.Bitso.Websocket.Messages.Delivered.{Carries, items_of, run_delivers}

abbrev ascii : Reading
ascii = record {
  beyond = λ c. c;
  sides = order_sides;
  statuses = status_names;
  operations = operation_names;
}

ascii-IsReading : IsReading ascii
unfolding rune_lower
ascii-IsReading = record {
  lowering = record { settled = λ c h. ground arith; letter = λ c h. omega arith };
  sides = λ k v. (λ i. i, λ i. i);
  statuses = λ k v. (λ i. i, λ i. i);
  operations = λ k v. (λ i. i, λ i. i);
}

abbrev sold : WebsocketTrade
sold = record {
  book = record { major = codes "btc"; minor = codes "mxn" };
  payload =
      record {
        tid = 42;
        amount = codes "0.5";
        price = codes "9";
        value = codes "4.5";
        maker_order_id = codes "m";
        taker_order_id = codes "t";
      }
      ∷ [];
}

abbrev changed : WebsocketDiffOrder
changed = record {
  book = record { major = codes "eth"; minor = codes "mxn" };
  payload =
      record {
        timestamp = 7;
        price = codes "9";
        position = negsuc 0;
        amount = [];
        value = [];
        order_id = codes "o";
      }
      ∷ [];
}

-- A number is its own text.
abbrev numbers : Text → Text
numbers lit = lit

abbrev values : Dynamic
values = record { Any = Option Value; nothing = none; set_any = λ old v. ok (some v) }

abbrev silent : WireFormat
silent = record {
  parse = λ message. none;
  reading = ascii;
  dyn = values;
  present = λ a. elim a [ none ↦ false | some v ↦ true ];
  Float = Text;
  zero_float = [];
  parse_float = λ lit. some lit;
}

abbrev sents : List (Sent Text)
sents =
    answered (codes "subscribe") (codes "ok") (codes "trades")
    ∷ trade_sent sold
    ∷ kept_alive
    ∷ diff_sent changed
    ∷ []

-- The messages are known by a letter.
abbrev wire : WireFormat
wire = record silent {
  parse = λ message.
      if text_eq message (codes "a")
      then some
          (written silent numbers (answered (codes "subscribe") (codes "ok") (codes "trades")))
      else if text_eq message (codes "t")
      then some (written silent numbers (trade_sent sold))
      else if text_eq message (codes "k")
      then some (written silent numbers kept_alive)
      else some (written silent numbers (diff_sent changed));
}

abbrev history : List (Event (decoding wire))
history =
    arrives (codes "a")
    ∷ arrives (codes "t")
    ∷ receives
    ∷ arrives (codes "k")
    ∷ arrives (codes "d")
    ∷ receives
    ∷ []

abbrev an_answer : Item (decoding wire)
an_answer = replies (record (no_reply wire) {
  action = codes "subscribe";
  response = codes "ok";
  type = codes "trades";
})

abbrev after_history : Websocket (decoding wire)
after_history = record {
  inbox = record { buffer = diffs changed ∷ []; capacity = 8; closed = false };
  closed = false;
  received = an_answer ∷ trades sold ∷ [];
}

history-run : run (decoding wire) (new_websocket (decoding wire)) history ≡ done after_history
unfolding run step read_message classify unmarshal set_reply set_websocket_trade set_diff_order
    set_text set_list send receive new_websocket text_eq show_nat book_string unmarshal_book
    set_trade_entry set_uint set_diff_entry set_int
history-run = refl

run-IsItem_example : All (IsItem wire) (an_answer ∷ trades sold ∷ diffs changed ∷ [])
run-IsItem_example = run-IsItem wire ascii-IsReading (λ a v e. cc) history after_history history-run

history-Carries : Carries wire numbers history sents
unfolding text_eq book_string book_from_string to_currency
history-Carries = (
  refl,
  (refl, refl),
  (
    refl,
    ((refl, (omega arith, tt)), (_, refl, refl)),
    (
      refl,
      tt,
      (refl, ((refl, ((omega arith, below_zero (omega arith)), tt)), (_, refl, refl)), tt),
    ),
  ),
)

run_delivers_example : an_answer ∷ trades sold ∷ diffs changed ∷ [] ≡ items_of wire numbers sents
run_delivers_example =
    run_delivers wire numbers history sents after_history history-Carries history-run
