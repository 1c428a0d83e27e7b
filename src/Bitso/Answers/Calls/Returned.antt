-- ===== src/Bitso/Answers/Calls/Returned.antt =====
-- The trades that the exchange answers are those that the call returns.
use microservices_trading_bo.Common.{
  ◌≡◌, refl, codes, text_eq, Text, List, [], ◌∷◌, map, ok, Outcome, All, show_nat, none, arith,
  true,
}
use microservices_trading_bo.Ws.Channel.{done}
use microservices_trading_bo.Bitso.Book.{book_string, unmarshal_book}
use microservices_trading_bo.Bitso.Enums.Side.{side_string, marshal_side}
use microservices_trading_bo.Bitso.Enums.Laws.{side_iff}
use microservices_trading_bo.Bitso.Json
use microservices_trading_bo.Bitso.Ranges.{tid-show_nat}
use microservices_trading_bo.Bitso.Time.{time_string}
use microservices_trading_bo.Bitso.Time.Laws.{IsMoment, unmarshal_time-time_string}
use microservices_trading_bo.Bitso.Payload.{Trade}
use microservices_trading_bo.Bitso.Value.{
  num, str, bool, array, object, Items, nil, cons, Fields, end, field, set_text, set_items,
  set_list, set_fields, set_struct, find_setter,
}
use microservices_trading_bo.Bitso.Client.{Failure, Request, Envelope, Libraries}
use microservices_trading_bo.Bitso.Client.Api.{World, prepare, get_response}
use microservices_trading_bo.Bitso.Client.Results.{do_request-ok_iff}
use microservices_trading_bo.Bitso.Answers.{Reading, Dynamic}
use microservices_trading_bo.Bitso.Answers.Trades.{no_trade, set_trade}
use microservices_trading_bo.Bitso.Answers.Sound.{IsReading, IsBook, IsTid}
use microservices_trading_bo.Bitso.Answers.Calls.{
  Parsing, read_payload, trades, perform, trades_reader,
}

-- A trade as the exchange writes it, with the name of its side.
abbrev pub trade_fields : Trade → Text → Fields
trade_fields t side = field (codes "book") (str (book_string t.book)) (
    field (codes "created_at") (str (time_string t.created_at)) (
      field (codes "amount") (str t.amount) (
        field (codes "maker_side") (str side)
          (field (codes "price") (str t.price) (field (codes "tid") (num (show_nat t.tid)) end)))))

abbrev pub trade_items : List (Trade × Text) → Items
trade_items [] = nil
trade_items ((t, side) ∷ ts) = cons (object (trade_fields t side)) (trade_items ts)

-- What can be written so: a book that its name is parsed to, a time of whole seconds, a declared side
-- under its name, and an id of 64 bits.
pub record IsWritten (r : Reading) (w : Trade × Text) : Type 0 where
  pub book : IsBook r w.0.book
  pub time : IsMoment w.0.created_at
  pub whole : w.0.created_at.nanosecond ≡ 0
  pub side : side_string w.0.maker_side ≡ ok w.1
  pub id : IsTid w.0.tid

module _ (r : Reading) (s : IsReading r) where
  set_trade-trade_fields :
      (t : Trade) (side : Text)
      → IsWritten r (t, side)
      → set_trade r no_trade (object (trade_fields t side)) ≡ ok t
  unfolding set_trade set_struct set_fields find_setter set_text unmarshal_book text_eq marshal_side
  set_trade-trade_fields t side v =
      let time = unmarshal_time-time_string t.created_at v.time in
      let side_read =
        (side_iff r.sides (Json.str side) t.maker_side s.sides).1 (ground (arith, v.side)) in
      rw (set_trade, set_fields, v.book, time, side_read, tid-show_nat t.tid v.id)
        (ground (arith, v.whole))

  set_items-trade_items :
      (ts : List (Trade × Text))
      → All (IsWritten r) ts
      → set_items no_trade (set_trade r) [] (trade_items ts) ≡ ok (map (λ w. w.0) ts)
  unfolding set_items
  set_items-trade_items [] v = refl
  set_items-trade_items ((t, side) ∷ ts) (v, vs) =
      rw (set_items, set_trade-trade_fields t side v, set_items-trade_items ts vs) refl

  module _ (lib : Libraries) (p : Parsing) (dyn : Dynamic) (w w' : World)
      (params : List (Text × Text)) (req : Request) (buf : Text) (env : Envelope) where
    -- If sides are read by the table of the package, in any order, the request for the trades is made and
    -- answered, the envelope reports success, and the payload
    -- is a list of trades as the exchange writes them, then the call returns those trades in their order.
    pub perform-trades_returned :
        (ts : List (Trade × Text)) (r' : Outcome Failure (List Trade))
        → prepare lib w (codes "GET") (codes "/trades") params none ≡ ok req
        → lib.serve req ≡ ok buf
        → lib.decode buf ≡ ok env
        → env.success ≡ true
        → p.parse buf
          ≡ ok (
              object (
                field
                  (codes "success")
                  (bool true)
                  (field (codes "payload") (array (trade_items ts)) end)))
        → All (IsWritten r) ts
        → perform lib p r dyn (trades params) w ≡ done (w', r')
        → r' ≡ ok (map (λ t. t.0) ts)
    unfolding perform get_response trades_reader read_payload set_struct set_fields find_setter
        text_eq set_list
    perform-trades_returned ts r' made served decoded success parsed vs e =
        (do_request-ok_iff lib w w' (codes "GET") (codes "/trades") params none (trades_reader p r)
            r' e (map (λ t. t.0) ts)).1
          (
            req,
            buf,
            env,
            made,
            served,
            decoded,
            success,
            rw
                (
                  trades_reader,
                  read_payload,
                  parsed,
                  set_struct,
                  set_fields,
                  set_list,
                  set_items-trade_items ts vs,
                )
                refl,
          )
