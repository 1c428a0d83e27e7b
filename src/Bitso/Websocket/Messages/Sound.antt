-- ===== src/Bitso/Websocket/Messages/Sound.antt =====
-- What holds of the messages of data_server/bitso/websocket.go that were decoded, and of what the reader
-- puts in the inbox.
use microservices_trading_bo.Common.{◌≢◌, All, panics, arith}
use microservices_trading_bo.Bitso.Value.{Value, set_text, set_list}
use microservices_trading_bo.Bitso.Atoi.{pos}
use microservices_trading_bo.Bitso.Value.Laws.{
  Holds-intro, Anything, Keeps, Keeps-set_text, Keeps-on_field, Keeps-free, Keeps-set_struct,
  Keeps-set_list,
}
use microservices_trading_bo.Bitso.Answers.{Reading}
use microservices_trading_bo.Bitso.Answers.Sound.{IsReading, IsBook, IsBook-Keeps, IsTid}
use microservices_trading_bo.Bitso.Websocket.Structs.{
  WebsocketReply, TradeEntry, WebsocketTrade, DiffEntry, WebsocketDiffOrder, OrderEntry, Levels,
  WebsocketOrder,
}
use microservices_trading_bo.Bitso.Websocket.Messages.{
  WireFormat, no_trade_entry, trade_entry_setters, set_trade_entry, no_diff_entry,
  diff_entry_setters, set_diff_entry, reply_setters, set_reply, websocket_trade_setters,
  set_websocket_trade, diff_order_setters, set_diff_order, no_order_entry, order_entry_setters,
  set_order_entry, levels_setters, set_levels, websocket_order_setters, set_websocket_order,
}
use microservices_trading_bo.Bitso.Websocket.Messages.Numbers.{
  IsInt64, at_least_zero, Keeps-set_uint, Keeps-set_int, set_float, Keeps-set_float,
}

-- The number of a trade has 64 bits.
abbrev pub IsTradeEntry : TradeEntry → Type 0
IsTradeEntry t = IsTid t.tid

IsTradeEntry-Keeps : Keeps IsTradeEntry set_trade_entry
unfolding set_trade_entry
IsTradeEntry-Keeps = Keeps-set_struct IsTradeEntry trade_entry_setters (
  Keeps-on_field IsTradeEntry IsTid _ _ _ (λ t p. p) (λ t a p q. q) Keeps-set_uint,
  (
    Keeps-free IsTradeEntry (λ t. t.amount) (λ t x. record t { amount = x }) set_text (λ t a p. p)
        Keeps-set_text,
    (
      Keeps-free IsTradeEntry (λ t. t.price) (λ t x. record t { price = x }) set_text (λ t a p. p)
          Keeps-set_text,
      (
        Keeps-free IsTradeEntry (λ t. t.value) (λ t x. record t { value = x }) set_text (λ t a p. p)
            Keeps-set_text,
        (
          Keeps-free IsTradeEntry (λ t. t.maker_order_id) (λ t x. record t { maker_order_id = x })
              set_text (λ t a p. p) Keeps-set_text,
          (
            Keeps-free IsTradeEntry (λ t. t.taker_order_id) (λ t x. record t { taker_order_id = x })
                set_text (λ t a p. p) Keeps-set_text,
            tt,
          ),
        ),
      ),
    ),
  ),
)

-- The time has 64 bits, and the position too, with a sign.
abbrev pub IsDiffEntry : DiffEntry → Type 0
IsDiffEntry t = IsTid t.timestamp × IsInt64 t.position

IsDiffEntry-Keeps : Keeps IsDiffEntry set_diff_entry
unfolding set_diff_entry
IsDiffEntry-Keeps = Keeps-set_struct IsDiffEntry diff_entry_setters (
  Keeps-on_field IsDiffEntry IsTid _ _ _ (λ t p. p.0) (λ t a p q. (q, p.1)) Keeps-set_uint,
  (
    Keeps-free IsDiffEntry (λ t. t.price) (λ t x. record t { price = x }) set_text (λ t a p. p)
        Keeps-set_text,
    (
      Keeps-on_field IsDiffEntry IsInt64 _ _ _ (λ t p. p.1) (λ t a p q. (p.0, q)) Keeps-set_int,
      (
        Keeps-free IsDiffEntry (λ t. t.amount) (λ t x. record t { amount = x }) set_text
            (λ t a p. p) Keeps-set_text,
        (
          Keeps-free IsDiffEntry (λ t. t.value) (λ t x. record t { value = x }) set_text
              (λ t a p. p) Keeps-set_text,
          (
            Keeps-free IsDiffEntry (λ t. t.order_id) (λ t x. record t { order_id = x }) set_text
                (λ t a p. p) Keeps-set_text,
            tt,
          ),
        ),
      ),
    ),
  ),
)

abbrev pub IsOrderEntry : {Float : Type 0} → OrderEntry Float → Type 0
IsOrderEntry t = IsTid t.timestamp × IsInt64 t.position

abbrev pub IsLevels : {Float : Type 0} → Levels Float → Type 0
IsLevels t = All IsOrderEntry t.bids × All IsOrderEntry t.asks

abbrev pub IsWebsocketTrade : Reading → WebsocketTrade → Type 0
IsWebsocketTrade r t = IsBook r t.book × All IsTradeEntry t.payload

abbrev pub IsDiffOrder : Reading → WebsocketDiffOrder → Type 0
IsDiffOrder r t = IsBook r t.book × All IsDiffEntry t.payload

abbrev pub IsWebsocketOrder : {Float : Type 0} → Reading → WebsocketOrder Float → Type 0
IsWebsocketOrder r t = IsBook r t.book × IsLevels t.payload

abbrev pub IsReply : {Any : Type 0} → WebsocketReply Any → Type 0
IsReply t = IsTid t.time

pub unset-IsTid : IsTid 0
unset-IsTid = omega arith

pub unset-IsInt64 : IsInt64 (pos 0)
unset-IsInt64 = at_least_zero (omega arith)

module _ (wire : WireFormat) (s : IsReading wire.reading) where
  pub IsWebsocketTrade-Keeps : Keeps (IsWebsocketTrade wire.reading) (set_websocket_trade wire)
  unfolding set_websocket_trade
  IsWebsocketTrade-Keeps =
      Keeps-set_struct (IsWebsocketTrade wire.reading) (websocket_trade_setters wire) (
        Keeps-on_field (IsWebsocketTrade wire.reading) (IsBook wire.reading) _ _ _ (λ t p. p.0)
            (λ t a p q. (q, p.1)) (IsBook-Keeps wire.reading s),
        (
          Keeps-on_field (IsWebsocketTrade wire.reading) (All IsTradeEntry) _ _ _ (λ t p. p.1)
              (λ t a p q. (p.0, q))
              (Keeps-set_list IsTradeEntry no_trade_entry set_trade_entry unset-IsTid
                IsTradeEntry-Keeps),
          tt,
        ),
      )

  pub IsDiffOrder-Keeps : Keeps (IsDiffOrder wire.reading) (set_diff_order wire)
  unfolding set_diff_order
  IsDiffOrder-Keeps = Keeps-set_struct (IsDiffOrder wire.reading) (diff_order_setters wire) (
    Keeps-on_field (IsDiffOrder wire.reading) (IsBook wire.reading) _ _ _ (λ t p. p.0)
        (λ t a p q. (q, p.1)) (IsBook-Keeps wire.reading s),
    (
      Keeps-on_field (IsDiffOrder wire.reading) (All IsDiffEntry) _ _ _ (λ t p. p.1)
          (λ t a p q. (p.0, q))
          (Keeps-set_list IsDiffEntry no_diff_entry set_diff_entry (unset-IsTid, unset-IsInt64)
            IsDiffEntry-Keeps),
      tt,
    ),
  )

  IsOrderEntry-Keeps : Keeps IsOrderEntry (set_order_entry wire)
  unfolding set_order_entry
  IsOrderEntry-Keeps = Keeps-set_struct IsOrderEntry (order_entry_setters wire) (
    Keeps-free IsOrderEntry (λ t. t.price) (λ t x. record t { price = x })
        (set_float wire.parse_float) (λ t a p. p) (Keeps-set_float wire.parse_float),
    (
      Keeps-free IsOrderEntry (λ t. t.amount) (λ t x. record t { amount = x })
          (set_float wire.parse_float) (λ t a p. p) (Keeps-set_float wire.parse_float),
      (
        Keeps-on_field IsOrderEntry IsInt64 _ _ _ (λ t p. p.1) (λ t a p q. (p.0, q)) Keeps-set_int,
        (
          Keeps-free IsOrderEntry (λ t. t.value) (λ t x. record t { value = x })
              (set_float wire.parse_float) (λ t a p. p) (Keeps-set_float wire.parse_float),
          (
            Keeps-on_field IsOrderEntry IsTid _ _ _ (λ t p. p.0) (λ t a p q. (q, p.1))
                Keeps-set_uint,
            tt,
          ),
        ),
      ),
    ),
  )

  order_entries-Keeps :
      Keeps (All IsOrderEntry) (set_list (no_order_entry wire) (set_order_entry wire))
  order_entries-Keeps =
      Keeps-set_list IsOrderEntry (no_order_entry wire) (set_order_entry wire)
        (unset-IsTid, unset-IsInt64) IsOrderEntry-Keeps

  IsLevels-Keeps : Keeps IsLevels (set_levels wire)
  unfolding set_levels
  IsLevels-Keeps = Keeps-set_struct IsLevels (levels_setters wire) (
    Keeps-on_field IsLevels (All IsOrderEntry) _ _ _ (λ t p. p.0) (λ t a p q. (q, p.1))
        order_entries-Keeps,
    (
      Keeps-on_field IsLevels (All IsOrderEntry) _ _ _ (λ t p. p.1) (λ t a p q. (p.0, q))
          order_entries-Keeps,
      tt,
    ),
  )

  pub IsWebsocketOrder-Keeps : Keeps (IsWebsocketOrder wire.reading) (set_websocket_order wire)
  unfolding set_websocket_order
  IsWebsocketOrder-Keeps =
      Keeps-set_struct (IsWebsocketOrder wire.reading) (websocket_order_setters wire) (
        Keeps-on_field (IsWebsocketOrder wire.reading) (IsBook wire.reading) _ _ _ (λ t p. p.0)
            (λ t a p q. (q, p.1)) (IsBook-Keeps wire.reading s),
        (
          Keeps-on_field (IsWebsocketOrder wire.reading) IsLevels _ _ _ (λ t p. p.1)
              (λ t a p q. (p.0, q)) IsLevels-Keeps,
          tt,
        ),
      )

  module _ (calm : (a : wire.dyn.Any) (v : Value) → wire.dyn.set_any a v ≢ panics) where
    pub IsReply-Keeps : Keeps IsReply (set_reply wire)
    unfolding set_reply
    IsReply-Keeps = Keeps-set_struct IsReply (reply_setters wire) (
      Keeps-free IsReply (λ t. t.action) (λ t x. record t { action = x }) set_text (λ t a p. p)
          Keeps-set_text,
      (
        Keeps-free IsReply (λ t. t.response) (λ t x. record t { response = x }) set_text
            (λ t a p. p) Keeps-set_text,
        (
          Keeps-on_field IsReply IsTid _ _ _ (λ t p. p) (λ t a p q. q) Keeps-set_uint,
          (
            Keeps-free IsReply (λ t. t.type) (λ t x. record t { type = x }) set_text (λ t a p. p)
                Keeps-set_text,
            (
              Keeps-free IsReply (λ t. t.payload) (λ t x. record t { payload = x }) wire.dyn.set_any
                  (λ t a p. p) (λ a v p. Holds-intro Anything _ (calm a v) (λ _ _. tt)),
              tt,
            ),
          ),
        ),
      ),
    )
