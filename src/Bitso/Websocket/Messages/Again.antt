-- ===== src/Bitso/Websocket/Messages/Again.antt =====
-- Each message of data_server/bitso/websocket.go is read back from the JSON that it is sent as.
use microservices_trading_bo.Common.{◌≡◌, refl, Text, codes, text_eq, List, [], ◌∷◌, All, ok}
use microservices_trading_bo.Bitso.Atoi.{pos}
use microservices_trading_bo.Bitso.Book.{Book, unmarshal_book}
use microservices_trading_bo.Bitso.Value.{
  Value, Setter, object, Fields, set_text, set_items, set_list, set_fields, set_struct, find_setter,
}
use microservices_trading_bo.Bitso.Answers.Sound.{IsBook}
use microservices_trading_bo.Bitso.Websocket.Structs.{
  TradeEntry, WebsocketTrade, DiffEntry, WebsocketDiffOrder, OrderEntry, WebsocketOrder,
}
use microservices_trading_bo.Bitso.Websocket.Messages.{
  WireFormat, no_trade_entry, set_trade_entry, no_diff_entry, set_diff_entry, no_reply, set_reply,
  no_websocket_trade, set_websocket_trade, no_diff_order, set_diff_order, no_order_entry,
  set_order_entry, set_levels, no_websocket_order, set_websocket_order,
}
use microservices_trading_bo.Bitso.Websocket.Messages.Numbers.{
  set_float-parsed, set_uint-show_nat, set_int-show_int,
}
use microservices_trading_bo.Bitso.Websocket.Messages.Sound.{
  IsTradeEntry, IsDiffEntry, IsDiffOrder, IsWebsocketTrade,
}
use microservices_trading_bo.Bitso.Websocket.Messages.Sent.{
  array_of, trade_entry_fields, diff_entry_fields, order_entry_fields, trade_sent, diff_sent,
  order_sent, kept_alive, answered, on_channel, written, IsShown,
}

set_trade_entry-fields :
    (t : TradeEntry)
    → IsTradeEntry t
    → set_trade_entry no_trade_entry (object (trade_entry_fields t)) ≡ ok t
unfolding set_trade_entry set_struct set_fields find_setter set_text text_eq
set_trade_entry-fields t v = rw (set_trade_entry, set_fields, set_uint-show_nat 0 t.tid v) refl

set_diff_entry-fields :
    (t : DiffEntry)
    → IsDiffEntry t
    → set_diff_entry no_diff_entry (object (diff_entry_fields t)) ≡ ok t
unfolding set_diff_entry set_struct set_fields find_setter set_text text_eq
set_diff_entry-fields t (v, w) =
    rw
      (
        set_diff_entry,
        set_fields,
        set_uint-show_nat 0 t.timestamp v,
        set_int-show_int (pos 0) t.position w,
      )
      refl

-- A slice of what is read one by one as it was written.
set_items-array_of :
    {A : Type 0} (P : A → Type 0) (zero_value : A) (set : Setter A) (fields : A → Fields)
    → ((a : A) → P a → set zero_value (object (fields a)) ≡ ok a)
    → (xs : List A) → All P xs
    → set_items zero_value set [] (array_of fields xs) ≡ ok xs
unfolding set_items
set_items-array_of P zero_value set fields again [] v = refl
set_items-array_of P zero_value set fields again (a ∷ xs) (v, vs) =
    rw (set_items, again a v, set_items-array_of P zero_value set fields again xs vs) refl

module _ (wire : WireFormat) (show_float : wire.Float → Text) where
  set_order_entry-fields :
      (t : OrderEntry wire.Float)
      → IsShown wire show_float t
      → set_order_entry wire (no_order_entry wire) (object (order_entry_fields wire show_float t))
        ≡ ok t
  unfolding set_order_entry set_struct set_fields find_setter text_eq
  set_order_entry-fields t ((v, w), price, amount, value) =
      let parsed = set_float-parsed wire.parse_float wire.zero_float in
      rw
        (
          set_order_entry,
          set_fields,
          parsed t.price (show_float t.price) price,
          parsed t.amount (show_float t.amount) amount,
          set_int-show_int (pos 0) t.position w,
          parsed t.value (show_float t.value) value,
          set_uint-show_nat 0 t.timestamp v,
        )
        refl

  pub channel_reply :
      (channel : Text) (book : Book) (payload : Value) (a : wire.dyn.Any)
      → wire.dyn.set_any wire.dyn.nothing payload ≡ ok a
      → set_reply wire (no_reply wire) (on_channel channel book payload)
        ≡ ok (record (no_reply wire) { type = channel; payload = a })
  unfolding set_reply set_struct set_fields find_setter set_text text_eq
  channel_reply channel book payload a e = rw (set_reply, set_fields, e) refl

  pub alive_reply :
      set_reply wire (no_reply wire) (written wire show_float kept_alive)
      ≡ ok (record (no_reply wire) { type = codes "ka" })
  unfolding set_reply set_struct set_fields find_setter set_text text_eq
  alive_reply = refl

  pub answer_reply :
      (action response channel : Text)
      → set_reply wire (no_reply wire) (written wire show_float (answered action response channel))
        ≡ ok (record (no_reply wire) { action = action; response = response; type = channel })
  unfolding set_reply set_struct set_fields find_setter set_text text_eq
  answer_reply action response channel = refl

  pub set_websocket_trade-written :
      (t : WebsocketTrade)
      → IsWebsocketTrade wire.reading t
      → set_websocket_trade wire (no_websocket_trade wire) (written wire show_float (trade_sent t))
        ≡ ok t
  unfolding set_websocket_trade set_struct set_fields find_setter set_list unmarshal_book text_eq
  set_websocket_trade-written t (b, v) =
      rw
        (
          set_websocket_trade,
          set_fields,
          b,
          set_list,
          set_items-array_of IsTradeEntry no_trade_entry set_trade_entry trade_entry_fields
              set_trade_entry-fields t.payload v,
        )
        refl

  pub set_diff_order-written :
      (d : WebsocketDiffOrder)
      → IsDiffOrder wire.reading d
      → set_diff_order wire (no_diff_order wire) (written wire show_float (diff_sent d)) ≡ ok d
  unfolding set_diff_order set_struct set_fields find_setter set_list unmarshal_book text_eq
  set_diff_order-written d (b, v) =
      rw
        (
          set_diff_order,
          set_fields,
          b,
          set_list,
          set_items-array_of IsDiffEntry no_diff_entry set_diff_entry diff_entry_fields
              set_diff_entry-fields d.payload v,
        )
        refl

  pub set_websocket_order-written :
      (o : WebsocketOrder wire.Float)
      → IsBook wire.reading o.book
      → All (IsShown wire show_float) o.payload.bids
      → All (IsShown wire show_float) o.payload.asks
      → set_websocket_order wire (no_websocket_order wire) (written wire show_float (order_sent o))
        ≡ ok o
  unfolding set_websocket_order set_levels set_struct set_fields find_setter set_list unmarshal_book
      text_eq
  set_websocket_order-written o b bids asks =
      let entries =
        set_items-array_of (IsShown wire show_float) (no_order_entry wire) (set_order_entry wire)
          (order_entry_fields wire show_float) set_order_entry-fields in
      rw
        (
          set_websocket_order,
          set_fields,
          b,
          set_levels,
          set_list,
          entries o.payload.bids bids,
          entries o.payload.asks asks,
        )
        refl
