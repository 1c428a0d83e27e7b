-- ===== src/Bitso/Websocket/Messages/Received.antt =====
-- Everything that the reader of data_server/bitso/websocket.go hands over is well formed.
use microservices_trading_bo.Common.{
  ◌≡◌, ◌≢◌, refl, Text, Bool, true, false, List, [], ◌∷◌, ◌++◌, All, Option, Option-cases, none,
  some, Outcome, ok, err, panics, inl, inr, arith, subst, if◌then◌else◌, sym,
}
use microservices_trading_bo.Ws.Channel.{done}
use microservices_trading_bo.Bitso.Json.{Error}
use microservices_trading_bo.Bitso.Value.{Value, Setter}
use microservices_trading_bo.Bitso.Value.Laws.{Holds-ok, Keeps}
use microservices_trading_bo.Bitso.Answers.Sound.{IsReading, no_book-IsBook}
use microservices_trading_bo.Bitso.Websocket.{
  Item, diffs, orders, trades, replies, Verdict, stops, skips, puts, classify, unless_wrong,
  Websocket, new_websocket, Event, arrives, breaks, receives, run,
}
use microservices_trading_bo.Bitso.Websocket.Laws.{items, run_relays}
use microservices_trading_bo.Bitso.Websocket.Messages.{
  WireFormat, no_reply, set_reply, no_websocket_trade, set_websocket_trade, no_diff_order,
  set_diff_order, no_websocket_order, set_websocket_order, to_option, unmarshal, decoding,
}
use microservices_trading_bo.Bitso.Websocket.Messages.Sound.{
  IsReply, IsReply-Keeps, IsWebsocketTrade, IsWebsocketTrade-Keeps, IsDiffOrder, IsDiffOrder-Keeps,
  IsWebsocketOrder, IsWebsocketOrder-Keeps, unset-IsTid,
}

to_option-some : {A : Type 0} (o : Outcome Error A) (a : A) → to_option o ≡ some a → o ≡ ok a
to_option-some (ok b) a e = ground (arith, e)
to_option-some (err f) a e = cc
to_option-some panics a e = cc

unmarshal-Keeps :
    {A : Type 0} (wire : WireFormat) (P : A → Type 0) (zero_value : A) (set : Setter A)
    (message : Text) (a : A)
    → Keeps P set
    → P zero_value
    → unmarshal wire zero_value set message ≡ some a
    → P a
unfolding unmarshal
unmarshal-Keeps wire P zero_value set message a keeps z e =
    elim (Option-cases (wire.parse message)) [
      | inl bad ↦ absurd (ground (arith, bad, e))
      | inr (v, parsed) ↦
          let read = to_option-some (set zero_value v) a (rw (unmarshal, parsed) at e) in
          Holds-ok P (set zero_value v) a (keeps zero_value v z) read
    ]

module _ (wire : WireFormat) where
  -- What the inbox may hold: books that their own names are parsed to, ids and times of 64 bits, and
  -- positions of 64 bits with a sign.
  abbrev pub IsItem : Item (decoding wire) → Type 0
  IsItem (diffs d) = IsDiffOrder wire.reading d
  IsItem (orders o) = IsWebsocketOrder wire.reading o
  IsItem (trades t) = IsWebsocketTrade wire.reading t
  IsItem (replies r) = IsReply r

  unfoldable Allows : Verdict (decoding wire) → Type 0
  Allows stops = Unit
  Allows skips = Unit
  Allows (puts it) = IsItem it

  if-Allows :
      (b : Bool) (v w : Verdict (decoding wire)) → Allows v → Allows w → Allows (if b then v else w)
  if-Allows true v w h k = h
  if-Allows false v w h k = k

  stops-Allows : Allows stops
  unfolding Allows
  stops-Allows = tt

  skips-Allows : Allows skips
  unfolding Allows
  skips-Allows = tt

  puts-Allows : (it : Item (decoding wire)) → IsItem it → Allows (puts it)
  unfolding Allows
  puts-Allows it h = h

  unless_wrong-Allows :
      {A : Type 0} (make_item : A → Item (decoding wire)) (o : Option A)
      → ((a : A) → o ≡ some a → IsItem (make_item a))
      → Allows (unless_wrong (decoding wire) make_item o)
  unfolding unless_wrong Allows
  unless_wrong-Allows make_item none h = tt
  unless_wrong-Allows make_item (some a) h = h a refl

  next-IsItem :
      (v : Verdict (decoding wire)) (rest : List (Item (decoding wire)))
      → Allows v
      → All IsItem rest
      → All IsItem (elim v [ stops ↦ [] | skips ↦ rest | puts it ↦ it ∷ rest ])
  unfolding Allows
  next-IsItem stops rest h k = tt
  next-IsItem skips rest h k = k
  next-IsItem (puts it) rest h k = (h, k)

  module _ (s : IsReading wire.reading)
      (calm : (a : wire.dyn.Any) (v : Value) → wire.dyn.set_any a v ≢ panics) where
    classify-Allows : (message : Text) → Allows (classify (decoding wire) message)
    unfolding classify
    classify-Allows message =
        elim (Option-cases (unmarshal wire (no_reply wire) (set_reply wire) message)) [
          | inl bad ↦ rw (classify, bad) stops-Allows
          | inr (reply, read) ↦
              let zero = no_book-IsBook wire.reading in
              let diff = unless_wrong-Allows diffs _ (λ d.
                unmarshal-Keeps wire (IsDiffOrder wire.reading) (no_diff_order wire)
                  (set_diff_order wire) message d (IsDiffOrder-Keeps wire s) (zero, tt)) in
              let order = unless_wrong-Allows orders _ (λ o.
                unmarshal-Keeps wire (IsWebsocketOrder wire.reading) (no_websocket_order wire)
                  (set_websocket_order wire) message o (IsWebsocketOrder-Keeps wire s)
                  (zero, (tt, tt))) in
              let trade = unless_wrong-Allows trades _ (λ t.
                unmarshal-Keeps wire (IsWebsocketTrade wire.reading) (no_websocket_trade wire)
                  (set_websocket_trade wire) message t (IsWebsocketTrade-Keeps wire s)
                  (zero, tt)) in
              let other = puts-Allows (replies reply) (
                unmarshal-Keeps wire IsReply (no_reply wire) (set_reply wire) message reply
                  (IsReply-Keeps wire s calm) unset-IsTid read) in
              rw (classify, read)
                (if-Allows _ _ _ diff (
                  if-Allows _ _ _ skips-Allows
                    (if-Allows _ _ _ order (if-Allows _ _ _ trade other))))
        ]

    items-IsItem : (es : List (Event (decoding wire))) → All IsItem (items (decoding wire) es)
    unfolding items
    items-IsItem [] = tt
    items-IsItem (arrives message ∷ es) =
        next-IsItem (classify (decoding wire) message) (items (decoding wire) es)
          (classify-Allows message) (items-IsItem es)
    items-IsItem (breaks ∷ es) = tt
    items-IsItem (receives ∷ es) = items-IsItem es

    -- If decoding an `interface{}` does not panic and lowering is as documented: whatever texts the exchange sends, and in whatever
    -- order they arrive, the connection fails and the receiver takes items in, every item that the
    -- receiver took and that the inbox still holds is well formed: each book is one that its own name
    -- is parsed to, each id and each time is below 2 ^ 64, and each position fits 64 bits with a sign.
    pub run-IsItem :
        (es : List (Event (decoding wire))) (ws : Websocket (decoding wire))
        → run (decoding wire) (new_websocket (decoding wire)) es ≡ done ws
        → All IsItem (ws.received ++ ws.inbox.buffer)
    run-IsItem es ws e =
        subst (All IsItem) (sym (run_relays (decoding wire) es ws e)) (items-IsItem es)
