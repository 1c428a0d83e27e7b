-- ===== src/Bitso/Websocket/Messages/Delivered.antt =====
-- The receiver gets what the exchange sends, in order.
use microservices_trading_bo.Common.{
  ◌≤◌, ◌≡◌, refl, Text, codes, text_eq, List, [], ◌∷◌, ◌++◌, some, ok, arith, ◌∙◌, ap, length,
}
use microservices_trading_bo.Ws.Channel.{done}
use microservices_trading_bo.Bitso.Value.{Value, Setter}
use microservices_trading_bo.Bitso.Book.{Book}
use microservices_trading_bo.Bitso.Websocket.{
  Item, stops, skips, puts, classify, unless_wrong, Websocket, new_websocket, Event, arrives,
  breaks, receives, run, inbox_size,
}
use microservices_trading_bo.Bitso.Websocket.Laws.{items, run_relays, arrivals, run-arrivals-inbox}
use microservices_trading_bo.Bitso.Websocket.Messages.{
  WireFormat, no_reply, set_reply, unmarshal, decoding, no_websocket_trade, set_websocket_trade,
  no_diff_order, set_diff_order, no_websocket_order, set_websocket_order,
}
use microservices_trading_bo.Bitso.Websocket.Messages.Sent.{
  Sent, trade_sent, diff_sent, order_sent, kept_alive, answered, written, IsSendable, item_of,
  on_channel,
}
use microservices_trading_bo.Bitso.Websocket.Messages.Again.{
  channel_reply, alive_reply, answer_reply, set_websocket_trade-written, set_diff_order-written,
  set_websocket_order-written,
}

unmarshal-ok :
    {A : Type 0} (wire : WireFormat) (zero_value : A) (set : Setter A) (message : Text) (v : Value)
    (a : A)
    → wire.parse message ≡ some v
    → set zero_value v ≡ ok a
    → unmarshal wire zero_value set message ≡ some a
unfolding unmarshal
unmarshal-ok wire zero_value set message v a e f = rw (unmarshal, e, f) refl

module _ (wire : WireFormat) (show_float : wire.Float → Text) where
  -- The reply of a message on a channel.
  channel_read :
      (message channel : Text) (book : Book) (payload : Value) (a : wire.dyn.Any)
      → wire.parse message ≡ some (on_channel channel book payload)
      → wire.dyn.set_any wire.dyn.nothing payload ≡ ok a
      → unmarshal wire (no_reply wire) (set_reply wire) message
        ≡ some (record (no_reply wire) { type = channel; payload = a })
  channel_read message channel book payload a e taken =
      unmarshal-ok wire (no_reply wire) (set_reply wire) message _ _ e
        (channel_reply wire show_float channel book payload a taken)

  classify-written :
      (message : Text) (sent : Sent wire.Float)
      → wire.parse message ≡ some (written wire show_float sent)
      → IsSendable wire show_float sent
      → classify (decoding wire) message ≡ item_of wire show_float sent
  unfolding classify unless_wrong text_eq
  classify-written message (trade_sent t) e (v, (a, taken, there)) =
      let read = channel_read message (codes "trades") t.book _ a e taken in
      let decoded =
        unmarshal-ok wire (no_websocket_trade wire) (set_websocket_trade wire) message _ t e
          (set_websocket_trade-written wire show_float t v) in
      rw (classify, read, there, decoded) refl
  classify-written message (diff_sent d) e (v, (a, taken, there)) =
      let read = channel_read message (codes "diff-orders") d.book _ a e taken in
      let decoded =
        unmarshal-ok wire (no_diff_order wire) (set_diff_order wire) message _ d e
          (set_diff_order-written wire show_float d v) in
      rw (classify, read, there, decoded) refl
  classify-written message (order_sent o) e (b, bids, asks, (a, taken, there)) =
      let read = channel_read message (codes "orders") o.book _ a e taken in
      let decoded =
        unmarshal-ok wire (no_websocket_order wire) (set_websocket_order wire) message _ o e
          (set_websocket_order-written wire show_float o b bids asks) in
      rw (classify, read, there, decoded) refl
  classify-written message kept_alive e v =
      let read =
        unmarshal-ok wire (no_reply wire) (set_reply wire) message _ _ e
          (alive_reply wire show_float) in
      rw (classify, read) refl
  classify-written message (answered action response channel) e (alive, nil) =
      let read =
        unmarshal-ok wire (no_reply wire) (set_reply wire) message _ _ e
          (answer_reply wire show_float action response channel) in
      rw (classify, read, alive, nil) (ground (arith))

  -- The messages that arrive are those sent, and the connection does not fail.
  abbrev pub Carries : List (Event (decoding wire)) → List (Sent wire.Float) → Type 0
  Carries [] [] = Unit
  Carries [] (sent ∷ rest) = ⊥
  Carries (breaks ∷ es) rest = ⊥
  Carries (receives ∷ es) rest = Carries es rest
  Carries (arrives message ∷ es) [] = ⊥
  Carries (arrives message ∷ es) (sent ∷ rest) =
      (wire.parse message ≡ some (written wire show_float sent))
      × IsSendable wire show_float sent
      × Carries es rest

  -- What the receiver is to get for all that is sent: nothing for what keeps the connection alive.
  unfoldable pub items_of : List (Sent wire.Float) → List (Item (decoding wire))
  items_of [] = []
  items_of (sent ∷ rest) =
      let later = items_of rest in
      elim (item_of wire show_float sent) [ stops ↦ [] | skips ↦ later | puts it ↦ it ∷ later ]

  items-Carries :
      (es : List (Event (decoding wire))) (sents : List (Sent wire.Float))
      → Carries es sents
      → items (decoding wire) es ≡ items_of sents
  unfolding items items_of
  items-Carries [] [] c = refl
  items-Carries [] (sent ∷ rest) c = absurd c
  items-Carries (breaks ∷ es) rest c = absurd c
  items-Carries (receives ∷ es) rest c = items-Carries es rest c
  items-Carries (arrives message ∷ es) [] c = absurd c
  items-Carries (arrives message ∷ es) (sent ∷ rest) (parsed, v, c) =
      let same = items-Carries es rest c in
      rw (items, classify-written message sent parsed v)
        (ap
          (λ later. elim (item_of wire show_float sent) [
            | stops ↦ []
            | skips ↦ later
            | puts it ↦ it ∷ later
          ])
          same)

  -- If the texts that arrive are, once parsed, trades, changes of orders and order books as the exchange
  -- writes them, messages that keep the connection alive and answers to subscriptions, and the
  -- connection does not fail (each book is one that its name is parsed to, each number fits and is
  -- read back from its text, each payload is taken by an `interface{}`, and an answer is for a
  -- channel that is not named ka): in whatever order they arrive and the receiver takes items in,
  -- what it took and what the inbox still holds are, in order, just those trades, changes, order
  -- books and answers, field by field as they were sent.
  pub run_delivers :
      (es : List (Event (decoding wire))) (sents : List (Sent wire.Float))
      (ws : Websocket (decoding wire))
      → Carries es sents
      → run (decoding wire) (new_websocket (decoding wire)) es ≡ done ws
      → ws.received ++ ws.inbox.buffer ≡ items_of sents
  run_delivers es sents ws c e = run_relays (decoding wire) es ws e ∙ items-Carries es sents c

  -- As many as the inbox holds arrive while nothing is taken from it, which then has their items.
  pub arrivals_delivered :
      (messages : List Text) (sents : List (Sent wire.Float))
      → Carries (arrivals (decoding wire) messages) sents
      → length messages ≤ inbox_size
      → (ws : Websocket (decoding wire)) × (run
            (decoding wire)
            (new_websocket (decoding wire))
            (arrivals (decoding wire) messages)
          ≡ done ws)
        × (ws.inbox.buffer ≡ items_of sents)
  arrivals_delivered messages sents c room =
      let (ws, came, held) = run-arrivals-inbox (decoding wire) messages room in
      (ws, came, held ∙ items-Carries (arrivals (decoding wire) messages) sents c)
