-- ===== src/Trading/Socket/Laws.antt =====
-- What the page of data_server/controllers/socket_controller.go gets to see.
pub mod Forwards
use microservices_trading_bo.Common.{
  ℕ, suc, ◌≤◌, ◌≡◌, ◌≢◌, ◌∙◌, refl, Text, List, [], ◌∷◌, ◌++◌, Option, none, some, Outcome, ok,
  panics, length, length-append, arith, Option-cases, Outcome-cases, inl, inr,
}
use microservices_trading_bo.Ws.Channel.{done, receive, Run-cases, Receipt-cases}
use microservices_trading_bo.Bitso.Client.Api.{World}
use microservices_trading_bo.Bitso.Client.Endpoints.{ticker}
use microservices_trading_bo.Bitso.Client.{Failure}
use microservices_trading_bo.Bitso.Websocket.{
  Item, Websocket, Event, new_websocket, inbox_size, run,
}
use microservices_trading_bo.Bitso.Websocket.Laws.{items, arrivals, run-arrivals-inbox}
use microservices_trading_bo.Trading.Fate.{Fate, returns, Fate-cases}
use microservices_trading_bo.Bitso.Payload.{Ticker}
use microservices_trading_bo.Trading.Store.{get_cluster}
use microservices_trading_bo.Trading.Socket.{
  Outside, Handler, Next, book, save_tiker, sent_after, saves, forwards, receives, settle, round,
  rounds, begins, socket_handler,
}

-- What is shown of a round: it is the last one, at most one frame is written, nothing is saved.
abbrev IsLast : (o : Outside) → Handler o → Handler o × Next → Type 0
IsLast o h r = (r.1 ≢ returns tt) × (length r.0.sent ≤ suc (length h.sent)) × (r.0.db ≡ h.db)

module _ (o : Outside)
    (nil_config : (db : o.cassandra.Db) → o.cassandra.create_session none db ≡ Fate.panics) where
  open o use {exchange, decoding, cassandra, read_ticker, marshal, write}

  saves-panics :
      (h : Handler o) (t : Option (Ticker cassandra.Instant)) → saves o h t ≡ (h, Fate.panics)
  unfolding saves save_tiker get_cluster
  saves-panics h t = rw (saves, nil_config h.db) refl

  sent_after-length :
      (frames : List Text) (m : Option (Item decoding)) {frames' : List Text}
      → sent_after o frames m ≡ ok frames'
      → length frames' ≡ suc (length frames)
  unfolding sent_after
  sent_after-length frames m e = elim (Outcome-cases (marshal m)) [
    | inl (frame, made) ↦ elim (Option-cases (write frames frame)) [
      | inl written ↦ ground (arith, made, written, length-append frames (frame ∷ []))
      | inr (fault, failed) ↦ ground (arith, made, failed)
    ]
    | inr (inl (fault, failed)) ↦ ground (arith, failed)
    | inr (inr failed) ↦ ground (arith, failed)
  ]

  forwards-IsLast :
      (h : Handler o) (m : Option (Item decoding)) (t : Option (Ticker cassandra.Instant))
      → IsLast o h (forwards o h m t)
  unfolding forwards
  forwards-IsLast h m t = elim (Outcome-cases (sent_after o h.sent m)) [
    | inl (frames, e) ↦
        ground (arith, e, sent_after-length h.sent m e, saves-panics (record h { sent = frames }) t)
    | inr (inl (fault, e)) ↦ ground (arith, e, saves-panics h t)
    | inr (inr e) ↦ ground (arith, e)
  ]

  receives-IsLast :
      (h : Handler o) (t : Option (Ticker cassandra.Instant)) → IsLast o h (receives o h t)
  unfolding receives
  receives-IsLast h t = elim (Receipt-cases (receive h.ws.inbox)) [
    | inl (m, inbox, e) ↦ rw (receives, e) (forwards-IsLast _ (some m) t)
    | inr (inl e) ↦ rw (receives, e) (forwards-IsLast h none t)
    | inr (inr e) ↦ ground (arith, e)
  ]

  round-IsLast : (h : Handler o) (es : List (Event decoding)) → IsLast o h (round o h es)
  unfolding round
  round-IsLast h es = elim (Run-cases (ticker exchange h.world (book o) read_ticker)) [
    | inl ((w, reply), e) ↦ elim (Outcome-cases reply) [
      | inl (t, got) ↦ rw (round, e, got) (receives-IsLast _ (some t))
      | inr (inl (fault, got)) ↦ rw (round, e, got) (receives-IsLast _ none)
      | inr (inr got) ↦ ground (arith, e, got)
    ]
    | inr (inl e) ↦ ground (arith, e)
    | inr (inr e) ↦ ground (arith, e)
  ]

  rounds-IsLast :
      (h : Handler o) (es : List (Event decoding)) (ess : List (List (Event decoding)))
      → IsLast o h (rounds o h (es ∷ ess))
  unfolding rounds
  rounds-IsLast h es ess =
      let last = round-IsLast h es in
      elim (Fate-cases (round o h es).1) [
        | inl (_, e) ↦ ground (arith, e, last)
        | inr (inl e) ↦ ground (arith, e, last)
        | inr (inr (inl e)) ↦ ground (arith, e, last)
        | inr (inr (inr e)) ↦ ground (arith, e, last)
      ]

  -- If a configuration that is nil has no session but panics, then the page gets to see at most one
  -- message: whatever the exchange sends and whenever, the handler's first round is its last. It waits
  -- for ever, panics or ends the program; at most one frame was written, and nothing was saved.
  pub socket_handler_ends :
      (now : ℕ) (db : cassandra.Db) (es : List (Event decoding))
      (ess : List (List (Event decoding))) (h : Handler o) (next : Next)
      → socket_handler o now db (es ∷ ess) ≡ returns (some (h, next))
      → (next ≢ returns tt) × (length h.sent ≤ 1) × (h.db ≡ db)
  unfolding socket_handler
  socket_handler_ends now db es ess h next e =
      ground (arith, e, rounds-IsLast (begins o now db) es ess)
