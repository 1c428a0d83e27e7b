-- ===== src/Trading/Socket/Laws/Forwards.antt =====
-- The one message that the page of data_server/controllers/socket_controller.go forwards.
use microservices_trading_bo.Common.{
  ℕ, suc, ◌≤◌, ◌≡◌, ◌≢◌, ◌∙◌, refl, Text, List, [], ◌∷◌, ◌++◌, Option, none, some, Outcome, ok,
  panics, length, arith, Outcome-cases, inl, inr,
}
use microservices_trading_bo.Ws.Channel.{done, receive, Run-cases}
use microservices_trading_bo.Bitso.Client.Api.{World}
use microservices_trading_bo.Bitso.Client.Endpoints.{ticker}
use microservices_trading_bo.Bitso.Client.{Failure}
use microservices_trading_bo.Bitso.Websocket.{
  Item, Websocket, Event, new_websocket, inbox_size, run, step,
}
use microservices_trading_bo.Bitso.Websocket.Laws.{items, arrivals, run-arrivals-inbox}
use microservices_trading_bo.Trading.Fate.{Fate, returns}
use microservices_trading_bo.Bitso.Payload.{Ticker}
use microservices_trading_bo.Trading.Socket.{
  Outside, Handler, book, sent_after, forwards, receives, settle, round, rounds, begins,
  socket_handler,
}
use microservices_trading_bo.Trading.Socket.Laws.{saves-panics}

module _ (o : Outside)
    (nil_config : (db : o.cassandra.Db) → o.cassandra.create_session none db ≡ Fate.panics) where
  open o use {exchange, decoding, cassandra, read_ticker, marshal, write}

  -- The handler after a message was forwarded.
  abbrev forwarded : Handler o → Item decoding → List (Item decoding) → Text → Handler o
  forwarded h m rest frame = record h {
    ws = record h.ws {
      inbox = record h.ws.inbox { buffer = rest };
      received = h.ws.received ++ m ∷ [];
    };
    sent = h.sent ++ frame ∷ [];
  }

  receives-first :
      (h : Handler o) (t : Option (Ticker cassandra.Instant)) (m : Item decoding)
      (rest : List (Item decoding)) (frame : Text)
      → h.ws.inbox.buffer ≡ m ∷ rest
      → marshal (some m) ≡ ok frame
      → write h.sent frame ≡ none
      → receives o h t ≡ (forwarded h m rest frame, Fate.panics)
  unfolding receives forwards sent_after receive
  receives-first h t m rest frame b made written =
      ground (arith, b, made, written, saves-panics o nil_config (forwarded h m rest frame) t)

  -- A reader that nothing holds up has nothing left to do.
  settle-run :
      (ws ws' : Websocket decoding) (es : List (Event decoding))
      → run decoding ws es ≡ done ws'
      → settle o ws es ≡ (ws', [])
  unfolding settle run
  settle-run ws ws' [] e = ground (arith, e)
  settle-run ws ws' (event ∷ es) e = elim (Run-cases (step decoding ws event)) [
    | inl (ws1, stepped) ↦ rw (settle, stepped) (settle-run ws1 ws' es (rw (run, stepped) at e))
    | inr (inl stuck) ↦ absurd (ground (arith, stuck, e))
    | inr (inr dead) ↦ absurd (ground (arith, dead, e))
  ]

  round-first :
      (h : Handler o) (es : List (Event decoding)) (ws : Websocket decoding) (w : World)
      (reply : Outcome Failure (Ticker cassandra.Instant)) (m : Item decoding)
      (rest : List (Item decoding)) (frame : Text)
      → h.coming ≡ []
      → run decoding h.ws es ≡ done ws
      → ws.inbox.buffer ≡ m ∷ rest
      → ticker exchange h.world (book o) read_ticker ≡ done (w, reply)
      → reply ≢ panics
      → marshal (some m) ≡ ok frame
      → write h.sent frame ≡ none
      → round o h es ≡ (
        forwarded
            (record h { deferred = suc h.deferred; ws = ws; coming = []; world = w })
            m
            rest
            frame,
        Fate.panics,
      )
  unfolding round
  round-first h es ws w reply m rest frame free came b asked fine made written =
      let at = record h { deferred = suc h.deferred; ws = ws; coming = []; world = w } in
      let settled = settle-run h.ws ws es came in
      elim (Outcome-cases reply) [
        | inl (t, got) ↦ ground (
          arith,
          free,
          settled,
          asked,
          got,
          receives-first at (some t) m rest frame b made written,
        )
        | inr (inl (fault, got)) ↦
            ground
              (arith, free, settled, asked, got, receives-first at none m rest frame b made written)
        | inr (inr got) ↦ absurd (fine got)
      ]

  -- The handler from its start, with what arrived before its first round.
  opened :
      (now : ℕ) (db : cassandra.Db) (es : List (Event decoding))
      (ess : List (List (Event decoding))) (ws : Websocket decoding) (w : World)
      (reply : Outcome Failure (Ticker cassandra.Instant)) (m : Item decoding)
      (rest : List (Item decoding)) (frame : Text)
      → o.load ≡ none
      → o.dial ≡ none
      → o.upgrade ≡ none
      → run decoding (new_websocket decoding) es ≡ done ws
      → ws.inbox.buffer ≡ m ∷ rest
      → ticker exchange (begins o now db).world (book o) read_ticker ≡ done (w, reply)
      → reply ≢ panics
      → marshal (some m) ≡ ok frame
      → write [] frame ≡ none
      → (h : Handler o) × (socket_handler o now db (es ∷ ess) ≡ returns (some (h, Fate.panics)))
        × (h.sent ≡ frame ∷ [])
        × (h.page_closed ≡ 1)
        × (h.ws.inbox.buffer ≡ rest)
        × (h.world ≡ w)
  unfolding socket_handler rounds
  opened now db es ess ws w reply m rest frame loaded dialed upgraded came b asked fine made
        written =
      let first =
        round-first (begins o now db) es ws w reply m rest frame refl came b asked fine made
          written in
      (
        record (forwarded (record (begins o now db) { deferred = 1; ws = ws; world = w }) m rest
            frame) { page_closed = 1 },
        ground (arith, loaded, dialed, upgraded, first),
        refl,
        refl,
        refl,
        refl,
      )

  -- If a configuration that is nil has no session but panics, and the page is opened, which takes
  -- that the environment can be read and the exchange be dialled: if no more messages arrive than
  -- the inbox holds, the request for the ticker comes to its end, with a ticker or with an error,
  -- the first item that the exchange's messages hold can be encoded, and its frame can be written
  -- to the page, then it is what is written to the page, and nothing else; then the handler
  -- panics, the connection to the page is closed, and the other items stay in the inbox, in
  -- order.
  pub socket_handler_forwards :
      (now : ℕ) (db : cassandra.Db) (messages : List Text) (ess : List (List (Event decoding)))
      (w : World) (reply : Outcome Failure (Ticker cassandra.Instant)) (m : Item decoding)
      (rest : List (Item decoding)) (frame : Text)
      → o.load ≡ none
      → o.dial ≡ none
      → o.upgrade ≡ none
      → length messages ≤ inbox_size
      → items decoding (arrivals decoding messages) ≡ m ∷ rest
      → ticker exchange (begins o now db).world (book o) read_ticker ≡ done (w, reply)
      → reply ≢ panics
      → marshal (some m) ≡ ok frame
      → write [] frame ≡ none
      → (h : Handler o) × (socket_handler o now db (arrivals decoding messages ∷ ess)
          ≡ returns (some (h, Fate.panics)))
        × (h.sent ≡ frame ∷ [])
        × (h.page_closed ≡ 1)
        × (h.ws.inbox.buffer ≡ rest)
        × (h.world ≡ w)
  socket_handler_forwards now db messages ess w reply m rest frame loaded dialed upgraded few first
        asked fine made written =
      let (ws, came, filled) = run-arrivals-inbox decoding messages few in
      opened now db (arrivals decoding messages) ess ws w reply m rest frame loaded dialed upgraded
        came (filled ∙ first) asked fine made written
