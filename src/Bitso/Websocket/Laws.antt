-- ===== src/Bitso/Websocket/Laws.antt =====
-- The receiver gets what the exchange sent, in order.
use mathlib.Core.List.{append_assoc, append-nil}
use microservices_trading_bo.Common.{
  ◌+◌, ◌≤◌, ◌≡◌, length, length-append, true, false, refl, sym, Text, List, [], ◌∷◌, ◌++◌,
  if◌then◌else◌, arith, Bool-cases, ◌⊎◌, inl, inr,
}
use microservices_trading_bo.Ws.Channel.{
  done, Receipt-cases, Ensures, Ensures->>=, receive, receive-buffer, send, put,
}
use microservices_trading_bo.Bitso.Websocket.{
  Decoding, Item, Verdict, stops, skips, puts, classify, Websocket, new_websocket, inbox_size,
  Event, arrives, breaks, receives, read_message, step, run,
}

module _ (dec : Decoding) where
  -- The items of a history: one for each message up to the first that cannot be decoded and to a
  -- failure of the connection, keep-alives excepted.
  unfoldable pub items : List (Event dec) → List (Item dec)
  items [] = []
  items (arrives message ∷ es) =
      let rest = items es in
      elim (classify dec message) [ stops ↦ [] | skips ↦ rest | puts it ↦ it ∷ rest ]
  items (breaks ∷ es) = []
  items (receives ∷ es) = items es

  Verdict-cases :
      (v : Verdict dec) → (v ≡ stops) ⊎ ((v ≡ skips) ⊎ ((it : Item dec) × (v ≡ puts it)))
  Verdict-cases stops = inl refl
  Verdict-cases skips = inr (inl refl)
  Verdict-cases (puts it) = inr (inr (it, refl))

  seen : Websocket dec → List (Item dec)
  seen ws = ws.received ++ ws.inbox.buffer

  -- What is seen once the events are over.
  expected : Websocket dec → List (Event dec) → List (Item dec)
  expected ws es = if ws.closed then seen ws else seen ws ++ items es

  module _ (ws ws' : Websocket dec) (es : List (Event dec)) where
    arrives-expected :
        (message : Text)
        → step dec ws (arrives message) ≡ done ws'
        → expected ws' es ≡ expected ws (arrives message ∷ es)
    unfolding step read_message items expected seen send
    arrives-expected message e = elim (Bool-cases ws.closed) [
      | inl shut ↦ ground (arith, shut)
      | inr going ↦ elim (Verdict-cases (classify dec message)) [
        | inl f ↦ ground (arith, going, f, append-nil (ws.received ++ ws.inbox.buffer))
        | inr (inl f) ↦ ground (arith, going, f)
        | inr (inr (it, f)) ↦ ground (
          arith,
          going,
          f,
          append_assoc ws.received ws.inbox.buffer (it ∷ []),
          append_assoc (ws.received ++ ws.inbox.buffer) (it ∷ []) (items es),
        )
      ]
    ]

    breaks-expected : step dec ws breaks ≡ done ws' → expected ws' es ≡ expected ws (breaks ∷ es)
    unfolding step items expected seen
    breaks-expected e = ground (arith, append-nil (ws.received ++ ws.inbox.buffer))

    receives-expected :
        step dec ws receives ≡ done ws' → expected ws' es ≡ expected ws (receives ∷ es)
    unfolding step items expected seen
    receives-expected e = elim (Receipt-cases (receive ws.inbox)) [
      | inl (it, inbox, f) ↦ ground (
        arith,
        f,
        receive-buffer ws.inbox inbox it,
        append_assoc ws.received (it ∷ []) inbox.buffer,
      )
      | inr (inl f) ↦ ground (arith, f)
      | inr (inr f) ↦ ground (arith, f)
    ]

  step-expected :
      (ws ws' : Websocket dec) (e : Event dec) (es : List (Event dec))
      → step dec ws e ≡ done ws'
      → expected ws' es ≡ expected ws (e ∷ es)
  step-expected ws ws' (arrives message) es d = arrives-expected ws ws' es message d
  step-expected ws ws' breaks es d = breaks-expected ws ws' es d
  step-expected ws ws' receives es d = receives-expected ws ws' es d

  run-expected :
      (es : List (Event dec)) (ws : Websocket dec)
      → Ensures (λ ws'. seen ws' ≡ expected ws es) (run dec ws es)
  unfolding run expected seen items
  run-expected [] ws = elim (Bool-cases ws.closed) [
    | inl shut ↦ rw shut refl
    | inr going ↦ rw going (sym (append-nil (ws.received ++ ws.inbox.buffer)))
  ]
  run-expected (e ∷ es) ws =
      Ensures->>= (λ ws'. seen ws' ≡ expected ws (e ∷ es)) (step dec ws e) (λ ws'. run dec ws' es)
        (λ ws' d. rw (step-expected ws ws' e es d) at (run-expected es ws'))

  -- Whatever order messages arrive in, the connection fails and the receiver takes items in: what the
  -- receiver took and what the inbox still holds are, in order, the items of the messages that
  -- arrived, up to the first that cannot be decoded or to the failure; nothing is lost or doubled.
  pub run_relays :
      (es : List (Event dec)) (ws : Websocket dec)
      → run dec (new_websocket dec) es ≡ done ws
      → ws.received ++ ws.inbox.buffer ≡ items es
  unfolding seen expected new_websocket
  run_relays es ws e = rw e at (run-expected es (new_websocket dec))

  -- Messages that arrive while nothing is taken from the inbox.
  unfoldable pub arrivals : List Text → List (Event dec)
  arrivals [] = []
  arrivals (message ∷ messages) = arrives message ∷ arrivals messages

  -- The inbox takes as many messages as it has room for.
  run-arrivals :
      (messages : List Text) (ws : Websocket dec)
      → ws.inbox.closed ≡ false
      → length ws.inbox.buffer + length messages ≤ ws.inbox.capacity
      → (ws' : Websocket dec) × (run dec ws (arrivals messages) ≡ done ws')
        × (ws'.received ≡ ws.received)
  unfolding run arrivals step read_message send
  run-arrivals [] ws o room = (ws, refl, refl)
  run-arrivals (message ∷ messages) ws o room = elim (Bool-cases ws.closed) [
    | inl shut ↦ simp shut (run-arrivals messages ws o (omega (arith, room)))
    | inr going ↦ elim (Verdict-cases (classify dec message)) [
      | inl f ↦
          simp (going, read_message, f)
            (run-arrivals messages (record ws { closed = true }) o (omega (arith, room)))
      | inr (inl f) ↦
          simp (going, read_message, f) (run-arrivals messages ws o (omega (arith, room)))
      | inr (inr (it, f)) ↦
          let taken : send ws.inbox it ≡ done (put ws.inbox it) = ground (arith, o, room) in
          simp (going, read_message, f, taken)
            (run-arrivals messages (record ws { inbox = put ws.inbox it; closed = false }) o
              (omega (arith, room, length-append ws.inbox.buffer (it ∷ []))))
    ]
  ]

  -- As many messages as the inbox holds can arrive while nothing is taken from it; it then has their
  -- items, in their order.
  pub run-arrivals-inbox :
      (messages : List Text)
      → length messages ≤ inbox_size
      → (ws : Websocket dec) × (run dec (new_websocket dec) (arrivals messages) ≡ done ws)
        × (ws.inbox.buffer ≡ items (arrivals messages))
  unfolding new_websocket
  run-arrivals-inbox messages room =
      let (ws, came, untouched) =
        run-arrivals messages (new_websocket dec) refl (omega (arith, room)) in
      (ws, came, rw untouched at (run_relays (arrivals messages) ws came))
