-- ===== src/Bitso/Client/Limiter.antt =====
-- The burst-rate protection of data_server/bitso/client.go: time passes, tickets are given back, and
-- requests are asked for, in any order.
use microservices_trading_bo.Common.{
  ℕ, ◌+◌, ◌≤◌, ◌≡◌, ◌⊎◌, Text, false, List, [], ◌∷◌, Option, none, some, if◌then◌else◌, leb, ok,
}
use microservices_trading_bo.Ws.Channel.{Run, done, blocked, ◌>>=◌, send}
use microservices_trading_bo.Bitso.Atoi.{pos}
use microservices_trading_bo.Bitso.Client.{Libraries}
use microservices_trading_bo.Bitso.Client.Api.{Sent, World, do_request}

-- What can happen next. A call of the API that began at some time has its
-- turn to ask for a request; its answer goes to the caller.
pub data Event : Type 0 where
  passes : ℕ → Event
  gives_back : Event
  asks : ℕ → Text → Text → List (Text × Text) → Option Text → Event

-- The goroutines whose ticker has ticked go on in some order; all do the same.
unfoldable pub without_due : ℕ → List ℕ → Option (List ℕ)
without_due now [] = none
without_due now (t ∷ ts) =
    let rest = without_due now ts in
    if leb t now then some ts else (elim rest [ none ↦ none | some us ↦ some (t ∷ us) ])

-- `<-ticker.C; c.tickets <- struct{}{}`
unfoldable pub give_back : World → Run World
unfolding without_due send
give_back w = elim (without_due w.now w.refills) [
  | none ↦ blocked
  | some refills ↦ (do
    tickets ← send w.client.tickets tt
    done (record w { client = record w.client { tickets = tickets }; refills = refills }))
]

-- A call that began at some time.
abbrev pub begun : World → ℕ → World
begun w began = record w { began = began }

unfoldable pub step : Libraries → World → Event → Run World
unfolding do_request give_back
step lib w (passes d) = done (record w { now = w.now + d })
step lib w gives_back = give_back w
step lib w (asks began method endpoint params body) =
    do_request lib (begun w began) method endpoint params body (λ buf. ok buf) >>= λ r. done r.0

unfoldable pub run : Libraries → World → List Event → Run World
run lib w [] = done w
run lib w (e ∷ es) = step lib w e >>= λ w'. run lib w' es

-- Each request had its ticket at least `rate` after the one before it.
unfoldable pub IsSpaced : ℕ → List Sent → Type 0
IsSpaced rate [] = Unit
IsSpaced rate (s ∷ []) = Unit
IsSpaced rate (s ∷ (t ∷ log)) = (t.at + rate ≤ s.at) × IsSpaced rate (t ∷ log)

-- The last request had its ticket at least `rate` before the time given.
unfoldable pub IsQuiet : ℕ → ℕ → List Sent → Type 0
IsQuiet rate now [] = Unit
IsQuiet rate now (s ∷ log) = s.at + rate ≤ now

-- The one ticket is in the channel, or it is on its way back.
pub record IsPaced (rate : ℕ) (w : World) : Type 0 where
  pub limited : w.client.burst_rate ≡ pos rate
  pub spaced : IsSpaced rate w.log
  pub open_tickets : w.client.tickets.closed ≡ false
  pub capacity : w.client.tickets.capacity ≡ 1
  pub ticket :
      ((w.client.tickets.buffer ≡ tt ∷ []) × (w.refills ≡ []) × IsQuiet rate w.now w.log)
      ⊎ ((due : ℕ) × (w.client.tickets.buffer ≡ [])
          × (w.refills ≡ due ∷ [])
          × (due ≤ w.now + rate)
          × IsQuiet rate due w.log)
