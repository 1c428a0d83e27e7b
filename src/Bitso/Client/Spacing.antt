-- ===== src/Bitso/Client/Spacing.antt =====
-- The requests of data_server/bitso/client.go keep the burst rate, and each gets its turn.
use microservices_trading_bo.Common.{
  ℕ, ◌+◌, ◌≤◌, ◌<◌, ◌≡◌, refl, inl, inr, Text, false, List, [], ◌∷◌, Option, if◌then◌else◌, leb,
  leb_iff, ok, err, panics, Outcome-cases, Bool-cases, arith,
}
use microservices_trading_bo.Ws.Channel.{
  done, blocked, panicked, Ensures, Ensures->>=, receive, send,
}
use microservices_trading_bo.Bitso.Atoi.{pos}
use microservices_trading_bo.Bitso.Client.{
  Failure, Request, Libraries, Client, new_client, set_burst_rate, endpoint_url, new_request, sign,
  get_api_prefix,
}
use microservices_trading_bo.Bitso.Client.Api.{Sent, World, take_ticket, prepare, do_request}
use microservices_trading_bo.Bitso.Client.Limiter.{
  Event, passes, gives_back, asks, without_due, give_back, step, run, IsSpaced, IsQuiet, IsPaced,
  begun,
}

IsQuiet-mono :
    (rate now later : ℕ) (log : List Sent)
    → now ≤ later
    → IsQuiet rate now log
    → IsQuiet rate later log
unfolding IsQuiet
IsQuiet-mono rate now later [] h q = tt
IsQuiet-mono rate now later (s ∷ log) h q = omega (arith, q)

IsSpaced-cons :
    (rate : ℕ) (s : Sent) (log : List Sent)
    → IsQuiet rate s.at log
    → IsSpaced rate log
    → IsSpaced rate (s ∷ log)
unfolding IsQuiet IsSpaced
IsSpaced-cons rate s [] q h = tt
IsSpaced-cons rate s (t ∷ log) q h = (q, h)

passes-IsPaced :
    (rate : ℕ) (w : World) (d : ℕ) → IsPaced rate w → IsPaced rate (record w { now = w.now + d })
passes-IsPaced rate w d v = record {
  limited = v.limited;
  spaced = v.spaced;
  open_tickets = v.open_tickets;
  capacity = v.capacity;
  ticket = elim v.ticket [
    | inl (b, r, q) ↦ inl (b, r, IsQuiet-mono rate w.now (w.now + d) w.log (omega arith) q)
    | inr (due, b, r, bound, q) ↦ inr (due, b, r, omega (arith, bound), q)
  ];
}

-- The world after its one ticket came back.
returned : World → World
returned w = record w {
  client = record w.client { tickets = record w.client.tickets { buffer = tt ∷ [] } };
  refills = [];
}

give_back-due :
    (w : World) (due : ℕ)
    → w.client.tickets.closed ≡ false
    → w.client.tickets.capacity ≡ 1
    → w.client.tickets.buffer ≡ []
    → w.refills ≡ due ∷ []
    → give_back w ≡ (if leb due w.now then done (returned w) else blocked)
unfolding give_back without_due send returned
give_back-due w due o c b r = ground (arith, o, c, b, r)

give_back-none : (w : World) → w.refills ≡ [] → give_back w ≡ blocked
unfolding give_back without_due
give_back-none w r = rw r refl

give_back-IsPaced : (rate : ℕ) (w : World) → IsPaced rate w → Ensures (IsPaced rate) (give_back w)
unfolding returned
give_back-IsPaced rate w v = elim v.ticket [
  | inl (b, r, q) ↦ rw (give_back-none w r) tt
  | inr (due, b, r, bound, q) ↦
      rw (give_back-due w due v.open_tickets v.capacity b r) (elim (Bool-cases (leb due w.now)) [
        | inl past ↦ rw past (record {
          limited = v.limited;
          spaced = v.spaced;
          open_tickets = v.open_tickets;
          capacity = v.capacity;
          ticket = inl (refl, refl, IsQuiet-mono rate due w.now w.log (ground arith) q);
        })
        | inr early ↦ rw early tt
      ])
]

-- The world after a request took the one ticket.
taken : ℕ → World → World
taken rate w = record w {
  client = record w.client { tickets = record w.client.tickets { buffer = [] } };
  refills = (w.now + rate) ∷ w.refills;
}

take_ticket-in :
    (rate : ℕ) (w : World)
    → 0 < rate
    → w.client.burst_rate ≡ pos rate
    → w.client.tickets.buffer ≡ tt ∷ []
    → take_ticket w ≡ done (taken rate w)
unfolding take_ticket receive taken
take_ticket-in rate w p l b = ground (arith, l, b)

take_ticket-out :
    (rate : ℕ) (w : World)
    → 0 < rate
    → w.client.burst_rate ≡ pos rate
    → w.client.tickets.buffer ≡ []
    → w.client.tickets.closed ≡ false
    → take_ticket w ≡ blocked
unfolding take_ticket receive
take_ticket-out rate w p l b o = ground (arith, l, b, o)

begun-IsPaced : (rate : ℕ) (w : World) (began : ℕ) → IsPaced rate w → IsPaced rate (begun w began)
begun-IsPaced rate w began v = record {
  limited = v.limited;
  spaced = v.spaced;
  open_tickets = v.open_tickets;
  capacity = v.capacity;
  ticket = v.ticket;
}

module _ (lib : Libraries) (w : World) (began : ℕ) (method endpoint : Text)
    (params : List (Text × Text)) (body : Option Text) where
  asks-refused :
      (e : Failure)
      → prepare lib (begun w began) method endpoint params body ≡ err e
      → step lib w (asks began method endpoint params body) ≡ done (begun w began)
  unfolding step do_request
  asks-refused e f = rw (do_request, f) refl

  asks-panics :
      prepare lib (begun w began) method endpoint params body ≡ panics
      → step lib w (asks began method endpoint params body) ≡ panicked
  unfolding step do_request
  asks-panics f = rw (do_request, f) refl

  asks-sent :
      (req : Request) (w' : World)
      → prepare lib (begun w began) method endpoint params body ≡ ok req
      → take_ticket (begun w began) ≡ done w'
      → step lib w (asks began method endpoint params body)
        ≡ done (record w' { log = record { at = w'.now; request = req } ∷ w'.log })
  unfolding step do_request
  asks-sent req w' f t = rw (do_request, f, t) refl

  asks-waits :
      (req : Request)
      → prepare lib (begun w began) method endpoint params body ≡ ok req
      → take_ticket (begun w began) ≡ blocked
      → step lib w (asks began method endpoint params body) ≡ blocked
  unfolding step do_request
  asks-waits req f t = rw (do_request, f, t) refl

  asks-IsPaced :
      (rate : ℕ)
      → 0 < rate
      → IsPaced rate w
      → Ensures (IsPaced rate) (step lib w (asks began method endpoint params body))
  unfolding taken IsQuiet
  asks-IsPaced rate p v =
      elim (Outcome-cases (prepare lib (begun w began) method endpoint params body)) [
        | inr (inl (e, f)) ↦ rw (asks-refused e f) (begun-IsPaced rate w began v)
        | inr (inr f) ↦ rw (asks-panics f) tt
        | inl (req, f) ↦ elim v.ticket [
          | inr (due, b, r, bound, q) ↦
              rw
                (asks-waits req f
                  (take_ticket-out rate (begun w began) p v.limited b v.open_tickets))
                tt
          | inl (b, r, q) ↦
              rw
                (asks-sent req (taken rate (begun w began)) f
                  (take_ticket-in rate (begun w began) p v.limited b))
                (record {
                  limited = v.limited;
                  spaced = IsSpaced-cons rate _ w.log q v.spaced;
                  open_tickets = v.open_tickets;
                  capacity = v.capacity;
                  ticket = inr (w.now + rate, refl, rw r refl, omega arith, omega arith);
                })
        ]
      ]

step-IsPaced :
    (lib : Libraries) (rate : ℕ) (w : World) (e : Event)
    → 0 < rate
    → IsPaced rate w
    → Ensures (IsPaced rate) (step lib w e)
unfolding step
step-IsPaced lib rate w (passes d) p v = passes-IsPaced rate w d v
step-IsPaced lib rate w gives_back p v = give_back-IsPaced rate w v
step-IsPaced lib rate w (asks began method endpoint params body) p v =
    asks-IsPaced lib w began method endpoint params body rate p v

run-IsPaced :
    (lib : Libraries) (rate : ℕ) (es : List Event) (w : World)
    → 0 < rate
    → IsPaced rate w
    → Ensures (IsPaced rate) (run lib w es)
unfolding run
run-IsPaced lib rate [] w p v = v
run-IsPaced lib rate (e ∷ es) w p v =
    Ensures->>= (IsPaced rate) (step lib w e) (λ w'. run lib w' es)
      (λ w' d. run-IsPaced lib rate es w' p (rw d at (step-IsPaced lib rate w e p v)))

-- A client as `NewClient` makes it, with its settings changed in any way but for the tickets, before
-- its first request.
abbrev pub starting : Client → ℕ → ℕ → World
starting c rate now = record {
  client = set_burst_rate (record c { tickets = new_client.tickets }) (pos rate);
  now = now;
  began = now;
  refills = [];
  log = [];
}

starting-IsPaced : (c : Client) (rate now : ℕ) → IsPaced rate (starting c rate now)
unfolding new_client set_burst_rate IsSpaced IsQuiet
starting-IsPaced c rate now = record {
  limited = refl;
  spaced = tt;
  open_tickets = refl;
  capacity = refl;
  ticket = inl (refl, refl, tt);
}

-- With a burst rate above 0, whatever requests are asked for and in whatever order time passes and
-- tickets are given back, any two requests that are sent one after the other had their tickets, without
-- which they are not sent, at least the burst rate apart.
pub run-IsSpaced :
    (lib : Libraries) (c : Client) (rate now : ℕ) (es : List Event) (w : World)
    → 0 < rate
    → run lib (starting c rate now) es ≡ done w
    → IsSpaced rate w.log
run-IsSpaced lib c rate now es w p e =
    let v =
      rw e at (run-IsPaced lib rate es (starting c rate now) p (starting-IsPaced c rate now)) in
    v.spaced

-- A client with a burst rate above 0, whose requests keep to it and whose ticket is out and on its way
-- back, does not wait for ever: once the burst rate has passed, the ticket can be given back, and then a
-- request that was made, at whatever time, is sent.
pub asks-in_time :
    (lib : Libraries) (rate : ℕ) (w : World) (began : ℕ) (method endpoint : Text)
    (params : List (Text × Text)) (body : Option Text) (req : Request)
    → 0 < rate
    → IsPaced rate w
    → w.client.tickets.buffer ≡ []
    → prepare lib (begun w began) method endpoint params body ≡ ok req
    → (w' : World) × (run lib w
          (passes rate ∷ gives_back ∷ asks began method endpoint params body ∷ [])
        ≡ done w')
      × (w'.log ≡ record { at = w.now + rate; request = req } ∷ w.log)
unfolding run step returned prepare new_request endpoint_url sign get_api_prefix taken
asks-in_time lib rate w began method endpoint params body req p v out made = elim v.ticket [
  | inl (b, _, _) ↦ absurd (ground (arith, out, b))
  | inr (due, b, r, bound, q) ↦
      let later : World = record w { now = w.now + rate } in
      let back = returned later in
      (
        record (taken rate (begun back began)) {
          log = record { at = w.now + rate; request = req } ∷ w.log;
        },
        rw
            (
              give_back-due later due v.open_tickets v.capacity b r,
              (leb_iff due (w.now + rate)).1 bound,
              asks-sent lib back began method endpoint params body req
                  (taken rate (begun back began)) made
                  (take_ticket-in rate (begun back began) p v.limited refl),
            )
            refl,
        refl,
      )
]
