-- ===== src/Bitso/Client/Api.antt =====
-- data_server/bitso/client.go: sending a request and reading its answer, and the calls of the API.
-- The clock, the goroutines that give tickets back and the requests sent are the `World`.
use microservices_trading_bo.Common.{
  ℕ, ◌+◌, Text, codes, List, [], ◌∷◌, Option, none, some, if◌then◌else◌, ltb, Outcome, ok, err,
  panics, ◌>>=◌,
}
use microservices_trading_bo.Ws.Channel.{
  Run, done, blocked, panicked, item, ended, waiting, receive,
}
use microservices_trading_bo.Bitso.Atoi.{ℤ, pos, negsuc, atoi}
use microservices_trading_bo.Bitso.Client.{
  Failure, Request, Libraries, Client, endpoint_url, new_request,
}

-- A request that is handed to the HTTP library, and when it could be: when it had its ticket, if it
-- needs one.
pub record Sent : Type 0 where
  pub at : ℕ
  pub request : Request

-- `began` is when the call that has its turn was made, and its request with it; `now` it gets its
-- ticket. `refills` are the times at which the goroutines that wait for a ticker go on; `log` holds the
-- last request first.
pub record World : Type 0 where
  pub client : Client
  pub now : ℕ
  pub began : ℕ
  pub refills : List ℕ
  pub log : List Sent

-- `br > 0`, and the duration then.
abbrev pub positive : ℤ → Option ℕ
positive (pos n) = if ltb 0 n then some n else none
positive (negsuc n) = none

-- The burst-rate protection: a ticket is taken, and given back one burst rate later.
unfoldable pub take_ticket : World → Run World
unfolding receive
take_ticket w = elim (positive w.client.burst_rate) [
  | none ↦ done w
  | some br ↦ elim (receive w.client.tickets) [
    | item _ tickets ↦ done (record w {
      client = record w.client { tickets = tickets };
      refills = (w.now + br) ∷ w.refills;
    })
    | ended ↦ done (record w { refills = (w.now + br) ∷ w.refills })
    | waiting ↦ blocked
  ]
]

module _ (lib : Libraries) where
  -- The answer's envelope: an error that it reports is returned.
  unfoldable pub open_envelope : Text → Outcome Failure Text
  unfolding atoi
  open_envelope buf = do
    env ← lib.decode buf
    if env.success then ok buf else err (Failure.api_error (atoi env.code) env.message)

  -- The URL and the request, before a ticket is taken. A nil map has no values.
  unfoldable pub prepare :
      World → Text → Text → List (Text × Text) → Option Text → Outcome Failure Request
  unfolding endpoint_url new_request
  prepare w method endpoint params body = do
    u ← endpoint_url lib w.client endpoint
    new_request lib w.client w.began method (lib.url_string (lib.with_query u (lib.encode params)))
        body

  module _ {ℓ} {A : Type ℓ} where
    -- `read` is json.Unmarshal into `dest`. The request is logged with the moment at which it can be
    -- sent; `client.Do` follows.
    unfoldable pub do_request :
        World
        → Text
        → Text
        → List (Text × Text)
        → Option Text
        → (Text → Outcome Failure A)
        → Run (World × Outcome Failure A)
    unfolding prepare take_ticket open_envelope
    do_request w method endpoint params body read = elim (prepare w method endpoint params body) [
      | err e ↦ done (w, err e)
      | panics ↦ panicked
      | ok req ↦ elim (take_ticket w) [
        | blocked ↦ blocked
        | panicked ↦ panicked
        | done w' ↦ done (
          record w' { log = record { at = w'.now; request = req } ∷ w'.log },
          do buf ← lib.serve req; opened ← open_envelope buf; read opened,
        )
      ]
    ]

    unfoldable pub delete_response :
        World
        → Text
        → List (Text × Text)
        → (Text → Outcome Failure A)
        → Run (World × Outcome Failure A)
    unfolding do_request
    delete_response w endpoint params read = do_request w (codes "DELETE") endpoint params none read

    unfoldable pub get_response :
        World
        → Text
        → List (Text × Text)
        → (Text → Outcome Failure A)
        → Run (World × Outcome Failure A)
    unfolding do_request
    get_response w endpoint params read = do_request w (codes "GET") endpoint params none read

    -- `encoded` is `json.Marshal(body)`.
    unfoldable pub post_response :
        World
        → Text
        → Outcome Failure Text
        → (Text → Outcome Failure A)
        → Run (World × Outcome Failure A)
    unfolding do_request
    post_response w endpoint encoded read = elim encoded [
      | ok buf ↦ do_request w (codes "POST") endpoint [] (some buf) read
      | err e ↦ done (w, err e)
      | panics ↦ panicked
    ]
