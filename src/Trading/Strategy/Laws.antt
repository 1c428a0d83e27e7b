-- ===== src/Trading/Strategy/Laws.antt =====
-- What the estimates of data_server/strategy come to.
use microservices_trading_bo.Common.{
  ◌≡◌, refl, Text, codes, List, [], ◌∷◌, text_eq, ◌&&◌, ◌++◌, if◌then◌else◌, none, ok, arith,
  Bool-cases, inl, inr, map,
}
use microservices_trading_bo.Ws.Channel.{done}
use microservices_trading_bo.Bitso.Client.{Libraries, Request}
use microservices_trading_bo.Bitso.Client.Api.{
  World, Sent, positive, take_ticket, prepare, do_request, get_response,
}
use microservices_trading_bo.Bitso.Client.Results.{answer}
use microservices_trading_bo.Bitso.Client.Endpoints.{Reader, balances, fees}
use microservices_trading_bo.Trading.Fate.{returns}
use microservices_trading_bo.Bitso.Payload.{Balance, Fee, CustomerFees}
use microservices_trading_bo.Trading.Strategy.{
  Floats, float64, after_fees, bid_after_fee, ask_after_fee, is_traded, estimate, or_fatal,
  estimates, major_bid_arbitrage, minor_ask_arbitrage,
}

after_fees-last :
    (fl : Floats) (amount profit : fl.Float) (before : List Fee) (fee : Fee)
    → after_fees fl amount profit (before ++ fee ∷ [])
      ≡ fl.minus amount (float64 fl fee.taker_fee_decimal)
unfolding after_fees
after_fees-last fl amount profit [] fee = refl
after_fees-last fl amount profit (f ∷ before) fee = after_fees-last fl amount _ before fee

-- Of several fees only the last one is taken off the amount, and the threshold makes no difference, for
-- a bid as for an ask.
pub bid_after_fee_last :
    (fl : Floats) (amount threshold other : fl.Float) (before : List Fee) (fee : Fee)
    (withdrawal_fees : List (Text × Text))
    → let custom_fees : CustomerFees = record {
      fees = before ++ fee ∷ [];
      withdrawal_fees = withdrawal_fees;
    } in
      (bid_after_fee fl amount threshold custom_fees
        ≡ fl.minus amount (float64 fl fee.taker_fee_decimal))
      × (ask_after_fee fl amount other custom_fees ≡ bid_after_fee fl amount threshold custom_fees)
unfolding bid_after_fee ask_after_fee
bid_after_fee_last fl amount threshold other before fee withdrawal_fees =
    (after_fees-last fl amount fl.nought before fee, refl)

-- A call without burst-rate protection.
pub get_response-quiet {ℓ} :
    (lib : Libraries) {A : Type ℓ} (w : World) (endpoint : Text) (read : Reader A) (req : Request)
    → positive w.client.burst_rate ≡ none
    → prepare lib w (codes "GET") endpoint [] none ≡ ok req
    → get_response lib w endpoint [] read
      ≡ done (record w { log = record { at = w.now; request = req } ∷ w.log }, answer lib req read)
unfolding get_response do_request take_ticket
get_response-quiet lib w endpoint read req quiet made =
    rw (do_request, made, take_ticket, quiet) refl

-- The balances that are traded, in their order.
abbrev pub traded : (fl : Floats) → Text → List Balance → List Balance
traded fl target [] = []
traded fl target (b ∷ bs) =
    if text_eq b.currency target && fl.exceeds (fl.parse_float b.available) fl.nought
    then b ∷ traded fl target bs
    else traded fl target bs

-- The log, the last request first, after one request for each entry of a list.
abbrev pub asked_each : Sent → List Balance → List Sent → List Sent
asked_each s [] log = log
asked_each s (b ∷ bs) log = asked_each s bs (s ∷ log)

module _ (fl : Floats) (lib : Libraries) (read_balances : Reader (List Balance))
    (read_fees : Reader CustomerFees) (threshold : fl.Float) (target : Text) (w : World)
    (quiet : positive w.client.burst_rate ≡ none) (fee_request : Request) (fs : CustomerFees)
    (fee_made : prepare lib w (codes "GET") (codes "/fees") [] none ≡ ok fee_request)
    (fee_answer : answer lib fee_request read_fees ≡ ok fs) where
  fee_sent : Sent
  fee_sent = record { at = w.now; request = fee_request }

  fees-quiet :
      (log : List Sent)
      → or_fatal (fees lib (record w { log = log }) [] read_fees)
        ≡ returns (record w { log = fee_sent ∷ log }, fs)
  unfolding fee_sent fees prepare or_fatal
  fees-quiet log =
      let asked =
        get_response-quiet lib (record w { log = log }) (codes "/fees") read_fees fee_request quiet
          fee_made in
      ground (arith, asked, fee_answer)

  estimates_lem :
      (bs : List Balance) (log : List Sent)
      → estimates fl lib read_balances read_fees threshold target (record w { log = log }) bs
        ≡ returns (
          record w { log = asked_each fee_sent (traded fl target bs) log },
          map (λ b. estimate fl threshold b fs) (traded fl target bs),
        )
  unfolding estimates is_traded
  estimates_lem [] log = refl
  estimates_lem (b ∷ bs) log = elim (Bool-cases (is_traded fl target b)) [
    | inl used ↦ ground (arith, used, fees-quiet log, estimates_lem bs (fee_sent ∷ log))
    | inr unused ↦ ground (arith, unused, estimates_lem bs log)
  ]

  -- Without a burst rate, and if both requests can be made and are answered: the strategy of bids and that
  -- of asks estimate the same, for each balance in the target currency with an amount above
  -- nought, in their order, and for no other; they send one request for the balances and, after it, one for the fees for each of
  -- the estimates.
  pub major_bid_arbitrage_lem :
      (balance_request : Request) (bs : List Balance)
      → prepare lib w (codes "GET") (codes "/balance") [] none ≡ ok balance_request
      → answer lib balance_request read_balances ≡ ok bs
      → (major_bid_arbitrage fl lib read_balances read_fees threshold w target
          ≡ returns (
            record w {
              log =
                  asked_each
                    (record { at = w.now; request = fee_request })
                    (traded fl target bs)
                    (record { at = w.now; request = balance_request } ∷ w.log);
            },
            map (λ b. estimate fl threshold b fs) (traded fl target bs),
          ))
        × (minor_ask_arbitrage fl lib read_balances read_fees threshold w target
            ≡ major_bid_arbitrage fl lib read_balances read_fees threshold w target)
  unfolding major_bid_arbitrage minor_ask_arbitrage balances or_fatal fee_sent
  major_bid_arbitrage_lem balance_request bs made answered =
      let asked =
        get_response-quiet lib w (codes "/balance") read_balances balance_request quiet made in
      (
        ground (
          arith,
          asked,
          answered,
          estimates_lem bs (record { at = w.now; request = balance_request } ∷ w.log),
        ),
        refl,
      )
