-- ===== src/Trading/Tests/Strategy.antt =====
-- The strategies, at numbers and libraries that are easily computed.
use microservices_trading_bo.Common.{
  ℕ, ◌≡◌, ◌-◌, refl, Text, codes, text_eq, List, [], ◌∷◌, length, ltb, ok,
}
use microservices_trading_bo.Bitso.Client.{
  new_client, endpoint_url, new_request, unsigned_request, get_api_prefix, Request,
}
use microservices_trading_bo.Bitso.Client.Api.{World, prepare, open_envelope}
use microservices_trading_bo.Trading.Fate.{returns}
use microservices_trading_bo.Bitso.Payload.{Balance, Fee, CustomerFees}
use microservices_trading_bo.Trading.Strategy.{
  Floats, float64, is_traded, percentage_amount_to_bid, bid_after_fee, ask_after_fee,
  major_bid_arbitrage, minor_ask_arbitrage, estimate,
}
use microservices_trading_bo.Trading.Strategy.Laws.{bid_after_fee_last, major_bid_arbitrage_lem}
use microservices_trading_bo.Trading.Tests.{echo, btc_mxn}

-- A number is the length of its text.
abbrev lengths : Floats
lengths = record {
  Float = ℕ;
  parse_float = λ s. length s;
  nought = 0;
  half = 1;
  three_quarters = 1;
  times = λ x y. x;
  minus = λ x y. x - y;
  exceeds = λ x y. ltb y x;
}

abbrev fee_of : Text → Fee
fee_of taken = record {
  book = btc_mxn;
  fee_decimal = [];
  fee_percent = [];
  maker_fee_decimal = [];
  maker_fee_percent = [];
  taker_fee_decimal = taken;
  taker_fee_percent = [];
}

abbrev two_fees : CustomerFees
two_fees = record { fees = fee_of (codes "ab") ∷ fee_of (codes "a") ∷ []; withdrawal_fees = [] }

bid_after_fee_last_example :
    (bid_after_fee lengths 5 1 two_fees ≡ 4)
    × (ask_after_fee lengths 5 2 two_fees ≡ bid_after_fee lengths 5 1 two_fees)
unfolding float64
bid_after_fee_last_example =
    bid_after_fee_last lengths 5 1 2 (fee_of (codes "ab") ∷ []) (fee_of (codes "a")) []

abbrev balance_of : Text → Text → Balance
balance_of currency available = record {
  currency = currency;
  total = available;
  locked = [];
  available = available;
}

abbrev three_balances : List Balance
three_balances =
    balance_of (codes "mxn") (codes "abcd")
    ∷ balance_of (codes "btc") (codes "abc")
    ∷ balance_of (codes "mxn") []
    ∷ []

abbrev request_of : Text → Request
request_of uri = unsigned_request (codes "GET") uri []

abbrev fresh : World
fresh = record { client = new_client; now = 5; began = 5; refills = []; log = [] }

major_bid_arbitrage_lem_example :
    (major_bid_arbitrage lengths echo
        (λ buf. ok three_balances)
        (λ buf. ok two_fees)
        1
        fresh
        (codes "mxn")
      ≡ returns (
        record fresh {
          log =
              record { at = 5; request = request_of (codes "https://api.bitso.com/v3/fees") }
              ∷ record { at = 5; request = request_of (codes "https://api.bitso.com/v3/balance") }
              ∷ [];
        },
        record { currency = codes "mxn"; available = 4; net_profit = 3 } ∷ [],
      ))
    × (minor_ask_arbitrage lengths echo
          (λ buf. ok three_balances)
          (λ buf. ok two_fees)
          1
          fresh
          (codes "mxn")
        ≡ major_bid_arbitrage lengths echo
            (λ buf. ok three_balances)
            (λ buf. ok two_fees)
            1
            fresh
            (codes "mxn"))
unfolding is_traded estimate float64 percentage_amount_to_bid bid_after_fee text_eq prepare
    endpoint_url new_request new_client get_api_prefix open_envelope
major_bid_arbitrage_lem_example =
    major_bid_arbitrage_lem lengths echo (λ buf. ok three_balances) (λ buf. ok two_fees) 1
      (codes "mxn") fresh refl (request_of (codes "https://api.bitso.com/v3/fees")) two_fees refl
      refl (request_of (codes "https://api.bitso.com/v3/balance")) three_balances refl refl
