-- ===== src/Trading/Strategy.antt =====
-- data_server/strategy and the printing of data_server/controllers: what the strategies estimate from
-- the balances and the fees of the account.
pub mod Laws
use microservices_trading_bo.Common.{
  ℕ, Text, codes, Bool, true, false, ◌&&◌, List, [], ◌∷◌, if◌then◌else◌, text_eq, Outcome, ok, err,
  panics,
}
use microservices_trading_bo.Ws.Channel.{Run, done, blocked, panicked}
use microservices_trading_bo.Bitso.Client.{Failure, Libraries}
use microservices_trading_bo.Bitso.Client.Api.{World}
use microservices_trading_bo.Bitso.Client.Endpoints.{Reader, balances, fees}
use microservices_trading_bo.Trading.Fate.{Fate, returns, ◌>>=◌}
use microservices_trading_bo.Bitso.Payload.{Monetary, Balance, Fee, CustomerFees}

-- The numbers of type float64, and the operations on them that the code uses; `parse_float` is the value that strconv.ParseFloat
-- gives, also beside an error.
pub record Floats : Type 1 where
  pub Float : Type 0
  pub parse_float : Text → Float
  pub nought : Float
  pub half : Float
  pub three_quarters : Float
  pub times : Float → Float → Float
  pub minus : Float → Float → Float
  pub exceeds : Float → Float → Bool

-- The error of a call goes to `log.Fatal`.
unfoldable pub or_fatal {ℓ} : {A : Type ℓ} → Run (World × Outcome Failure A) → Fate (World × A)
or_fatal (done (w, ok a)) = returns (w, a)
or_fatal (done (w, err _)) = Fate.dies
or_fatal (done (w, panics)) = Fate.panics
or_fatal blocked = Fate.waits
or_fatal panicked = Fate.panics

module _ (fl : Floats) where
  open fl use {Float, parse_float, nought, half, three_quarters, times, minus, exceeds}

  -- `Float64`
  unfoldable pub float64 : Monetary → Float
  float64 m = parse_float m

  unfoldable pub percentage_amount_to_bid : Float → Text → Float
  percentage_amount_to_bid amount percentage =
      if text_eq percentage (codes "50")
      then times amount half
      else if text_eq percentage (codes "75")
      then times amount three_quarters
      else amount

  unfoldable pub percentage_amount_to_ask : Float → Text → Float
  percentage_amount_to_ask amount percentage =
      if text_eq percentage (codes "50")
      then times amount half
      else if text_eq percentage (codes "75")
      then times amount three_quarters
      else amount

  -- The loop, from a `profit`.
  after_fees : Float → Float → List Fee → Float
  unfolding float64
  after_fees amount profit [] = profit
  after_fees amount profit (fee ∷ rest) =
      after_fees amount (minus amount (float64 fee.taker_fee_decimal)) rest

  unfoldable pub bid_after_fee : Float → Float → CustomerFees → Float
  unfolding after_fees
  bid_after_fee amount threshold custom_fees = after_fees amount nought custom_fees.fees

  unfoldable pub ask_after_fee : Float → Float → CustomerFees → Float
  unfolding after_fees
  ask_after_fee amount threshold custom_fees = after_fees amount nought custom_fees.fees

  -- What is printed for a balance.
  pub record Estimate : Type 0 where
    pub currency : Text
    pub available : Float
    pub net_profit : Float

  -- The test of a balance.
  unfoldable pub is_traded : Text → Balance → Bool
  unfolding float64
  is_traded target balance =
      text_eq balance.currency target && exceeds (float64 balance.available) nought

  -- `threshold` is 1.2.
  unfoldable pub estimate : Float → Balance → CustomerFees → Estimate
  unfolding percentage_amount_to_bid bid_after_fee
  estimate threshold balance custom_fees = record {
    currency = balance.currency;
    available = float64 balance.available;
    net_profit =
        bid_after_fee (percentage_amount_to_bid (float64 balance.available) []) threshold
          custom_fees;
  }

  module _ (lib : Libraries) (read_balances : Reader (List Balance))
      (read_fees : Reader CustomerFees) (threshold : Float) where
    -- The loop over the balances: the fees are asked for anew for each that is traded.
    unfoldable pub estimates : Text → World → List Balance → Fate (World × List Estimate)
    unfolding is_traded estimate or_fatal fees
    estimates target w [] = returns (w, [])
    estimates target w (balance ∷ rest) = elim (is_traded target balance) [
      | true ↦ (do
        (w1, custom_fees) ← or_fatal (fees lib w [] read_fees)
        (w2, later) ← estimates target w1 rest
        returns (w2, estimate threshold balance custom_fees ∷ later))
      | false ↦ estimates target w rest
    ]

    unfoldable pub major_bid_arbitrage : World → Text → Fate (World × List Estimate)
    unfolding estimates balances
    major_bid_arbitrage w target = do
      (w1, bs) ← or_fatal (balances lib w [] read_balances)
      estimates target w1 bs

    -- The same with other words printed: it takes the amount to bid and the bid's fees too.
    unfoldable pub minor_ask_arbitrage : World → Text → Fate (World × List Estimate)
    unfolding estimates balances
    minor_ask_arbitrage w target = do
      (w1, bs) ← or_fatal (balances lib w [] read_balances)
      estimates target w1 bs

    -- `GetClientBalance`
    unfoldable pub get_client_balance : World → Fate (World × List Balance)
    unfolding or_fatal balances
    get_client_balance w = or_fatal (balances lib w [] read_balances)
