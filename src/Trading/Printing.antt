-- ===== src/Trading/Printing.antt =====
-- What is printed of the account: data_server/controllers/balance_controller.go and
-- funding_controller.go, and the programs data_server/_examples/print-balance and get-fundings.
pub mod Laws
use microservices_trading_bo.Common.{
  ℕ, ◌-◌, Text, codes, ◌&&◌, List, [], ◌∷◌, ◌++◌, map, if◌then◌else◌, ltb, leb,
}
use microservices_trading_bo.Bitso.Currency.{currency_string}
use microservices_trading_bo.Bitso.Client.{
  Libraries, Client, new_client, set_api_key, set_api_secret,
}
use microservices_trading_bo.Bitso.Client.Api.{World}
use microservices_trading_bo.Bitso.Client.Endpoints.{Reader, balances, fundings}
use microservices_trading_bo.Bitso.Payload.{Balance, Funding}
use microservices_trading_bo.Trading.Fate.{Fate, returns, ◌>>=◌}
use microservices_trading_bo.Trading.Strategy.{or_fatal}

-- `strings.ToUpper`, with a parameter beyond ASCII.
unfoldable pub to_upper : (ℕ → ℕ) → Text → Text
to_upper beyond s =
    map (λ c. if ltb c 128 then (if leb b'a' c && leb c b'z' then c - 32 else c) else beyond c) s

abbrev tab : Text
tab = 9 ∷ []

abbrev newline : Text
newline = 10 ∷ []

-- A line of the table, as `Fprintf` writes it.
abbrev pub line : Text → Text → Text → Text → Text
line a b c d = a ++ tab ++ b ++ tab ++ c ++ tab ++ d ++ newline

abbrev pub heading : Text
heading = line (codes "CURRENCY") (codes "TOTAL") (codes "LOCKED") (codes "AVAILABLE")

unfoldable pub balance_line : (ℕ → ℕ) → Balance → Text
unfolding to_upper
balance_line beyond b =
    line (to_upper beyond (currency_string b.currency)) b.total b.locked b.available

-- The loop, after what was written before.
unfoldable pub write_lines : (ℕ → ℕ) → Text → List Balance → Text
unfolding balance_line
write_lines beyond written [] = written
write_lines beyond written (b ∷ bs) = write_lines beyond (written ++ balance_line beyond b) bs

-- A program's client, with the key and the secret of the environment.
unfoldable pub started : Text → Text → ℕ → World
unfolding new_client set_api_key set_api_secret
started key secret now = record {
  client = set_api_secret (set_api_key new_client key) secret;
  now = now;
  began = now;
  refills = [];
  log = [];
}

module _ (lib : Libraries) where
  -- The text that the tabwriter is given. It is flushed at the end only.
  unfoldable pub print_balance : (ℕ → ℕ) → Reader (List Balance) → World → Fate (World × Text)
  unfolding or_fatal balances write_lines
  print_balance beyond read w = do
    (w1, bs) ← or_fatal (balances lib w [] read)
    returns (w1, write_lines beyond heading bs)

  -- The fundings that are printed, each by `log.Print`.
  unfoldable pub get_client_fundings :
      {Any : Type 0} → Reader (List (Funding Any)) → World → Fate (World × List (Funding Any))
  unfolding or_fatal fundings
  get_client_fundings read w = or_fatal (fundings lib w [] read)

  -- The programs, from their start.
  unfoldable pub print_balance_program :
      (ℕ → ℕ) → Reader (List Balance) → Text → Text → ℕ → Fate (World × Text)
  unfolding print_balance started
  print_balance_program beyond read key secret now =
      print_balance beyond read (started key secret now)

  unfoldable pub get_fundings_program :
      {Any : Type 0}
      → Reader (List (Funding Any))
      → Text
      → Text
      → ℕ
      → Fate (World × List (Funding Any))
  unfolding get_client_fundings started
  get_fundings_program read key secret now = get_client_fundings read (started key secret now)
