-- ===== src/Trading/Printing/Laws.antt =====
-- The table that is printed has the balances of the account.
use mathlib.Core.List.{append_assoc, append-nil}
use microservices_trading_bo.Common.{
  ℕ, ◌≡◌, refl, sym, ◌∙◌, Text, codes, List, [], ◌∷◌, ◌++◌, none, ok, err, arith,
}
use microservices_trading_bo.Bitso.Client.{
  Failure, Libraries, Request, new_client, set_api_key, set_api_secret,
}
use microservices_trading_bo.Bitso.Client.Api.{World, prepare}
use microservices_trading_bo.Bitso.Client.Endpoints.{Reader, balances}
use microservices_trading_bo.Bitso.Client.Results.{answer}
use microservices_trading_bo.Bitso.Payload.{Balance}
use microservices_trading_bo.Trading.Fate.{returns, dies}
use microservices_trading_bo.Trading.Strategy.{or_fatal}
use microservices_trading_bo.Trading.Strategy.Laws.{get_response-quiet}
use microservices_trading_bo.Trading.Printing.{
  heading, balance_line, write_lines, started, print_balance, print_balance_program,
}

-- The lines of the balances, in their order.
abbrev pub balance_lines : (ℕ → ℕ) → List Balance → Text
balance_lines beyond [] = []
balance_lines beyond (b ∷ bs) = balance_line beyond b ++ balance_lines beyond bs

write_lines_lem :
    (beyond : ℕ → ℕ) (written : Text) (bs : List Balance)
    → write_lines beyond written bs ≡ written ++ balance_lines beyond bs
unfolding write_lines
write_lines_lem beyond written [] = sym (append-nil written)
write_lines_lem beyond written (b ∷ bs) =
    write_lines_lem beyond (written ++ balance_line beyond b) bs
    ∙ append_assoc written (balance_line beyond b) (balance_lines beyond bs)

module _ (lib : Libraries) (beyond : ℕ → ℕ) (read : Reader (List Balance)) (key secret : Text)
    (now : ℕ) (req : Request)
    (made : prepare lib (started key secret now) (codes "GET") (codes "/balance") [] none
      ≡ ok req) where
  abbrev pub asked : World
  asked = record (started key secret now) { log = record { at = now; request = req } ∷ [] }

  -- The program that prints the balances, if its request can be made, sends that one request at its
  -- start. If the exchange answers with balances, it prints the heading and a line for each, in
  -- their order; if the answer is an error, it dies.
  pub print_balance_program_lem :
      ((bs : List Balance)
        → answer lib req read ≡ ok bs
        → print_balance_program lib beyond read key secret now
          ≡ returns (asked, heading ++ balance_lines beyond bs))
      × ((fault : Failure)
          → answer lib req read ≡ err fault
          → print_balance_program lib beyond read key secret now ≡ dies)
  unfolding print_balance_program print_balance started balances or_fatal new_client set_api_key
      set_api_secret
  print_balance_program_lem =
      let sent =
        get_response-quiet lib (started key secret now) (codes "/balance") read req refl made in
      (
        λ bs answered. ground (arith, sent, answered, write_lines_lem beyond heading bs),
        λ fault answered. ground (arith, sent, answered),
      )
