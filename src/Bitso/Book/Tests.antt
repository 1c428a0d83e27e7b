-- ===== src/Bitso/Book/Tests.antt =====
-- Runs of the books' parser, and its theorems at concrete inputs.
use microservices_trading_bo.Common.{ℕ, ◌≡◌, refl, ◌↔◌, codes, ok, err, arith}
use microservices_trading_bo.Bitso.Json.{book_format}
use microservices_trading_bo.Bitso.Currency.{rune_lower, to_currency, IsLowering}
use microservices_trading_bo.Bitso.Book.{Book, book_string, book_from_string}
use microservices_trading_bo.Bitso.Book.Laws.{underscores}
use microservices_trading_bo.Bitso.Book.Known.{books-from_string_iff}

-- A text beyond ASCII in which no letter has a lower case.
abbrev caseless : ℕ → ℕ
caseless c = c

caseless-IsLowering : IsLowering caseless
unfolding rune_lower
caseless-IsLowering = record { settled = λ c h. ground arith; letter = λ c h e. omega arith }

abbrev btc_mxn : Book
btc_mxn = record { major = codes "btc"; minor = codes "mxn" }

parses : book_from_string caseless (codes "BTC_mxn") ≡ ok btc_mxn
unfolding book_from_string
parses = refl

no_underscore : book_from_string caseless (codes "btcmxn") ≡ err book_format
unfolding book_from_string
no_underscore = refl

books-from_string_iff_example : (book_from_string caseless (book_string btc_mxn) ≡ ok btc_mxn) ↔ (
    (underscores btc_mxn.major ≡ 0)
    × (underscores btc_mxn.minor ≡ 0)
    × (to_currency caseless btc_mxn.major ≡ btc_mxn.major)
    × (to_currency caseless btc_mxn.minor ≡ btc_mxn.minor))
books-from_string_iff_example = (books-from_string_iff caseless btc_mxn).0
