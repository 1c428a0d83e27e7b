-- ===== src/Bitso/Book.antt =====
-- data_server/bitso/book.go
pub mod Laws
pub mod Known
mod Tests
use microservices_trading_bo.Common.{
  ℕ, Text, List, [], ◌∷◌, ◌++◌, Outcome, ok, err, panics, ◌>>=◌, ◌==◌, if◌then◌else◌,
}
use microservices_trading_bo.Bitso.Json.{
  Json, str, Column, absent, text, other, Error, book_format, unmarshal_text,
}
use microservices_trading_bo.Bitso.Currency.{to_currency}

pub record Book : Type 0 where
  pub major : Text
  pub minor : Text

unfoldable pub new_book : Text → Text → Book
new_book major minor = record { major = major; minor = minor }

-- `fmt.Sprintf("%s_%s", b.major, b.minor)`
unfoldable pub book_string : Book → Text
book_string b = b.major ++ b'_' ∷ b.minor

unfoldable pub marshal_book : Book → Outcome Error Json
unfolding book_string
marshal_book b = ok (str (book_string b))

-- `strings.Split(s, "_")`
abbrev onto_first : ℕ → List Text → List Text
onto_first c [] = []
onto_first c (part ∷ parts) = (c ∷ part) ∷ parts

split : Text → List Text
split [] = [] ∷ []
split (c ∷ s) = if c == b'_' then [] ∷ split s else onto_first c (split s)

-- `len(z) != 2` is an error.
book_of_parts : (ℕ → ℕ) → List Text → Outcome Error Book
book_of_parts beyond (z0 ∷ z1 ∷ []) =
    ok (record { major = to_currency beyond z0; minor = to_currency beyond z1 })
book_of_parts beyond _ = err book_format

unfoldable pub book_from_string : (ℕ → ℕ) → Text → Outcome Error Book
unfolding split book_of_parts to_currency
book_from_string beyond s = book_of_parts beyond (split s)

unfoldable pub unmarshal_book : (ℕ → ℕ) → Json → Outcome Error Book
unfolding unmarshal_text book_from_string
unmarshal_book beyond json = do s ← unmarshal_text json; book_from_string beyond s

unfoldable pub book_value : Book → Outcome Error Column
unfolding book_string
book_value b = ok (text (book_string b))

unfoldable pub scan_book : (ℕ → ℕ) → Book → Column → Outcome Error Book
unfolding book_from_string
scan_book beyond b absent = ok b
scan_book beyond b (text s) = book_from_string beyond s
scan_book beyond b other = panics
