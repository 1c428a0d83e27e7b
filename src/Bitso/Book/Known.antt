-- ===== src/Bitso/Book/Known.antt =====
-- The books that are read back from their names, those of the package's currencies among them.
use microservices_trading_bo.Common.{
  ℕ, ◌≡◌, ◌↔◌, refl, Text, Bool, true, ◌&&◌, ◌==◌, text_eq, text_eq_iff, List, [], ◌∷◌, ok, All,
  arith,
}
use microservices_trading_bo.Bitso.Currency.{currency_names, to_currency}
use microservices_trading_bo.Bitso.Book.{Book, new_book, book_string, book_from_string}
use microservices_trading_bo.Bitso.Book.Laws.{underscores, from_string-string_iff}

-- A name without an underscore that ToCurrency leaves as it is.
abbrev IsName : (ℕ → ℕ) → Text → Type 0
IsName beyond c = (underscores c ≡ 0) × (to_currency beyond c ≡ c)

are_names : (ℕ → ℕ) → List Text → Bool
are_names beyond [] = true
are_names beyond (c ∷ cs) =
    (underscores c == 0 && text_eq (to_currency beyond c) c) && are_names beyond cs

are_names_sound :
    (beyond : ℕ → ℕ) (cs : List Text) → are_names beyond cs ≡ true → All (IsName beyond) cs
unfolding are_names
are_names_sound beyond [] h = tt
are_names_sound beyond (c ∷ cs) h = (
  (ground (arith, h), ground (arith, h, text_eq_iff (to_currency beyond c) c)),
  are_names_sound beyond cs (ground (arith, h)),
)

currency_names-IsName : (beyond : ℕ → ℕ) → All (IsName beyond) currency_names
unfolding are_names underscores to_currency text_eq
currency_names-IsName beyond = are_names_sound beyond currency_names refl

-- Read back from its name.
abbrev pub IsReadBack : (ℕ → ℕ) → Book → Type 0
IsReadBack beyond b = book_from_string beyond (book_string b) ≡ ok b

with_minor :
    (beyond : ℕ → ℕ) (major : Text) (cs : List Text)
    → IsName beyond major
    → All (IsName beyond) cs
    → All (λ minor. IsReadBack beyond (new_book major minor)) cs
unfolding new_book
with_minor beyond major [] m h = tt
with_minor beyond major (c ∷ cs) m (n, h) = (
  (from_string-string_iff beyond (new_book major c)).1 (m.0, n.0, m.1, n.1),
  with_minor beyond major cs m h,
)

with_major :
    (beyond : ℕ → ℕ) (ds cs : List Text)
    → All (IsName beyond) ds
    → All (IsName beyond) cs
    → All (λ major. All (λ minor. IsReadBack beyond (new_book major minor)) cs) ds
with_major beyond [] cs k h = tt
with_major beyond (d ∷ ds) cs (m, k) h = (with_minor beyond d cs m h, with_major beyond ds cs k h)

-- A book parses back from its name to itself exactly if its currencies hold no underscore and are fixed
-- by ToCurrency; every book of two of the package's own currencies is such a book.
pub books-from_string_iff :
    (beyond : ℕ → ℕ) (b : Book)
    → ((book_from_string beyond (book_string b) ≡ ok b) ↔ (
        (underscores b.major ≡ 0)
        × (underscores b.minor ≡ 0)
        × (to_currency beyond b.major ≡ b.major)
        × (to_currency beyond b.minor ≡ b.minor)))
      × All
          (λ major. All (λ minor. IsReadBack beyond (new_book major minor)) currency_names)
          currency_names
books-from_string_iff beyond b =
    let names = currency_names-IsName beyond in
    (from_string-string_iff beyond b, with_major beyond currency_names currency_names names names)
