-- ===== src/Bitso/Answers/Sound.antt =====
-- What holds of the fields of every struct of data_server/bitso that was decoded.
pub mod Trades
pub mod Orders
pub mod Account
pub mod Ledger
use microservices_trading_bo.Common.{
  ℕ, ◌≢◌, panics, >>=-ne-panics, subst, [], ◌≤◌, ◌<◌, ◌≡◌, refl, Text, ok, arith, >>=-eq-ok, sym,
  ◌∙◌, ap,
}
use microservices_trading_bo.Common.Names.{Table, SameEntries}
use microservices_trading_bo.Bitso.Json.{
  Json, unmarshal_text, unmarshal_text-ne-panics, null, bool, num, str, composite,
}
use microservices_trading_bo.Bitso.Book.{Book, book_string, book_from_string, unmarshal_book}
use microservices_trading_bo.Bitso.Book.Laws.{from_string_again, book_from_string-ne-panics}
use microservices_trading_bo.Bitso.Currency.{
  IsLowering, to_currency, unmarshal_currency, to_lower_idem,
}
use microservices_trading_bo.Bitso.Enums.Side.{unmarshal_side, order_sides}
use microservices_trading_bo.Bitso.Enums.Status.{unmarshal_status, status_names}
use microservices_trading_bo.Bitso.Enums.Operation.{unmarshal_operation, operation_names}
use microservices_trading_bo.Bitso.Enums.OrderType.{order_types}
use microservices_trading_bo.Bitso.Ranges.{tid-IsUint64, unmarshal-IsDeclared_iff}
use microservices_trading_bo.Bitso.Tid.{u64_mod, unmarshal_tid}
use microservices_trading_bo.Bitso.Time.Reading.{IsStamp, unmarshal_time-IsStamp}
use microservices_trading_bo.Bitso.Time.{unmarshal_time}
use microservices_trading_bo.Bitso.Tid.Laws.{unmarshal_tid-ne-panics}
use microservices_trading_bo.Bitso.Time.Total.{unmarshal_time-ne-panics}
use microservices_trading_bo.Bitso.Value.{Setter, on_field}
use microservices_trading_bo.Bitso.Value.Laws.{Holds, Holds-intro, Keeps, Keeps-by_method}
use microservices_trading_bo.Bitso.Answers.{
  Reading, no_book, book_setter, currency_setter, side_setter, status_setter, operation_setter,
  tid_setter, time_setter,
}

-- The tables are those of the package, visited in any order.
pub record IsReading (r : Reading) : Type 0 where
  pub lowering : IsLowering r.beyond
  pub sides : SameEntries order_sides r.sides
  pub statuses : SameEntries status_names r.statuses
  pub operations : SameEntries operation_names r.operations

-- A book that its own name is parsed to.
abbrev pub IsBook : Reading → Book → Type 0
IsBook r b = book_from_string r.beyond (book_string b) ≡ ok b

-- A currency that ToCurrency leaves as it is.
abbrev pub IsCurrency : Reading → Text → Type 0
IsCurrency r c = to_currency r.beyond c ≡ c

-- A value that is declared, or 0 where the answer names none.
abbrev pub AtMost : ℕ → ℕ → Type 0
AtMost last k = k ≤ last

abbrev pub IsTid : ℕ → Type 0
IsTid v = v < u64_mod

pub no_book-IsBook : (r : Reading) → IsBook r no_book
unfolding book_from_string book_string
no_book-IsBook r = refl

pub unset-IsCurrency : (r : Reading) → IsCurrency r []
unfolding to_currency
unset-IsCurrency r = refl

enumeration-ne-panics :
    (entries : Table) (j : Json)
    → (unmarshal_side entries j ≢ panics)
      × (unmarshal_status entries j ≢ panics)
      × (unmarshal_operation entries j ≢ panics)
unfolding unmarshal_side unmarshal_status unmarshal_operation
enumeration-ne-panics entries j = (
  λ e. ground (arith, e, unmarshal_text-ne-panics j),
  λ e. ground (arith, e, unmarshal_text-ne-panics j),
  λ e. ground (arith, e, unmarshal_text-ne-panics j),
)

unmarshal_book-ne-panics : (beyond : ℕ → ℕ) (j : Json) → unmarshal_book beyond j ≢ panics
unfolding unmarshal_book
unmarshal_book-ne-panics beyond j =
    >>=-ne-panics (unmarshal_text j) _ (unmarshal_text-ne-panics j)
      (λ z. book_from_string-ne-panics beyond z)

unmarshal_currency-ne-panics : (beyond : ℕ → ℕ) (j : Json) → unmarshal_currency beyond j ≢ panics
unfolding unmarshal_currency
unmarshal_currency-ne-panics beyond j e = ground (arith, e, unmarshal_text-ne-panics j)

pub IsTid-Keeps : Keeps IsTid tid_setter
IsTid-Keeps =
    Keeps-by_method IsTid unmarshal_tid
      (λ j. Holds-intro IsTid (unmarshal_tid j) (unmarshal_tid-ne-panics j) (tid-IsUint64 j))

pub IsStamp-Keeps : Keeps IsStamp time_setter
IsStamp-Keeps = Keeps-by_method IsStamp unmarshal_time (λ j.
    Holds-intro IsStamp (unmarshal_time j) (unmarshal_time-ne-panics j) (unmarshal_time-IsStamp j))

module _ (r : Reading) (s : IsReading r) where
  pub IsBook-Keeps : Keeps (IsBook r) (book_setter r)
  unfolding unmarshal_book
  IsBook-Keeps = Keeps-by_method (IsBook r) (unmarshal_book r.beyond) (λ j.
      Holds-intro (IsBook r) (unmarshal_book r.beyond j) (unmarshal_book-ne-panics r.beyond j)
        (λ b e.
          let (z, _, made) = >>=-eq-ok (unmarshal_text j) _ e in
          from_string_again r.beyond z b s.lowering made))

  pub IsCurrency-Keeps : Keeps (IsCurrency r) (currency_setter r)
  unfolding unmarshal_currency to_currency
  IsCurrency-Keeps = Keeps-by_method (IsCurrency r) (unmarshal_currency r.beyond) (λ j.
      Holds-intro (IsCurrency r) (unmarshal_currency r.beyond j)
        (unmarshal_currency-ne-panics r.beyond j)
        (λ c e.
          let (z, _, made) = >>=-eq-ok (unmarshal_text j) _ e in
          let same : to_currency r.beyond z ≡ c = ground (arith, made) in
          subst (IsCurrency r) same (to_lower_idem s.lowering z)))

  enumerations-AtMost :
      (j : Json) (k : ℕ)
      → (unmarshal_side r.sides j ≡ ok k → k ≤ 2)
        × (unmarshal_status r.statuses j ≡ ok k → k ≤ 5)
        × (unmarshal_operation r.operations j ≡ ok k → k ≤ 4)
  enumerations-AtMost j k =
      let (side, status, operation, _, _) =
        unmarshal-IsDeclared_iff r.sides r.statuses r.operations order_types k s.sides s.statuses
          s.operations (λ k v. (λ i. i, λ i. i)) in
      (λ e. (side.0 (j, e)).1, λ e. (status.0 (j, e)).1, λ e. (operation.0 (j, e)).1)

  pub side-Keeps : Keeps (AtMost 2) (side_setter r)
  side-Keeps = Keeps-by_method (AtMost 2) (unmarshal_side r.sides) (λ j.
      Holds-intro (AtMost 2) (unmarshal_side r.sides j) (enumeration-ne-panics r.sides j).0
        (λ k. (enumerations-AtMost j k).0))

  pub status-Keeps : Keeps (AtMost 5) (status_setter r)
  status-Keeps = Keeps-by_method (AtMost 5) (unmarshal_status r.statuses) (λ j.
      Holds-intro (AtMost 5) (unmarshal_status r.statuses j) (enumeration-ne-panics r.statuses j).1
        (λ k. (enumerations-AtMost j k).1))

  pub operation-Keeps : Keeps (AtMost 4) (operation_setter r)
  operation-Keeps = Keeps-by_method (AtMost 4) (unmarshal_operation r.operations) (λ j.
      Holds-intro (AtMost 4) (unmarshal_operation r.operations j)
        (enumeration-ne-panics r.operations j).2 (λ k. (enumerations-AtMost j k).2))
