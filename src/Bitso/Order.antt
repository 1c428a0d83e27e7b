-- ===== src/Bitso/Order.antt =====
-- data_server/bitso/order_book.go and monetary.go: the orders, as JSON objects. An object is its fields
-- in their order.
pub mod Laws
mod Tests
use microservices_trading_bo.Common.{
  ℕ, Text, codes, List, [], ◌∷◌, ◌++◌, Option, none, some, if◌then◌else◌, text_eq, lookup, Outcome,
  ok, err, panics, ◌>>=◌,
}
use microservices_trading_bo.Common.Names.{Table}
use microservices_trading_bo.Bitso.Json.{Json, null, str, Error, json_type}
use microservices_trading_bo.Bitso.Book.{Book, marshal_book, unmarshal_book}
use microservices_trading_bo.Bitso.Enums.Side.{marshal_side, unmarshal_side}
use microservices_trading_bo.Bitso.Enums.OrderType.{marshal_order_type, unmarshal_order_type}

abbrev pub Object : Type 0
Object = List (Text × Json)

-- `Monetary` is a string; the zero values of a side and of a type are 0.
pub record OrderPlacement : Type 0 where
  pub book : Book
  pub side : ℕ
  pub type : ℕ
  pub major : Text
  pub minor : Text
  pub price : Text

abbrev pub no_order : OrderPlacement
no_order = record {
  book = record { major = []; minor = [] };
  side = 0;
  type = 0;
  major = [];
  minor = [];
  price = [];
}

-- `omitempty`
unfoldable pub omit_empty : Text → Text → Object
omit_empty name [] = []
omit_empty name (c ∷ s) = (name, str (c ∷ s)) ∷ []

-- `json.Marshal` of an order: the methods of its fields, in their order.
unfoldable pub marshal_order : OrderPlacement → Outcome Error Object
unfolding omit_empty marshal_book marshal_side marshal_order_type
marshal_order o = do
  book ← marshal_book o.book
  side ← marshal_side o.side
  type ← marshal_order_type o.type
  ok (
      (codes "book", book)
      ∷ (codes "side", side)
      ∷ (codes "type", type)
      ∷ (omit_empty (codes "major") o.major
          ++ omit_empty (codes "minor") o.minor
          ++ omit_empty (codes "price") o.price))

-- What json.Unmarshal does with a field: a method of the type of the field, or the conversion of a string, which
-- null leaves as it was.
abbrev pub Setter : Type 0 → Type 0
Setter A = A → Json → Outcome Error A

unfoldable pub set_text : Setter Text
set_text old null = ok old
set_text old (str s) = ok s
set_text old _ = err json_type

-- `json.Unmarshal` into a struct: the fields of the object in their order, those without a name in the
-- struct left out.
unfoldable pub set_fields : {A : Type 0} → List (Text × Setter A) → A → Object → Outcome Error A
unfolding lookup
set_fields setters a [] = ok a
set_fields setters a ((name, value) ∷ fields) = elim (lookup name setters) [
  | none ↦ set_fields setters a fields
  | some set ↦ set a value >>= λ a'. set_fields setters a' fields
]

module _ (beyond : ℕ → ℕ) (sides types : Table) where
  abbrev pub order_setters : List (Text × Setter OrderPlacement)
  order_setters =
      (codes "book", λ o j. unmarshal_book beyond j >>= λ b. ok (record o { book = b }))
      ∷ (codes "side", λ o j. unmarshal_side sides j >>= λ s. ok (record o { side = s }))
      ∷ (codes "type", λ o j. unmarshal_order_type types j >>= λ t. ok (record o { type = t }))
      ∷ (codes "major", λ o j. set_text o.major j >>= λ m. ok (record o { major = m }))
      ∷ (codes "minor", λ o j. set_text o.minor j >>= λ m. ok (record o { minor = m }))
      ∷ (codes "price", λ o j. set_text o.price j >>= λ p. ok (record o { price = p }))
      ∷ []

  unfoldable pub unmarshal_order : Object → Outcome Error OrderPlacement
  unfolding set_fields
  unmarshal_order fields = set_fields order_setters no_order fields
