-- ===== src/Bitso/Order/Laws.antt =====
-- An order that is marshalled is read again as it was.
use microservices_trading_bo.Common.{
  ℕ, ◌≡◌, ◌↔◌, ◌⊎◌, refl, sym, ◌∙◌, Text, codes, [], ◌∷◌, ◌++◌, lookup, text_eq, ok, panics, ◌>>=◌,
  >>=-eq-ok, Outcome-cases, arith, inl, inr,
}
use microservices_trading_bo.Common.Names.{Table, SameEntries}
use microservices_trading_bo.Bitso.Json.{Json, str}
use microservices_trading_bo.Bitso.Book.{
  book_string, book_from_string, marshal_book, unmarshal_book,
}
use microservices_trading_bo.Bitso.Enums.Side.{order_sides, marshal_side, unmarshal_side}
use microservices_trading_bo.Bitso.Enums.OrderType.{
  order_types, marshal_order_type, unmarshal_order_type,
}
use microservices_trading_bo.Bitso.Enums.Laws.{side_iff, order_type_iff}
use microservices_trading_bo.Bitso.Order.{
  OrderPlacement, Object, omit_empty, marshal_order, set_text, set_fields, order_setters,
  unmarshal_order,
}

module _ (beyond : ℕ → ℕ) (sides types : Table) where
  -- The amounts, read back onto an order whose amounts are empty.
  amounts_again :
      (o : OrderPlacement) (major minor price : Text)
      → set_fields
          (order_setters beyond sides types)
          (record o { major = []; minor = []; price = [] })
          (omit_empty (codes "major") major
            ++ omit_empty (codes "minor") minor
            ++ omit_empty (codes "price") price)
        ≡ ok (record o { major = major; minor = minor; price = price })
  unfolding set_fields omit_empty set_text lookup text_eq
  amounts_again o [] [] [] = refl
  amounts_again o [] [] (z ∷ price) = refl
  amounts_again o [] (y ∷ minor) [] = refl
  amounts_again o [] (y ∷ minor) (z ∷ price) = refl
  amounts_again o (x ∷ major) [] [] = refl
  amounts_again o (x ∷ major) [] (z ∷ price) = refl
  amounts_again o (x ∷ major) (y ∷ minor) [] = refl
  amounts_again o (x ∷ major) (y ∷ minor) (z ∷ price) = refl

  -- The object of an order, read field by field.
  fields_of : OrderPlacement → Json → Json → Object
  fields_of o side type =
      (codes "book", str (book_string o.book))
      ∷ (codes "side", side)
      ∷ (codes "type", type)
      ∷ (omit_empty (codes "major") o.major
          ++ omit_empty (codes "minor") o.minor
          ++ omit_empty (codes "price") o.price)

  read_back :
      (o : OrderPlacement) (side type : Json)
      → unmarshal_side sides side ≡ ok o.side
      → unmarshal_order_type types type ≡ ok o.type
      → unmarshal_order beyond sides types (fields_of o side type)
        ≡ (book_from_string beyond (book_string o.book) >>= λ b. ok (record o { book = b }))
  unfolding fields_of unmarshal_order set_fields unmarshal_book lookup text_eq
  read_back o side type side_read type_read =
      elim (Outcome-cases (book_from_string beyond (book_string o.book))) [
        | inl (b, f) ↦
            rw (unmarshal_order, set_fields, f, side_read, type_read)
              (amounts_again (record o { book = b }) o.major o.minor o.price)
        | inr (inl (fault, f)) ↦ rw f refl
        | inr (inr f) ↦ rw f refl
      ]

  -- If the sides and the types are read by the same tables, in any order: the object of an order is read as that order exactly if
  -- the name of its book parses as that book.
  pub unmarshal_order-marshal_order_iff :
      (o : OrderPlacement) (fields : Object)
      → SameEntries order_sides sides
      → SameEntries order_types types
      → marshal_order o ≡ ok fields
      → (unmarshal_order beyond sides types fields ≡ ok o)
        ↔ (book_from_string beyond (book_string o.book) ≡ ok o.book)
  unfolding marshal_order marshal_book fields_of
  unmarshal_order-marshal_order_iff o fields same_sides same_types e =
      let (side, s, e1) = >>=-eq-ok (marshal_side o.side) _ e in
      let (type, t, e2) = >>=-eq-ok (marshal_order_type o.type) _ e1 in
      let side_read = (side_iff sides side o.side same_sides).1 s in
      let type_read = (order_type_iff types type o.type same_types).1 t in
      let back = read_back o side type side_read type_read in
      let same : fields ≡ fields_of o side type = cc in
      (
        λ r.
            let read : _ ≡ ok o = sym back ∙ rw same at r in
            let (b, f, whole) = >>=-eq-ok (book_from_string beyond (book_string o.book)) _ read in
            ground (arith, f, whole),
        λ f. ground (arith, f, same, back),
      )

-- An order has a JSON object exactly if its side and its type are declared, 1 or 2 each; marshalling any
-- other order panics, the zero order included.
pub marshal_order_iff :
    (o : OrderPlacement)
    → (((fields : Object) × (marshal_order o ≡ ok fields))
        ↔ (((o.side ≡ 1) ⊎ (o.side ≡ 2)) × ((o.type ≡ 1) ⊎ (o.type ≡ 2))))
      × ((marshal_order o ≡ panics)
          ↔ (¬ (((o.side ≡ 1) ⊎ (o.side ≡ 2)) × ((o.type ≡ 1) ⊎ (o.type ≡ 2)))))
unfolding marshal_order marshal_book marshal_side marshal_order_type
marshal_order_iff o = (
  (
    λ (fields, e). ground arith,
    λ declared. elim (Outcome-cases (marshal_order o)) [
      | inl made ↦ made
      | inr (inl (fault, e)) ↦ absurd (ground arith)
      | inr (inr e) ↦ absurd (ground arith)
    ],
  ),
  (ground arith, ground arith),
)
