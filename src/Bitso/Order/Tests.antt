-- ===== src/Bitso/Order/Tests.antt =====
-- An order and its JSON object, at concrete tables.
use microservices_trading_bo.Common.{◌≡◌, ◌↔◌, ◌⊎◌, refl, codes, [], ◌∷◌, ok, panics}
use microservices_trading_bo.Bitso.Json.{str}
use microservices_trading_bo.Bitso.Book.{book_string, book_from_string}
use microservices_trading_bo.Bitso.Enums.Side.{order_sides, marshal_side}
use microservices_trading_bo.Bitso.Enums.OrderType.{order_types, marshal_order_type}
use microservices_trading_bo.Bitso.Order.{
  OrderPlacement, Object, no_order, marshal_order, unmarshal_order,
}
use microservices_trading_bo.Bitso.Order.Laws.{unmarshal_order-marshal_order_iff, marshal_order_iff}

abbrev buys : OrderPlacement
buys = record {
  book = record { major = codes "btc"; minor = codes "mxn" };
  side = 1;
  type = 2;
  major = codes "0.1";
  minor = [];
  price = codes "9";
}

abbrev bought : Object
bought =
    (codes "book", str (codes "btc_mxn"))
    ∷ (codes "side", str (codes "buy"))
    ∷ (codes "type", str (codes "limit"))
    ∷ (codes "major", str (codes "0.1"))
    ∷ (codes "price", str (codes "9"))
    ∷ []

unmarshal_order-marshal_order_iff_example :
    (unmarshal_order (λ c. c) order_sides order_types bought ≡ ok buys)
    ↔ (book_from_string (λ c. c) (codes "btc_mxn") ≡ ok buys.book)
unfolding marshal_order marshal_side marshal_order_type book_string
unmarshal_order-marshal_order_iff_example =
    unmarshal_order-marshal_order_iff (λ c. c) order_sides order_types buys bought
      (λ k v. (λ i. i, λ i. i)) (λ k v. (λ i. i, λ i. i)) refl

marshal_order_iff_example :
    (((fields : Object) × (marshal_order no_order ≡ ok fields))
      ↔ (((no_order.side ≡ 1) ⊎ (no_order.side ≡ 2)) × ((no_order.type ≡ 1) ⊎ (no_order.type ≡ 2))))
    × ((marshal_order no_order ≡ panics) ↔ (
        ¬ (
          ((no_order.side ≡ 1) ⊎ (no_order.side ≡ 2))
          × ((no_order.type ≡ 1) ⊎ (no_order.type ≡ 2)))))
marshal_order_iff_example = marshal_order_iff no_order
