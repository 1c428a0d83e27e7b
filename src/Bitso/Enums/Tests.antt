-- ===== src/Bitso/Enums/Tests.antt =====
-- Runs of the enumerations, and their theorems at concrete inputs.
use microservices_trading_bo.Common.{codes, text_eq, ok, err, ◌≡◌, refl, ◌↔◌, [], ◌∷◌, inl, inr}
use microservices_trading_bo.Bitso.Json.{str, null, unsupported_side}
use microservices_trading_bo.Common.Names.{Table, SameEntries}
use microservices_trading_bo.Bitso.Enums.Side.{order_sides, marshal_side, unmarshal_side}
use microservices_trading_bo.Bitso.Enums.Status.{status_names, unmarshal_status}
use microservices_trading_bo.Bitso.Enums.Operation.{operation_names}
use microservices_trading_bo.Bitso.Enums.OrderType.{order_types}
use microservices_trading_bo.Bitso.Enums.Laws.{unmarshal-marshal_iff}

partial_fill : unmarshal_status status_names (str (codes "partially filled")) ≡ ok 3
unfolding unmarshal_status text_eq
partial_fill = refl

null_side : unmarshal_side order_sides null ≡ err unsupported_side
unfolding unmarshal_side text_eq
null_side = refl

-- The table of sides visited the other way round.
abbrev sides_backwards : Table
sides_backwards = (2, codes "sell") ∷ (1, codes "buy") ∷ []

sides_backwards-SameEntries : SameEntries order_sides sides_backwards
sides_backwards-SameEntries k v = (
  elim [ inl e ↦ inr (inl e) | inr (inl e) ↦ inl e | inr (inr e) ↦ absurd e ],
  elim [ inl e ↦ inr (inl e) | inr (inl e) ↦ inl e | inr (inr e) ↦ absurd e ],
)

SameEntries-refl : (es : Table) → SameEntries es es
SameEntries-refl es k v = (λ m. m, λ m. m)

unmarshal-marshal_iff_example :
    (unmarshal_side sides_backwards (str (codes "sell")) ≡ ok 2)
    ↔ (marshal_side 2 ≡ ok (str (codes "sell")))
unmarshal-marshal_iff_example =
    (unmarshal-marshal_iff sides_backwards status_names operation_names order_types
      (str (codes "sell")) 2 sides_backwards-SameEntries (SameEntries-refl status_names)
      (SameEntries-refl operation_names) (SameEntries-refl order_types)).0
