-- ===== src/Bitso/Ranges/Tests.antt =====
-- What the parsers can give, at the tables as they stand in the code.
use microservices_trading_bo.Common.{◌≡◌, ◌<◌, ◌↔◌, ok}
use microservices_trading_bo.Common.Names.{Table, SameEntries}
use microservices_trading_bo.Bitso.Json.{Json}
use microservices_trading_bo.Bitso.Tid.{u64_mod, unmarshal_tid}
use microservices_trading_bo.Bitso.Enums.Side.{order_sides, unmarshal_side}
use microservices_trading_bo.Bitso.Enums.Status.{status_names, unmarshal_status}
use microservices_trading_bo.Bitso.Enums.Operation.{operation_names, unmarshal_operation}
use microservices_trading_bo.Bitso.Enums.OrderType.{order_types, unmarshal_order_type}
use microservices_trading_bo.Bitso.Ranges.{IsDeclared, unmarshal-IsDeclared_iff}

same : (es : Table) → SameEntries es es
same es k v = (λ i. i, λ i. i)

unmarshal-IsDeclared_iff_example :
    (((j : Json) × (unmarshal_side order_sides j ≡ ok 3)) ↔ IsDeclared 2 3)
    × (((j : Json) × (unmarshal_status status_names j ≡ ok 3)) ↔ IsDeclared 5 3)
    × (((j : Json) × (unmarshal_operation operation_names j ≡ ok 3)) ↔ IsDeclared 4 3)
    × (((j : Json) × (unmarshal_order_type order_types j ≡ ok 3)) ↔ IsDeclared 2 3)
    × (((j : Json) × (unmarshal_tid j ≡ ok 3)) ↔ (3 < u64_mod))
unmarshal-IsDeclared_iff_example =
    unmarshal-IsDeclared_iff order_sides status_names operation_names order_types 3
      (same order_sides) (same status_names) (same operation_names) (same order_types)
