-- ===== src/Bitso/Enums/OrderType.antt =====
-- data_server/bitso/order_type.go
use microservices_trading_bo.Common.{
  ℕ, Text, codes, [], ◌∷◌, none, some, Outcome, ok, err, panics, ◌>>=◌,
}
use microservices_trading_bo.Bitso.Json.{Json, str, Error, unsupported_type, unmarshal_text}
use microservices_trading_bo.Common.Names.{Table, name_of, key_of}

-- `OrderType` is a byte; these are its declared values.
abbrev pub order_type_none : ℕ
order_type_none = 0

abbrev pub order_type_market : ℕ
order_type_market = 1

abbrev pub order_type_limit : ℕ
order_type_limit = 2

abbrev pub order_types : Table
order_types = (order_type_market, codes "market") ∷ (order_type_limit, codes "limit") ∷ []

unfoldable pub order_type_string : ℕ → Outcome Error Text
unfolding name_of
order_type_string k = elim (name_of order_types k) [ none ↦ panics | some z ↦ ok z ]

unfoldable pub marshal_order_type : ℕ → Outcome Error Json
unfolding order_type_string
marshal_order_type k = do z ← order_type_string k; ok (str z)

-- The map is visited in the order of `entries`. The error quotes the JSON that came in.
unfoldable pub unmarshal_order_type : Table → Json → Outcome Error ℕ
unfolding key_of unmarshal_text
unmarshal_order_type entries json = do
  z ← unmarshal_text json
  elim (key_of entries z) [ none ↦ err (unsupported_type json) | some k ↦ ok k ]
