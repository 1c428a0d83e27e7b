-- ===== src/Bitso/Enums/Side.antt =====
-- data_server/bitso/side.go
use microservices_trading_bo.Common.{
  ℕ, Text, codes, [], ◌∷◌, none, some, Outcome, ok, err, panics, ◌>>=◌,
}
use microservices_trading_bo.Bitso.Json.{
  Json, str, Column, absent, text, other, Error, unsupported_side, unmarshal_text,
}
use microservices_trading_bo.Common.Names.{Table, name_of, key_of}

-- `OrderSide` is a byte; these are its declared values.
abbrev pub order_side_none : ℕ
order_side_none = 0

abbrev pub order_side_buy : ℕ
order_side_buy = 1

abbrev pub order_side_sell : ℕ
order_side_sell = 2

abbrev pub order_sides : Table
order_sides = (order_side_buy, codes "buy") ∷ (order_side_sell, codes "sell") ∷ []

unfoldable pub side_string : ℕ → Outcome Error Text
unfolding name_of
side_string s = elim (name_of order_sides s) [ none ↦ panics | some z ↦ ok z ]

unfoldable pub marshal_side : ℕ → Outcome Error Json
unfolding side_string
marshal_side s = do z ← side_string s; ok (str z)

-- The map is visited in the order of `entries`.
unfoldable pub side_from_string : Table → Text → Outcome Error ℕ
unfolding key_of
side_from_string entries z = elim (key_of entries z) [
  | none ↦ err unsupported_side
  | some side ↦ ok side
]

unfoldable pub unmarshal_side : Table → Json → Outcome Error ℕ
unfolding side_from_string unmarshal_text
unmarshal_side entries json = do z ← unmarshal_text json; side_from_string entries z

unfoldable pub side_value : ℕ → Outcome Error Column
unfolding side_string
side_value s = do z ← side_string s; ok (text z)

-- The first argument is the receiver's value, the result its value afterwards.
unfoldable pub scan_side : Table → ℕ → Column → Outcome Error ℕ
unfolding side_from_string
scan_side entries s absent = ok s
scan_side entries s (text z) = side_from_string entries z
scan_side entries s other = panics
