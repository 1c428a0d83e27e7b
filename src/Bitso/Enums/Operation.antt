-- ===== src/Bitso/Enums/Operation.antt =====
-- data_server/bitso/ledger.go, the enumeration `Operation`
use microservices_trading_bo.Common.{
  ℕ, Text, codes, [], ◌∷◌, none, some, Outcome, ok, err, panics, ◌>>=◌,
}
use microservices_trading_bo.Bitso.Json.{
  Json, str, Column, absent, text, other, Error, unsupported_operation, unmarshal_text,
}
use microservices_trading_bo.Common.Names.{Table, name_of, key_of}

-- `Operation` is a byte; these are its declared values.
abbrev pub operation_none : ℕ
operation_none = 0

abbrev pub operation_funding : ℕ
operation_funding = 1

abbrev pub operation_withdrawal : ℕ
operation_withdrawal = 2

abbrev pub operation_trade : ℕ
operation_trade = 3

abbrev pub operation_fee : ℕ
operation_fee = 4

abbrev pub operation_names : Table
operation_names =
    (operation_funding, codes "funding")
    ∷ (operation_withdrawal, codes "withdrawal")
    ∷ (operation_trade, codes "trade")
    ∷ (operation_fee, codes "fee")
    ∷ []

unfoldable pub operation_string : ℕ → Outcome Error Text
unfolding name_of
operation_string k = elim (name_of operation_names k) [ none ↦ panics | some z ↦ ok z ]

unfoldable pub marshal_operation : ℕ → Outcome Error Json
unfolding operation_string
marshal_operation k = do z ← operation_string k; ok (str z)

-- The map is visited in the order of `entries`.
unfoldable pub operation_from_string : Table → Text → Outcome Error ℕ
unfolding key_of
operation_from_string entries z = elim (key_of entries z) [
  | none ↦ err unsupported_operation
  | some k ↦ ok k
]

unfoldable pub unmarshal_operation : Table → Json → Outcome Error ℕ
unfolding operation_from_string unmarshal_text
unmarshal_operation entries json = do z ← unmarshal_text json; operation_from_string entries z

unfoldable pub operation_value : ℕ → Outcome Error Column
unfolding operation_string
operation_value k = do z ← operation_string k; ok (text z)

-- The first argument is the receiver's value, the result its value afterwards.
unfoldable pub scan_operation : Table → ℕ → Column → Outcome Error ℕ
unfolding operation_from_string
scan_operation entries k absent = ok k
scan_operation entries k (text z) = operation_from_string entries z
scan_operation entries k other = panics
