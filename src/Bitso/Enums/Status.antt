-- ===== src/Bitso/Enums/Status.antt =====
-- data_server/bitso/status.go
use microservices_trading_bo.Common.{
  ℕ, Text, codes, [], ◌∷◌, none, some, Outcome, ok, err, panics, ◌>>=◌,
}
use microservices_trading_bo.Bitso.Json.{
  Json, str, Column, absent, text, other, Error, unsupported_status, unmarshal_text,
}
use microservices_trading_bo.Common.Names.{Table, name_of, key_of}

-- `OrderStatus` is a byte; these are its declared values.
abbrev pub order_status_none : ℕ
order_status_none = 0

abbrev pub order_status_open : ℕ
order_status_open = 1

abbrev pub order_status_queued : ℕ
order_status_queued = 2

abbrev pub order_status_partial_fill : ℕ
order_status_partial_fill = 3

abbrev pub order_status_cancelled : ℕ
order_status_cancelled = 4

abbrev pub order_status_completed : ℕ
order_status_completed = 5

abbrev pub status_names : Table
status_names =
    (order_status_open, codes "open")
    ∷ (order_status_queued, codes "queued")
    ∷ (order_status_partial_fill, codes "partially filled")
    ∷ (order_status_cancelled, codes "cancelled")
    ∷ (order_status_completed, codes "completed")
    ∷ []

unfoldable pub status_string : ℕ → Outcome Error Text
unfolding name_of
status_string k = elim (name_of status_names k) [ none ↦ panics | some z ↦ ok z ]

unfoldable pub marshal_status : ℕ → Outcome Error Json
unfolding status_string
marshal_status k = do z ← status_string k; ok (str z)

-- The map is visited in the order of `entries`.
unfoldable pub status_from_string : Table → Text → Outcome Error ℕ
unfolding key_of
status_from_string entries z = elim (key_of entries z) [
  | none ↦ err (unsupported_status z)
  | some k ↦ ok k
]

unfoldable pub unmarshal_status : Table → Json → Outcome Error ℕ
unfolding status_from_string unmarshal_text
unmarshal_status entries json = do z ← unmarshal_text json; status_from_string entries z

unfoldable pub status_value : ℕ → Outcome Error Column
unfolding status_string
status_value k = do z ← status_string k; ok (text z)

-- The first argument is the receiver's value, the result its value afterwards.
unfoldable pub scan_status : Table → ℕ → Column → Outcome Error ℕ
unfolding status_from_string
scan_status entries k absent = ok k
scan_status entries k (text z) = status_from_string entries z
scan_status entries k other = panics
