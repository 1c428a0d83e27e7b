-- ===== src/Bitso/Enums/Laws.antt =====
-- Parsing an enumeration inverts printing it, in whatever order its table is visited.
use microservices_trading_bo.Common.{
  ℕ, Text, text_eq, true, some, ok, panics, ◌≡◌, refl, ◌↔◌, ◌<◌, ◌⊎◌, arith, [],
}
use microservices_trading_bo.Bitso.Json.{Json, null, str, absent, text, other}
use microservices_trading_bo.Common.Names.{
  Table, name_of, key_of, SameEntries, distinct, distinct-IsUnique, key_of-name_of_iff,
}
use microservices_trading_bo.Bitso.Enums.Side.{
  order_sides, side_string, marshal_side, unmarshal_side, side_value, scan_side,
}
use microservices_trading_bo.Bitso.Enums.Status.{
  status_names, status_string, marshal_status, unmarshal_status, status_value, scan_status,
}
use microservices_trading_bo.Bitso.Enums.Operation.{
  operation_names, operation_string, marshal_operation, unmarshal_operation, operation_value,
  scan_operation,
}
use microservices_trading_bo.Bitso.Enums.OrderType.{
  order_types, order_type_string, marshal_order_type, unmarshal_order_type,
}

-- A table read both ways, as the methods read it.
table_iff :
    (t es : Table) (z : Text) (k : ℕ)
    → distinct t ≡ true
    → SameEntries t es
    → (key_of es z ≡ some k) ↔ (name_of t k ≡ some z)
table_iff t es z k d same = key_of-name_of_iff t es z k (distinct-IsUnique t d) same

pub side_iff :
    (es : Table) (j : Json) (k : ℕ)
    → SameEntries order_sides es
    → (unmarshal_side es j ≡ ok k) ↔ (marshal_side k ≡ ok j)
unfolding unmarshal_side marshal_side distinct text_eq
side_iff es null k same = ground (arith, table_iff order_sides es [] k refl same)
side_iff es (str z) k same = ground (arith, table_iff order_sides es z k refl same)
side_iff es _ k same = ground arith

pub status_iff :
    (es : Table) (j : Json) (k : ℕ)
    → SameEntries status_names es
    → (unmarshal_status es j ≡ ok k) ↔ (marshal_status k ≡ ok j)
unfolding unmarshal_status marshal_status distinct text_eq
status_iff es null k same = ground (arith, table_iff status_names es [] k refl same)
status_iff es (str z) k same = ground (arith, table_iff status_names es z k refl same)
status_iff es _ k same = ground arith

pub operation_iff :
    (es : Table) (j : Json) (k : ℕ)
    → SameEntries operation_names es
    → (unmarshal_operation es j ≡ ok k) ↔ (marshal_operation k ≡ ok j)
unfolding unmarshal_operation marshal_operation distinct text_eq
operation_iff es null k same = ground (arith, table_iff operation_names es [] k refl same)
operation_iff es (str z) k same = ground (arith, table_iff operation_names es z k refl same)
operation_iff es _ k same = ground arith

pub order_type_iff :
    (es : Table) (j : Json) (k : ℕ)
    → SameEntries order_types es
    → (unmarshal_order_type es j ≡ ok k) ↔ (marshal_order_type k ≡ ok j)
unfolding unmarshal_order_type marshal_order_type distinct text_eq
order_type_iff es null k same = ground (arith, table_iff order_types es [] k refl same)
order_type_iff es (str z) k same = ground (arith, table_iff order_types es z k refl same)
order_type_iff es _ k same = ground arith

-- A JSON value, null included, parses to an order side exactly if the side marshals to that JSON
-- value, in whatever order the table of names is visited; so it is with order statuses, ledger
-- operations and order types.
pub unmarshal-marshal_iff :
    (sides statuses operations types : Table) (j : Json) (k : ℕ)
    → SameEntries order_sides sides
    → SameEntries status_names statuses
    → SameEntries operation_names operations
    → SameEntries order_types types
    → ((unmarshal_side sides j ≡ ok k) ↔ (marshal_side k ≡ ok j))
      × ((unmarshal_status statuses j ≡ ok k) ↔ (marshal_status k ≡ ok j))
      × ((unmarshal_operation operations j ≡ ok k) ↔ (marshal_operation k ≡ ok j))
      × ((unmarshal_order_type types j ≡ ok k) ↔ (marshal_order_type k ≡ ok j))
unmarshal-marshal_iff sides statuses operations types j k s t o p = (
  side_iff sides j k s,
  status_iff statuses j k t,
  operation_iff operations j k o,
  order_type_iff types j k p,
)

-- Printing panics exactly outside the declared values: sides 1 and 2, statuses 1 to 5, operations
-- 1 to 4, order types 1 and 2. The zero values (`OrderSideNone` and so on) are outside.
pub string-panics_iff :
    (k : ℕ)
    → ((side_string k ≡ panics) ↔ ((k ≡ 0) ⊎ (2 < k)))
      × ((status_string k ≡ panics) ↔ ((k ≡ 0) ⊎ (5 < k)))
      × ((operation_string k ≡ panics) ↔ ((k ≡ 0) ⊎ (4 < k)))
      × ((order_type_string k ≡ panics) ↔ ((k ≡ 0) ⊎ (2 < k)))
unfolding side_string status_string operation_string order_type_string
string-panics_iff k = (ground arith, ground arith, ground arith, ground arith)

-- `Scan` makes a value of a text column exactly if `Value` writes that text for the value, whatever
-- the receiver held and in whatever order the table is visited; an absent column leaves the receiver
-- as it was; a column that is no Go string panics.
pub scan-value_iff :
    (sides statuses operations : Table) (old k : ℕ) (z : Text)
    → SameEntries order_sides sides
    → SameEntries status_names statuses
    → SameEntries operation_names operations
    → ((scan_side sides old (text z) ≡ ok k) ↔ (side_value k ≡ ok (text z)))
      × ((scan_status statuses old (text z) ≡ ok k) ↔ (status_value k ≡ ok (text z)))
      × ((scan_operation operations old (text z) ≡ ok k) ↔ (operation_value k ≡ ok (text z)))
      × (scan_side sides old absent ≡ ok old)
      × (scan_status statuses old absent ≡ ok old)
      × (scan_operation operations old absent ≡ ok old)
      × (scan_side sides old other ≡ panics)
      × (scan_status statuses old other ≡ panics)
      × (scan_operation operations old other ≡ panics)
unfolding side_value status_value operation_value scan_side scan_status scan_operation
    unmarshal_side unmarshal_status unmarshal_operation marshal_side marshal_status
    marshal_operation
scan-value_iff sides statuses operations old k z s t o = (
  ground (arith, side_iff sides (str z) k s),
  ground (arith, status_iff statuses (str z) k t),
  ground (arith, operation_iff operations (str z) k o),
  refl,
  refl,
  refl,
  refl,
  refl,
  refl,
)
