-- ===== src/Bitso/Ranges.antt =====
-- The values that the parsers of data_server/bitso can give: those that the types declare.
mod Tests
use microservices_trading_bo.Common.{
  ℕ, ◌≡◌, ◌≤◌, ◌<◌, ◌≢◌, ◌↔◌, show_nat, show_nat-ne-nil, all_digits-show_nat, value_from-show_nat,
  Text, Outcome, ok, err, panics, Outcome-cases, inl, inr, arith,
}
use microservices_trading_bo.Common.Names.{Table, SameEntries}
use microservices_trading_bo.Bitso.Json.{Json, null, bool, num, str, composite, Error}
use microservices_trading_bo.Bitso.Enums.Side.{
  order_sides, side_string, marshal_side, unmarshal_side,
}
use microservices_trading_bo.Bitso.Enums.Status.{
  status_names, status_string, marshal_status, unmarshal_status,
}
use microservices_trading_bo.Bitso.Enums.Operation.{
  operation_names, operation_string, marshal_operation, unmarshal_operation,
}
use microservices_trading_bo.Bitso.Enums.OrderType.{
  order_types, order_type_string, marshal_order_type, unmarshal_order_type,
}
use microservices_trading_bo.Bitso.Tid.{u64_mod, parse_uint, unmarshal_tid}
use microservices_trading_bo.Bitso.Tid.Laws.{unmarshal_tid_iff, parse_uint_iff, IsUint64}
use microservices_trading_bo.Bitso.Enums.Laws.{side_iff, status_iff, operation_iff, order_type_iff}

-- `k` lies in 1 to `last`.
abbrev pub IsDeclared : ℕ → ℕ → Type 0
IsDeclared last k = (1 ≤ k) × (k ≤ last)

-- What marshals is what can be parsed; so where marshalling panics exactly outside a range, parsing
-- gives that range.
module _ (marshal : ℕ → Outcome Error Json) (unmarshal : Json → Outcome Error ℕ)
    (inverse : (j : Json) (k : ℕ) → (unmarshal j ≡ ok k) ↔ (marshal k ≡ ok j)) (k last : ℕ) where
  Parses-IsDeclared :
      ((e : Error) → marshal k ≢ err e)
      → ((marshal k ≡ panics) ↔ ¬ IsDeclared last k)
      → ((j : Json) × (unmarshal j ≡ ok k)) ↔ IsDeclared last k
  Parses-IsDeclared sure outside = (
    λ (j, e). ground (arith, (inverse j k).0 e, outside),
    λ d. elim (Outcome-cases (marshal k)) [
      | inl (j, m) ↦ (j, (inverse j k).1 m)
      | inr (inl (fault, m)) ↦ absurd (sure fault m)
      | inr (inr m) ↦ absurd (outside.0 m d)
    ],
  )

pub tid-IsUint64 : (j : Json) (v : ℕ) → unmarshal_tid j ≡ ok v → v < u64_mod
unfolding unmarshal_tid
tid-IsUint64 null v e = ground arith
tid-IsUint64 (num s) v e = ((unmarshal_tid_iff s v).0.0 e).fits
tid-IsUint64 (str s) v e = ((unmarshal_tid_iff s v).1.0 e).fits
tid-IsUint64 (bool b) v e = ground arith
tid-IsUint64 composite v e = ground arith

-- A number is read from its own decimal digits.
show_nat-IsUint64 : (v : ℕ) → v < u64_mod → IsUint64 (show_nat v) v
show_nat-IsUint64 v h = record {
  some_digit = show_nat-ne-nil v;
  digits = all_digits-show_nat v;
  value = value_from-show_nat v;
  fits = h;
}

pub tid-show_nat : (v : ℕ) → v < u64_mod → unmarshal_tid (num (show_nat v)) ≡ ok v
tid-show_nat v h = (unmarshal_tid_iff (show_nat v) v).0.1 (show_nat-IsUint64 v h)

pub parse_uint-show_nat : (v : ℕ) → v < u64_mod → parse_uint (show_nat v) ≡ ok v
parse_uint-show_nat v h = (parse_uint_iff (show_nat v) v).1 (show_nat-IsUint64 v h)

-- Parsing JSON gives the values that the types declare, all of them and no others, in whatever order the
-- tables are visited: sides and order types 1 and 2, statuses 1 to 5, operations 1 to 4, and
-- transaction ids below 2 ^ 64.
pub unmarshal-IsDeclared_iff :
    (sides statuses operations types : Table) (k : ℕ)
    → SameEntries order_sides sides
    → SameEntries status_names statuses
    → SameEntries operation_names operations
    → SameEntries order_types types
    → (((j : Json) × (unmarshal_side sides j ≡ ok k)) ↔ IsDeclared 2 k)
      × (((j : Json) × (unmarshal_status statuses j ≡ ok k)) ↔ IsDeclared 5 k)
      × (((j : Json) × (unmarshal_operation operations j ≡ ok k)) ↔ IsDeclared 4 k)
      × (((j : Json) × (unmarshal_order_type types j ≡ ok k)) ↔ IsDeclared 2 k)
      × (((j : Json) × (unmarshal_tid j ≡ ok k)) ↔ (k < u64_mod))
unfolding marshal_side marshal_status marshal_operation marshal_order_type
unmarshal-IsDeclared_iff sides statuses operations types k s t o p = (
  Parses-IsDeclared marshal_side (unmarshal_side sides) (λ j n. side_iff sides j n s) k 2
      (λ e m. ground arith) (ground arith, ground arith),
  Parses-IsDeclared marshal_status (unmarshal_status statuses) (λ j n. status_iff statuses j n t) k
      5 (λ e m. ground arith) (ground arith, ground arith),
  Parses-IsDeclared marshal_operation (unmarshal_operation operations)
      (λ j n. operation_iff operations j n o) k 4 (λ e m. ground arith)
      (ground arith, ground arith),
  Parses-IsDeclared marshal_order_type (unmarshal_order_type types)
      (λ j n. order_type_iff types j n p) k 2 (λ e m. ground arith) (ground arith, ground arith),
  (λ (j, e). tid-IsUint64 j k e, λ h. (num (show_nat k), tid-show_nat k h)),
)
