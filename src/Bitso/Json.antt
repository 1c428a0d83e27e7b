-- ===== src/Bitso/Json.antt =====
-- What encoding/json and database/sql/driver hand to the package's methods: one decoded JSON value,
-- one column value, and the errors of the package. The contents of an array or an object play no
-- part in these methods.
use microservices_trading_bo.Common.{Text, Bool, [], Outcome, ok, err, panics, ◌≢◌}

pub data Json : Type 0 where
  null : Json
  bool : Bool → Json
  num : Text → Json
  str : Text → Json
  composite : Json

-- A column value: absent, a Go string, or a value of another Go type.
pub data Column : Type 0 where
  absent : Column
  text : Text → Column
  other : Column

pub data Error : Type 0 where
  json_type number_syntax number_range time_format : Error
  unsupported_side unsupported_operation book_format : Error
  unsupported_status : Text → Error
  unsupported_type : Json → Error

-- `var z string; json.Unmarshal(in, &z)`: null leaves z as it was declared.
unfoldable pub unmarshal_text : Json → Outcome Error Text
unmarshal_text null = ok []
unmarshal_text (str s) = ok s
unmarshal_text _ = err json_type

pub unmarshal_text-ne-panics : (j : Json) → unmarshal_text j ≢ panics
unfolding unmarshal_text
unmarshal_text-ne-panics null e = cc
unmarshal_text-ne-panics (str s) e = cc
unmarshal_text-ne-panics (num s) e = cc
unmarshal_text-ne-panics (bool s) e = cc
unmarshal_text-ne-panics composite e = cc
