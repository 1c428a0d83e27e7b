-- ===== src/Bitso/Tid.antt =====
-- data_server/bitso/tid.go. A transaction id is a 64-bit number; `strconv.ParseUint` in base 10 is
-- written out with its wrap-around.
pub mod Laws
mod Tests
use microservices_trading_bo.Common.{
  ℕ, ◌+◌, ◌-◌, ◌*◌, ◌%◌, Text, [], ◌∷◌, ◌&&◌, ◌||◌, Outcome, ok, err, panics, ◌>>=◌, Option, none,
  some, ltb, leb, if◌then◌else◌,
}
use microservices_trading_bo.Bitso.Json.{
  Json, null, bool, num, str, composite, Error, json_type, number_syntax, number_range,
  unmarshal_text,
}

-- 2 ^ 64
abbrev pub u64_mod : ℕ
u64_mod = 18446744073709551616

-- `maxUint64 / 10 + 1`
abbrev pub cutoff : ℕ
cutoff = 1844674407370955162

-- The loop of `ParseUint`, with the value read so far.
parse_from : ℕ → Text → Outcome Error ℕ
parse_from n [] = ok n
parse_from n (c ∷ s) =
    let next = (n * 10 + (c - b'0')) % u64_mod in
    let rest = parse_from next s in
    if leb b'0' c && leb c b'9'
    then (if leb cutoff n || ltb next (n * 10) then err number_range else rest)
    else err number_syntax

unfoldable pub parse_uint : Text → Outcome Error ℕ
unfolding parse_from
parse_uint [] = err number_syntax
parse_uint (c ∷ s) = parse_from 0 (c ∷ s)

-- `var v uint64; json.Unmarshal(in, &v)`: null leaves v at 0.
unfoldable pub unmarshal_uint : Json → Outcome Error ℕ
unfolding parse_uint
unmarshal_uint null = ok 0
unmarshal_uint (num lit) = parse_uint lit
unmarshal_uint _ = err json_type

-- First as an integer, then as a string that holds one.
unfoldable pub unmarshal_tid : Json → Outcome Error ℕ
unfolding unmarshal_uint unmarshal_text
unmarshal_tid json = elim (unmarshal_uint json) [
  | ok v ↦ ok v
  | err e ↦ (do z ← unmarshal_text json; parse_uint z)
  | panics ↦ panics
]

-- The receiver may be nil.
unfoldable pub tid_uint64 : Option ℕ → ℕ
tid_uint64 none = 0
tid_uint64 (some t) = t
