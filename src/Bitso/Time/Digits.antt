-- ===== src/Bitso/Time/Digits.antt =====
-- The digits, fractions and offsets that `time.Parse` reads, as in Go from version 1.20 on.
use microservices_trading_bo.Common.{
  ℕ, ◌+◌, ◌-◌, ◌*◌, Text, Bool, true, false, not, ◌&&◌, ◌||◌, [], ◌∷◌, Outcome, ok, err, ◌>>=◌, leb,
  ◌==◌, if◌then◌else◌, all_digits, value_from, text_eq, zero, suc,
}
use microservices_trading_bo.Bitso.Json.{Error, time_format}

-- Minutes east of UTC, or (at least one) west of it.
pub data Offset : Type 0 where
  east west : ℕ → Offset

unfoldable pub is_digit : ℕ → Bool
is_digit c = leb b'0' c && leb c b'9'

unfoldable pub two_digits : Text → Outcome Error (ℕ × Text)
unfolding is_digit
two_digits (a ∷ b ∷ s) =
    if is_digit a && is_digit b then ok ((a - b'0') * 10 + (b - b'0'), s) else err time_format
two_digits _ = err time_format

-- Hours may have one digit.
unfoldable pub one_or_two_digits : Text → Outcome Error (ℕ × Text)
unfolding is_digit two_digits
one_or_two_digits [] = err time_format
one_or_two_digits (a ∷ []) = if is_digit a then ok (a - b'0', []) else err time_format
one_or_two_digits (a ∷ b ∷ s) =
    if is_digit a && not (is_digit b) then ok (a - b'0', b ∷ s) else two_digits (a ∷ b ∷ s)

unfoldable pub four_digits : Text → Outcome Error (ℕ × Text)
unfolding all_digits value_from
four_digits (a ∷ b ∷ c ∷ d ∷ s) =
    let y = a ∷ b ∷ c ∷ d ∷ [] in if all_digits y then ok (value_from 0 y, s) else err time_format
four_digits _ = err time_format

unfoldable pub is_separator : ℕ → Bool
is_separator c = c == b'.' || c == b','

-- The digits that a text begins with, and what follows them.
digits : Text → Text × Text
unfolding is_digit
digits [] = ([], [])
digits (c ∷ s) = let (ds, rest) = digits s in if is_digit c then (c ∷ ds, rest) else ([], c ∷ s)

-- The first `n` digits onto the value read so far, as if zeros followed.
scaled : ℕ → ℕ → Text → ℕ
scaled zero acc s = acc
scaled (suc n) acc [] = scaled n (acc * 10) []
scaled (suc n) acc (c ∷ s) = scaled n (acc * 10 + (c - b'0')) s

-- `.000` is read with `atoi`, which allows a sign; a negative number is out of range.
unfoldable pub three_digits : Text → Outcome Error ℕ
unfolding all_digits value_from
three_digits [] = ok 0
three_digits (c ∷ s) =
    if c == b'+' || c == b'-'
    then (if all_digits s && (c == b'+' || value_from 0 s == 0)
        then ok (value_from 0 s * 1000000)
        else err time_format)
    else if all_digits (c ∷ s)
    then ok (value_from 0 (c ∷ s) * 1000000)
    else err time_format

-- The sign, two digits and two digits; a colon between them if the layout has one.
unfoldable pub offset : Bool → ℕ → Outcome Error Offset
offset ahead n = if ahead || n == 0 then ok (east n) else ok (west n)

unfoldable pub zone_from : ℕ → ℕ × Text → ℕ × Text → Outcome Error (Offset × Text)
unfolding offset
zone_from sign (h, _) (m, rest) =
    if (sign == b'+' || sign == b'-') && (leb h 24 && leb m 60)
    then (do z ← offset (sign == b'+') (h * 60 + m); ok (z, rest))
    else err time_format

unfoldable pub colon : Bool → Text → Outcome Error Text
colon false s = ok s
colon true [] = err time_format
colon true (c ∷ s) = if c == b':' then ok s else err time_format

unfoldable pub read_zone : Bool → Text → Outcome Error (Offset × Text)
unfolding two_digits colon zone_from
read_zone with_colon [] = err time_format
read_zone with_colon (sign ∷ s) = do
  h ← two_digits s
  rest ← colon with_colon h.1
  m ← two_digits rest
  zone_from sign h m

-- Seconds may have a fraction that the layout does not name, unless it names one next.
unfoldable pub unnamed_fraction : Bool → Text → ℕ × Text
unfolding digits scaled is_separator text_eq
unnamed_fraction true s = (0, s)
unnamed_fraction false [] = (0, [])
unnamed_fraction false (c ∷ s) =
    let (ds, rest) = digits s in
    if is_separator c && not (text_eq ds []) then (scaled 9 0 ds, rest) else (0, c ∷ s)

-- A named fraction is a separator and three digits.
unfoldable pub named_fraction : Text → Outcome Error (ℕ × Text)
unfolding three_digits is_separator
named_fraction (p ∷ a ∷ b ∷ c ∷ s) =
    if is_separator p then (do n ← three_digits (a ∷ b ∷ c ∷ []); ok (n, s)) else err time_format
named_fraction _ = err time_format

unfoldable pub within : ℕ → ℕ → ℕ × Text → Outcome Error (ℕ × Text)
within low high (n, s) = if leb low n && leb n high then ok (n, s) else err time_format
