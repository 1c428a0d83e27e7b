-- ===== src/Bitso/Time.antt =====
-- data_server/bitso/time.go. A `time.Time` is its date, its clock and its offset; `time.Parse` and
-- `Format` are written out for the elements of the layouts that the package uses.
pub mod Digits
pub mod Laws
pub mod Reading
pub mod Total
mod Tests
use microservices_trading_bo.Common.{
  ℕ, ◌+◌, ◌-◌, ◌*◌, ◌/◌, ◌%◌, Text, Bool, true, false, not, ◌&&◌, ◌||◌, List, [], ◌∷◌, ◌++◌,
  Outcome, ok, err, panics, ◌>>=◌, ltb, leb, ◌==◌, if◌then◌else◌, all_digits, value_from, show_nat,
  text_eq, zero, suc,
}
use microservices_trading_bo.Bitso.Json.{Json, Error, time_format, unmarshal_text}
use microservices_trading_bo.Bitso.Time.Digits.{
  Offset, east, west, is_digit, two_digits, one_or_two_digits, four_digits, is_separator, offset,
  zone_from, colon, read_zone, unnamed_fraction, named_fraction, within,
}

pub record Time : Type 0 where
  pub year : ℕ
  pub month : ℕ
  pub day : ℕ
  pub hour : ℕ
  pub minute : ℕ
  pub second : ℕ
  pub nanosecond : ℕ
  pub zone : Offset

-- `time.Time{}`
abbrev pub zero_time : Time
zero_time = record {
  year = 1;
  month = 1;
  day = 1;
  hour = 0;
  minute = 0;
  second = 0;
  nanosecond = 0;
  zone = east 0;
}

-- The elements of a layout: 2006, 01, 02, 15, 04, 05, .000, -0700 and -07:00, and a separator.
pub data Element : Type 0 where
  the_year the_month the_day the_hour the_minute the_second the_fraction the_zone the_colon_zone :
      Element
  separator : ℕ → Element

-- The elements up to the seconds.
abbrev pub clock : List Element → List Element
clock rest =
    the_year
    ∷ separator b'-'
    ∷ the_month
    ∷ separator b'-'
    ∷ the_day
    ∷ separator b'T'
    ∷ the_hour
    ∷ separator b':'
    ∷ the_minute
    ∷ separator b':'
    ∷ the_second
    ∷ rest

abbrev pub iso8601_time : List Element
iso8601_time = clock (the_zone ∷ [])

abbrev pub time_formats : List (List Element)
time_formats =
    iso8601_time ∷ clock (the_colon_zone ∷ []) ∷ clock (the_fraction ∷ the_colon_zone ∷ []) ∷ []

names_fraction : List Element → Bool
names_fraction (the_fraction ∷ es) = true
names_fraction _ = false

-- One element of a layout; the rest of the layout is `es`.
read_element : Element → List Element → Time → Text → Outcome Error (Time × Text)
unfolding four_digits two_digits one_or_two_digits within unnamed_fraction named_fraction read_zone
    names_fraction
read_element the_year es t s = do y ← four_digits s; ok (record t { year = y.0 }, y.1)
read_element the_month es t s = do
  n ← two_digits s
  m ← within 1 12 n
  ok (record t { month = m.0 }, m.1)
read_element the_day es t s = do d ← two_digits s; ok (record t { day = d.0 }, d.1)
read_element the_hour es t s = do
  n ← one_or_two_digits s
  h ← within 0 23 n
  ok (record t { hour = h.0 }, h.1)
read_element the_minute es t s = do
  n ← two_digits s
  m ← within 0 59 n
  ok (record t { minute = m.0 }, m.1)
read_element the_second es t s = do
  n ← two_digits s
  m ← within 0 59 n
  let f = unnamed_fraction (names_fraction es) m.1
  ok (record t { second = m.0; nanosecond = f.0 }, f.1)
read_element the_fraction es t s = do f ← named_fraction s; ok (record t { nanosecond = f.0 }, f.1)
read_element the_zone es t s = do z ← read_zone false s; ok (record t { zone = z.0 }, z.1)
read_element the_colon_zone es t s = do z ← read_zone true s; ok (record t { zone = z.0 }, z.1)
read_element (separator c) es t [] = err time_format
read_element (separator c) es t (d ∷ s) = if c == d then ok (t, s) else err time_format

-- The elements in turn; nothing may be left.
read_elements : List Element → Time → Text → Outcome Error Time
unfolding read_element
read_elements [] t [] = ok t
read_elements [] t (c ∷ s) = err time_format
read_elements (e ∷ es) t s = do r ← read_element e es t s; read_elements es r.0 r.1

is_leap : ℕ → Bool
is_leap y = y % 4 == 0 && (not (y % 100 == 0) || y % 400 == 0)

unfoldable pub days_in : ℕ → ℕ → ℕ
unfolding is_leap
days_in m y =
    if m == 2
    then (if is_leap y then 29 else 28)
    else if m == 4 || m == 6 || m == 9 || m == 11
    then 30
    else 31

is_date : Time → Bool
unfolding days_in
is_date t = leb 1 t.day && leb t.day (days_in t.month t.year)

-- `time.Parse`; a year that the layout does not name is 0.
parse : List Element → Text → Outcome Error Time
unfolding read_elements is_date
parse layout s = do
  t ← read_elements layout (record zero_time { year = 0 }) s
  if is_date t then ok t else err time_format

-- The loop over the formats, with what the last round left.
parse_any : Outcome Error Time → List (List Element) → Text → Outcome Error Time
unfolding parse
parse_any last [] s = last
parse_any last (f ∷ fs) s = elim (parse f s) [
  | ok z ↦ ok z
  | err e ↦ parse_any (err e) fs s
  | panics ↦ panics
]

unfoldable pub unmarshal_time : Json → Outcome Error Time
unfolding unmarshal_text parse_any names_fraction
unmarshal_time json = do s ← unmarshal_text json; parse_any (ok zero_time) time_formats s

-- `%02d` and `%04d`
two : ℕ → Text
unfolding show_nat
two n = if ltb n 100 then (b'0' + n / 10) ∷ (b'0' + n % 10) ∷ [] else show_nat n

four : ℕ → Text
unfolding show_nat
four n =
    if ltb n 10000
    then (b'0' + n / 1000) ∷ (b'0' + n / 100 % 10) ∷ (b'0' + n / 10 % 10) ∷ (b'0' + n % 10) ∷ []
    else show_nat n

minutes : ℕ → ℕ → Text
unfolding two
minutes sign n = sign ∷ two (n / 60) ++ two (n % 60)

show_zone : Offset → Text
unfolding minutes
show_zone (east n) = minutes b'+' n
show_zone (west n) = minutes b'-' n

abbrev followed_by : Text → ℕ → Text → Text
followed_by s c rest = s ++ c ∷ rest

-- `Format` with the first of the layouts.
unfoldable pub time_string : Time → Text
unfolding two four show_zone
time_string t = followed_by (four t.year) b'-' (
    followed_by (two t.month) b'-' (
      followed_by (two t.day) b'T' (
        followed_by (two t.hour) b':'
          (followed_by (two t.minute) b':' (two t.second ++ show_zone t.zone)))))
