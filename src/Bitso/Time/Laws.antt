-- ===== src/Bitso/Time/Laws.antt =====
-- A time is read back from its text, without its fraction.
use microservices_trading_bo.Common.{
  ℕ, ◌/◌, ◌%◌, ◌≤◌, ◌<◌, ◌≡◌, ◌∙◌, refl, Text, true, false, List, [], ◌∷◌, ◌++◌, ok, arith,
  all_digits, value_from,
}
use microservices_trading_bo.Bitso.Json.{str}
use microservices_trading_bo.Bitso.Time.{
  parse_any, Time, Element, the_year, the_month, the_day, the_hour, the_minute, the_second,
  the_zone, separator, names_fraction, read_element, read_elements, is_date, days_in, parse, two,
  four, minutes, show_zone, time_string, unmarshal_time, iso8601_time, zero_time,
}
use microservices_trading_bo.Bitso.Time.Digits.{
  Offset, east, west, two_digits, one_or_two_digits, four_digits, within, unnamed_fraction,
  read_zone, is_digit, is_separator, zone_from, offset, colon,
}

two_digits-two : (n : ℕ) (s : Text) → n < 100 → two_digits (two n ++ s) ≡ ok (n, s)
unfolding two_digits two is_digit
two_digits-two n s h = ground arith

two_digits-last : (n : ℕ) → n < 100 → two_digits (two n) ≡ ok (n, [])
unfolding two_digits two is_digit
two_digits-last n h = ground arith

one_or_two_digits-two : (n : ℕ) (s : Text) → n < 100 → one_or_two_digits (two n ++ s) ≡ ok (n, s)
unfolding one_or_two_digits two_digits two is_digit
one_or_two_digits-two n s h = ground arith

four_digits-four : (n : ℕ) (s : Text) → n < 10000 → four_digits (four n ++ s) ≡ ok (n, s)
unfolding four_digits four all_digits value_from
four_digits-four n s h = ground arith

-- An offset below 25 hours, and west only if there is one.
abbrev pub IsOffset : Offset → Type 0
IsOffset (east n) = n < 1500
IsOffset (west n) = (1 ≤ n) × (n < 1500)

-- A date of the calendar in the years 0 to 9999, with a time of day.
pub record IsMoment (t : Time) : Type 0 where
  pub years : t.year < 10000
  pub months : (1 ≤ t.month) × (t.month ≤ 12)
  pub days : (1 ≤ t.day) × (t.day ≤ days_in t.month t.year)
  pub hours : t.hour < 24
  pub minutes_in : t.minute < 60
  pub seconds : t.second < 60
  pub offsets : IsOffset t.zone

read_zone-minutes :
    (sign n : ℕ)
    → n < 1500
    → read_zone false (minutes sign n) ≡ zone_from sign (n / 60, two (n % 60)) (n % 60, [])
unfolding read_zone minutes colon
read_zone-minutes sign n h =
    rw
      (
        read_zone,
        two_digits-two (n / 60) (two (n % 60)) (omega arith),
        two_digits-last (n % 60) (omega arith),
      )
      refl

read_zone-show_zone : (z : Offset) → IsOffset z → read_zone false (show_zone z) ≡ ok (z, [])
unfolding show_zone zone_from offset
read_zone-show_zone (east n) h = ground (arith, read_zone-minutes b'+' n)
read_zone-show_zone (west n) h = ground (arith, read_zone-minutes b'-' n)

-- What follows the seconds is no fraction.
unnamed_fraction-show_zone : (z : Offset) → unnamed_fraction false (show_zone z) ≡ (0, show_zone z)
unfolding show_zone minutes unnamed_fraction is_separator
unnamed_fraction-show_zone (east n) = refl
unnamed_fraction-show_zone (west n) = refl

then_elements :
    (e : Element) (es : List Element) (t t' : Time) (s s' : Text)
    → read_element e es t s ≡ ok (t', s')
    → read_elements (e ∷ es) t s ≡ read_elements es t' s'
unfolding read_elements
then_elements e es t t' s s' h = rw h refl

year_element :
    (es : List Element) (t : Time) (n : ℕ) (s : Text)
    → n < 10000
    → read_elements (the_year ∷ es) t (four n ++ s) ≡ read_elements es (record t { year = n }) s
unfolding read_element
year_element es t n s h = then_elements the_year es t _ _ s (rw (four_digits-four n s h) refl)

month_element :
    (es : List Element) (t : Time) (n : ℕ) (s : Text)
    → (1 ≤ n) × (n ≤ 12)
    → read_elements (the_month ∷ es) t (two n ++ s) ≡ read_elements es (record t { month = n }) s
unfolding read_element within
month_element es t n s h =
    then_elements the_month es t _ _ s (rw (two_digits-two n s (omega arith)) (ground arith))

day_element :
    (es : List Element) (t : Time) (n : ℕ) (s : Text)
    → n < 100
    → read_elements (the_day ∷ es) t (two n ++ s) ≡ read_elements es (record t { day = n }) s
unfolding read_element
day_element es t n s h = then_elements the_day es t _ _ s (rw (two_digits-two n s h) refl)

hour_element :
    (es : List Element) (t : Time) (n : ℕ) (s : Text)
    → n < 24
    → read_elements (the_hour ∷ es) t (two n ++ s) ≡ read_elements es (record t { hour = n }) s
unfolding read_element within
hour_element es t n s h =
    then_elements the_hour es t _ _ s (rw (one_or_two_digits-two n s (omega arith)) (ground arith))

minute_element :
    (es : List Element) (t : Time) (n : ℕ) (s : Text)
    → n < 60
    → read_elements (the_minute ∷ es) t (two n ++ s) ≡ read_elements es (record t { minute = n }) s
unfolding read_element within
minute_element es t n s h =
    then_elements the_minute es t _ _ s (rw (two_digits-two n s (omega arith)) (ground arith))

second_element :
    (es : List Element) (t : Time) (n : ℕ) (s : Text)
    → n < 60
    → unnamed_fraction (names_fraction es) s ≡ (0, s)
    → read_elements (the_second ∷ es) t (two n ++ s)
      ≡ read_elements es (record t { second = n; nanosecond = 0 }) s
unfolding read_element within
second_element es t n s h none =
    then_elements the_second es t _ _ s
      (rw (two_digits-two n s (omega arith)) (ground (arith, none)))

zone_element :
    (t : Time) (z : Offset)
    → IsOffset z
    → read_elements (the_zone ∷ []) t (show_zone z) ≡ ok (record t { zone = z })
unfolding read_element read_elements
zone_element t z h = rw (read_zone-show_zone z h) refl

separator_element :
    (es : List Element) (t : Time) (c : ℕ) (s : Text)
    → read_elements (separator c ∷ es) t (c ∷ s) ≡ read_elements es t s
unfolding read_element
separator_element es t c s = then_elements (separator c) es t t _ s (ground arith)

days_in-le : (m y : ℕ) → days_in m y < 100
unfolding days_in
days_in-le m y = ground arith

-- The whole text, in the first of the formats.
read_elements-time_string :
    (t t' : Time)
    → IsMoment t
    → read_elements iso8601_time t' (time_string t) ≡ ok (record t { nanosecond = 0 })
unfolding time_string names_fraction
read_elements-time_string t t' v =
    year_element _ _ _ _ v.years
    ∙ separator_element _ _ _ _
    ∙ month_element _ _ _ _ v.months
    ∙ separator_element _ _ _ _
    ∙ day_element _ _ t.day _ (omega (arith, v.days, days_in-le t.month t.year))
    ∙ separator_element _ _ _ _
    ∙ hour_element _ _ _ _ v.hours
    ∙ separator_element _ _ _ _
    ∙ minute_element _ _ _ _ v.minutes_in
    ∙ separator_element _ _ _ _
    ∙ second_element (the_zone ∷ []) _ _ _ v.seconds (unnamed_fraction-show_zone t.zone)
    ∙ zone_element _ _ v.offsets

is_date-days : (t : Time) → IsMoment t → is_date t ≡ true
unfolding is_date
is_date-days t v = ground (arith, v.days)

parse-time_string :
    (t : Time) → IsMoment t → parse iso8601_time (time_string t) ≡ ok (record t { nanosecond = 0 })
unfolding parse is_date
parse-time_string t v =
    rw (parse, read_elements-time_string t (record zero_time { year = 0 }) v, is_date-days t v) refl

-- A time whose date is one of the calendar in the years 0 to 9999, and whose offset is below 25 hours, is
-- read back from its text in JSON, without the fraction of its second.
pub unmarshal_time-time_string :
    (t : Time)
    → IsMoment t
    → unmarshal_time (str (time_string t)) ≡ ok (record t { nanosecond = 0 })
unfolding unmarshal_time parse_any
unmarshal_time-time_string t v = rw (unmarshal_time, parse_any, parse-time_string t v) refl
