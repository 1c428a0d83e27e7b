-- ===== src/Bitso/Time/Reading.antt =====
-- What is read from JSON is a time that its text gives back.
use microservices_trading_bo.Common.{
  ℕ, ◌≤◌, ◌<◌, ◌≡◌, ◌≢◌, ◌∙◌, Text, Bool, true, false, List, [], ◌∷◌, Outcome, ok, err,
  if◌then◌else◌, Outcome-cases, Bool-cases, inl, inr, ap, >>=-eq-ok, subst, arith, all_digits,
  value_from,
}
use microservices_trading_bo.Bitso.Json.{Error, str, Json, time_format, unmarshal_text}
use microservices_trading_bo.Bitso.Time.{
  days_in, parse_any, Time, Element, the_year, the_month, the_day, the_hour, the_minute, the_second,
  the_fraction, the_colon_zone, clock, the_zone, separator, read_element, read_elements, is_date,
  parse, time_string, unmarshal_time, iso8601_time, zero_time,
}
use microservices_trading_bo.Bitso.Time.Digits.{
  Offset, east, west, named_fraction, two_digits, one_or_two_digits, four_digits, within, read_zone,
  zone_from, offset, colon,
}
use microservices_trading_bo.Bitso.Time.Laws.{IsOffset, IsMoment, unmarshal_time-time_string}

-- At most 25 hours, and west only if there is one.
abbrev pub IsBounded : Offset → Type 0
IsBounded (east n) = n ≤ 1500
IsBounded (west n) = (1 ≤ n) × (n ≤ 1500)

-- What holds of a time while it is read, but for the day, whose bound depends on the month and the year.
pub record IsRead (t : Time) : Type 0 where
  pub years : t.year < 10000
  pub months : (1 ≤ t.month) × (t.month ≤ 12)
  pub hours : t.hour < 24
  pub minutes_in : t.minute < 60
  pub seconds : t.second < 60
  pub offsets : IsBounded t.zone

value_from-below :
    (a b c d : ℕ)
    → all_digits (a ∷ b ∷ c ∷ d ∷ []) ≡ true
    → value_from 0 (a ∷ b ∷ c ∷ d ∷ []) < 10000
unfolding all_digits value_from
value_from-below a b c d h = ground (arith, h)

four_digits-below : (s : Text) (n : ℕ × Text) → four_digits s ≡ ok n → n.0 < 10000
unfolding four_digits
four_digits-below (a ∷ b ∷ c ∷ d ∷ s) n h = ground (arith, h, value_from-below a b c d)
four_digits-below (a ∷ b ∷ c ∷ []) n h = cc
four_digits-below (a ∷ b ∷ []) n h = cc
four_digits-below (a ∷ []) n h = cc
four_digits-below [] n h = cc

within-bounds :
    (low high : ℕ) (n m : ℕ × Text) → within low high n ≡ ok m → (low ≤ m.0) × (m.0 ≤ high)
unfolding within
within-bounds low high (n, s) m h = ground (arith, h)

zone_from-IsBounded :
    (sign : ℕ) (h m : ℕ × Text) (z : Offset × Text) → zone_from sign h m ≡ ok z → IsBounded z.0
unfolding zone_from offset
zone_from-IsBounded sign (h, _) (m, rest) (east n, s) e = ground (arith, e)
zone_from-IsBounded sign (h, _) (m, rest) (west n, s) e = ground (arith, e)

read_zone-IsBounded :
    (with_colon : Bool) (s : Text) (z : Offset × Text)
    → read_zone with_colon s ≡ ok z
    → IsBounded z.0
unfolding read_zone
read_zone-IsBounded with_colon [] z e = cc
read_zone-IsBounded with_colon (sign ∷ s) z e =
    let (h, _, i) = >>=-eq-ok (two_digits s) _ e in
    let (rest, _, j) = >>=-eq-ok (colon with_colon h.1) _ i in
    let (m, _, k) = >>=-eq-ok (two_digits rest) _ j in zone_from-IsBounded sign h m z k

read_element-IsRead :
    (e : Element) (es : List Element) (t : Time) (s : Text) (p : Time × Text)
    → IsRead t
    → read_element e es t s ≡ ok p
    → IsRead p.0
unfolding read_element
read_element-IsRead the_year es t s p r h =
    let (n, e, k) = >>=-eq-ok (four_digits s) _ h in ground (arith, r, k, four_digits-below s n e)
read_element-IsRead the_month es t s p r h =
    let (n, _, l) = >>=-eq-ok (two_digits s) _ h in
    let (m, f, k) = >>=-eq-ok (within 1 12 n) _ l in ground (arith, r, k, within-bounds 1 12 n m f)
read_element-IsRead the_day es t s p r h =
    let (n, _, k) = >>=-eq-ok (two_digits s) _ h in ground (arith, r, k)
read_element-IsRead the_hour es t s p r h =
    let (n, _, l) = >>=-eq-ok (one_or_two_digits s) _ h in
    let (m, f, k) = >>=-eq-ok (within 0 23 n) _ l in ground (arith, r, k, within-bounds 0 23 n m f)
read_element-IsRead the_minute es t s p r h =
    let (n, _, l) = >>=-eq-ok (two_digits s) _ h in
    let (m, f, k) = >>=-eq-ok (within 0 59 n) _ l in ground (arith, r, k, within-bounds 0 59 n m f)
read_element-IsRead the_second es t s p r h =
    let (n, _, l) = >>=-eq-ok (two_digits s) _ h in
    let (m, f, k) = >>=-eq-ok (within 0 59 n) _ l in ground (arith, r, k, within-bounds 0 59 n m f)
read_element-IsRead the_fraction es t s p r h =
    let (n, _, k) = >>=-eq-ok (named_fraction s) _ h in ground (arith, r, k)
read_element-IsRead the_zone es t s p r h =
    let (z, e, k) = >>=-eq-ok (read_zone false s) _ h in
    ground (arith, r, k, read_zone-IsBounded false s z e)
read_element-IsRead the_colon_zone es t s p r h =
    let (z, e, k) = >>=-eq-ok (read_zone true s) _ h in
    ground (arith, r, k, read_zone-IsBounded true s z e)
read_element-IsRead (separator c) es t [] p r h = cc
read_element-IsRead (separator c) es t (d ∷ s) p r h = ground (arith, r, h)

read_elements-IsRead :
    (es : List Element) (t : Time) (s : Text) (t' : Time)
    → IsRead t
    → read_elements es t s ≡ ok t'
    → IsRead t'
unfolding read_elements
read_elements-IsRead [] t [] t' r h = ground (arith, r, h)
read_elements-IsRead [] t (c ∷ s) t' r h = cc
read_elements-IsRead (e ∷ es) t s t' r h =
    let (p, f, k) = >>=-eq-ok (read_element e es t s) _ h in
    read_elements-IsRead es p.0 p.1 t' (read_element-IsRead e es t s p r f) k

IsOffset-IsBounded : (z : Offset) → IsBounded z → z ≢ east 1500 → z ≢ west 1500 → IsOffset z
IsOffset-IsBounded (east n) b e w = omega (arith, λ (f : n ≡ 1500). e (ap east f))
IsOffset-IsBounded (west n) b e w = (b.0, omega (arith, λ (f : n ≡ 1500). w (ap west f)))

IsMoment-IsRead :
    (t : Time) → IsRead t → is_date t ≡ true → t.zone ≢ east 1500 → t.zone ≢ west 1500 → IsMoment t
unfolding is_date
IsMoment-IsRead t r d e w = record {
  years = r.years;
  months = r.months;
  days = ground (arith, d);
  hours = r.hours;
  minutes_in = r.minutes_in;
  seconds = r.seconds;
  offsets = IsOffset-IsBounded t.zone r.offsets e w;
}

dated :
    (p t : Time)
    → IsRead p
    → (if is_date p then ok p else err time_format) ≡ ok t
    → IsRead t × (is_date t ≡ true)
dated p t r k = elim (Bool-cases (is_date p)) [
  | inl d ↦
      let same : p ≡ t = ground (arith, d, k) in
      subst (λ x. IsRead x × (is_date x ≡ true)) same (r, d)
  | inr d ↦ ground (arith, d, k)
]

-- A text that is parsed was read element by element, and its date is one of the calendar.
parse-IsRead :
    (layout : List Element) (s : Text) (t : Time)
    → parse layout s ≡ ok t
    → IsRead t × (is_date t ≡ true)
unfolding parse
parse-IsRead layout s t e =
    let t' = record zero_time { year = 0 } in
    let (p, f, k) = >>=-eq-ok (read_elements layout t' s) _ e in
    let first : IsRead t' = record {
      years = omega arith;
      months = (omega arith, omega arith);
      hours = omega arith;
      minutes_in = omega arith;
      seconds = omega arith;
      offsets = omega arith;
    } in
    dated p t (read_elements-IsRead layout t' s p first f) k

-- The loop gives what one of the formats gives.
parse_any-parse :
    (last : Outcome Error Time) (f : List Element) (fs : List (List Element)) (s : Text) (t : Time)
    → parse_any last (f ∷ fs) s ≡ ok t
    → (layout : List Element) × (parse layout s ≡ ok t)
unfolding parse_any
parse_any-parse last f [] s t h = elim (Outcome-cases (parse f s)) [
  | inl (z, e) ↦ (f, e ∙ (rw (parse_any, e) at h))
  | inr (inl (fault, e)) ↦ ground (arith, e, h)
  | inr (inr e) ↦ ground (arith, e, h)
]
parse_any-parse last f (g ∷ fs) s t h = elim (Outcome-cases (parse f s)) [
  | inl (z, e) ↦ (f, e ∙ (rw (parse_any, e) at h))
  | inr (inl (fault, e)) ↦ parse_any-parse (err fault) g fs s t (rw (parse_any, e) at h)
  | inr (inr e) ↦ ground (arith, e, h)
]

unmarshal_time-IsRead :
    (j : Json) (t : Time) → unmarshal_time j ≡ ok t → IsRead t × (is_date t ≡ true)
unfolding unmarshal_time
unmarshal_time-IsRead j t h =
    let (s, _, k) = >>=-eq-ok (unmarshal_text j) _ h in
    let (layout, f) =
      parse_any-parse (ok zero_time) iso8601_time
        (clock (the_colon_zone ∷ []) ∷ clock (the_fraction ∷ the_colon_zone ∷ []) ∷ []) s t k in
    parse-IsRead layout s t f

-- A time that was read from JSON, in any of the formats, and whose offset is not 25 hours, is read
-- back from its own text as the same time without the fraction of its second.
pub unmarshal_time-again :
    (j : Json) (t : Time)
    → unmarshal_time j ≡ ok t
    → t.zone ≢ east 1500
    → t.zone ≢ west 1500
    → unmarshal_time (str (time_string t)) ≡ ok (record t { nanosecond = 0 })
unmarshal_time-again j t h e w =
    let (r, d) = unmarshal_time-IsRead j t h in
    unmarshal_time-time_string t (IsMoment-IsRead t r d e w)

-- A time as it may be read: its day is one of its month.
abbrev pub IsStamp : Time → Type 0
IsStamp t = IsRead t × (1 ≤ t.day) × (t.day ≤ days_in t.month t.year)

pub unmarshal_time-IsStamp : (j : Json) (t : Time) → unmarshal_time j ≡ ok t → IsStamp t
unfolding is_date
unmarshal_time-IsStamp j t h =
    let (r, d) = unmarshal_time-IsRead j t h in (r, ground (arith, d), ground (arith, d))

pub zero_time-IsStamp : IsStamp zero_time
unfolding days_in
zero_time-IsStamp = (
  record {
    years = omega arith;
    months = (omega arith, omega arith);
    hours = omega arith;
    minutes_in = omega arith;
    seconds = omega arith;
    offsets = omega arith;
  },
  omega arith,
  omega arith,
)
