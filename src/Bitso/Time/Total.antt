-- ===== src/Bitso/Time/Total.antt =====
-- Reading a time from JSON does not panic.
use microservices_trading_bo.Common.{
  ℕ, >>=-ne-panics, ◌≢◌, Text, Bool, true, false, List, [], ◌∷◌, Outcome, ok, err, panics, ◌>>=◌,
  arith, Outcome-cases, inl, inr,
}
use microservices_trading_bo.Bitso.Json.{Json, Error, unmarshal_text, unmarshal_text-ne-panics}
use microservices_trading_bo.Bitso.Time.{
  Time, Element, read_element, read_elements, parse, parse_any, unmarshal_time, zero_time,
  time_formats, the_year, the_month, the_day, the_hour, the_minute, the_second, the_fraction,
  the_zone, the_colon_zone, separator,
}
use microservices_trading_bo.Bitso.Time.Digits.{
  two_digits, one_or_two_digits, four_digits, within, named_fraction, three_digits, read_zone,
  zone_from, offset, colon,
}

two_digits-ne-panics : (s : Text) → two_digits s ≢ panics
unfolding two_digits
two_digits-ne-panics [] e = cc
two_digits-ne-panics (a ∷ []) e = cc
two_digits-ne-panics (a ∷ b ∷ s) e = ground (arith, e)

one_or_two_digits-ne-panics : (s : Text) → one_or_two_digits s ≢ panics
unfolding one_or_two_digits
one_or_two_digits-ne-panics [] e = cc
one_or_two_digits-ne-panics (a ∷ []) e = ground (arith, e)
one_or_two_digits-ne-panics (a ∷ b ∷ s) e = ground (arith, e, two_digits-ne-panics (a ∷ b ∷ s))

four_digits-ne-panics : (s : Text) → four_digits s ≢ panics
unfolding four_digits
four_digits-ne-panics (a ∷ b ∷ c ∷ d ∷ s) e = ground (arith, e)
four_digits-ne-panics (a ∷ b ∷ c ∷ []) e = cc
four_digits-ne-panics (a ∷ b ∷ []) e = cc
four_digits-ne-panics (a ∷ []) e = cc
four_digits-ne-panics [] e = cc

within-ne-panics : (low high : ℕ) (n : ℕ × Text) → within low high n ≢ panics
unfolding within
within-ne-panics low high (n, s) e = ground (arith, e)

three_digits-ne-panics : (s : Text) → three_digits s ≢ panics
unfolding three_digits
three_digits-ne-panics [] e = cc
three_digits-ne-panics (c ∷ s) e = ground (arith, e)

named_fraction-ne-panics : (s : Text) → named_fraction s ≢ panics
unfolding named_fraction
named_fraction-ne-panics (p ∷ a ∷ b ∷ c ∷ s) e =
    ground (arith, e, three_digits-ne-panics (a ∷ b ∷ c ∷ []))
named_fraction-ne-panics (p ∷ a ∷ b ∷ []) e = cc
named_fraction-ne-panics (p ∷ a ∷ []) e = cc
named_fraction-ne-panics (p ∷ []) e = cc
named_fraction-ne-panics [] e = cc

zone_from-ne-panics : (sign : ℕ) (h m : ℕ × Text) → zone_from sign h m ≢ panics
unfolding zone_from offset
zone_from-ne-panics sign (h, _) (m, rest) e = ground (arith, e)

colon-ne-panics : (b : Bool) (s : Text) → colon b s ≢ panics
unfolding colon
colon-ne-panics false s e = cc
colon-ne-panics true [] e = cc
colon-ne-panics true (c ∷ s) e = ground (arith, e)

read_zone-ne-panics : (b : Bool) (s : Text) → read_zone b s ≢ panics
unfolding read_zone
read_zone-ne-panics b [] = λ e. cc
read_zone-ne-panics b (sign ∷ s) = >>=-ne-panics (two_digits s) _ (two_digits-ne-panics s) (λ h.
    >>=-ne-panics (colon b h.1) _ (colon-ne-panics b h.1) (λ rest.
      >>=-ne-panics (two_digits rest) _ (two_digits-ne-panics rest)
        (λ m. zone_from-ne-panics sign h m)))

-- What is done with a value that was read cannot panic.
then_ok {ℓ} :
    {A : Type ℓ} (m : Outcome Error A) (f : A → Time × Text)
    → m ≢ panics
    → m >>= (λ a. ok (f a)) ≢ panics
then_ok m f h = >>=-ne-panics m _ h (λ a e. cc)

read_element-ne-panics :
    (e : Element) (es : List Element) (t : Time) (s : Text) → read_element e es t s ≢ panics
unfolding read_element
read_element-ne-panics the_year es t s = then_ok (four_digits s) _ (four_digits-ne-panics s)
read_element-ne-panics the_month es t s =
    >>=-ne-panics (two_digits s) _ (two_digits-ne-panics s)
      (λ n. then_ok (within 1 12 n) _ (within-ne-panics 1 12 n))
read_element-ne-panics the_day es t s = then_ok (two_digits s) _ (two_digits-ne-panics s)
read_element-ne-panics the_hour es t s =
    >>=-ne-panics (one_or_two_digits s) _ (one_or_two_digits-ne-panics s)
      (λ n. then_ok (within 0 23 n) _ (within-ne-panics 0 23 n))
read_element-ne-panics the_minute es t s =
    >>=-ne-panics (two_digits s) _ (two_digits-ne-panics s)
      (λ n. then_ok (within 0 59 n) _ (within-ne-panics 0 59 n))
read_element-ne-panics the_second es t s =
    >>=-ne-panics (two_digits s) _ (two_digits-ne-panics s)
      (λ n. then_ok (within 0 59 n) _ (within-ne-panics 0 59 n))
read_element-ne-panics the_fraction es t s =
    then_ok (named_fraction s) _ (named_fraction-ne-panics s)
read_element-ne-panics the_zone es t s = then_ok (read_zone false s) _ (read_zone-ne-panics false s)
read_element-ne-panics the_colon_zone es t s =
    then_ok (read_zone true s) _ (read_zone-ne-panics true s)
read_element-ne-panics (separator c) es t [] = λ e. cc
read_element-ne-panics (separator c) es t (d ∷ s) = λ e. ground (arith, e)

read_elements-ne-panics : (es : List Element) (t : Time) (s : Text) → read_elements es t s ≢ panics
unfolding read_elements
read_elements-ne-panics [] t [] = λ e. cc
read_elements-ne-panics [] t (c ∷ s) = λ e. cc
read_elements-ne-panics (e ∷ es) t s =
    >>=-ne-panics (read_element e es t s) _ (read_element-ne-panics e es t s)
      (λ r. read_elements-ne-panics es r.0 r.1)

parse-ne-panics : (layout : List Element) (s : Text) → parse layout s ≢ panics
unfolding parse
parse-ne-panics layout s =
    >>=-ne-panics (read_elements layout (record zero_time { year = 0 }) s) _
      (read_elements-ne-panics layout _ s) (λ t e. ground (arith, e))

parse_any-ne-panics :
    (last : Outcome Error Time) (fs : List (List Element)) (s : Text)
    → last ≢ panics
    → parse_any last fs s ≢ panics
unfolding parse_any
parse_any-ne-panics last [] s h e = h e
parse_any-ne-panics last (f ∷ fs) s h e = elim (Outcome-cases (parse f s)) [
  | inl (z, p) ↦ ground (arith, e, p)
  | inr (inl (fault, p)) ↦ parse_any-ne-panics (err fault) fs s (λ q. cc) (rw (parse_any, p) at e)
  | inr (inr p) ↦ parse-ne-panics f s p
]

pub unmarshal_time-ne-panics : (j : Json) → unmarshal_time j ≢ panics
unfolding unmarshal_time
unmarshal_time-ne-panics j =
    >>=-ne-panics (unmarshal_text j) _ (unmarshal_text-ne-panics j)
      (λ s. parse_any-ne-panics (ok zero_time) time_formats s (λ e. cc))
