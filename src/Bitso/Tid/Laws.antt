-- ===== src/Bitso/Tid/Laws.antt =====
-- A transaction id is read alike from a JSON number and from a JSON string.
use microservices_trading_bo.Common.{
  ℕ, ◌+◌, ◌*◌, ◌-◌, ◌≤◌, ◌<◌, ◌≡◌, ◌≢◌, ◌↔◌, refl, ap, ◌∙◌, ◌%◌, Text, [], ◌∷◌, true, ok, panics,
  arith, value_from, all_digits,
}
use microservices_trading_bo.Bitso.Json.{Json, null, bool, num, str, composite}
use microservices_trading_bo.Bitso.Tid.{u64_mod, cutoff, parse_from, parse_uint, unmarshal_tid}

le-value_from : (n : ℕ) (s : Text) → n ≤ value_from n s
unfolding value_from
le-value_from n [] = omega arith
le-value_from n (c ∷ s) = omega (arith, le-value_from (n * 10 + (c - b'0')) s)

-- Without the wrap-around that the loop tests for, a round is exact.
exact :
    (n d : ℕ)
    → n < cutoff
    → d ≤ 9
    → n * 10 ≤ (n * 10 + d) % u64_mod
    → ((n * 10 + d) % u64_mod ≡ n * 10 + d) × (n * 10 + d < u64_mod)
exact n d h k w = (omega arith, omega arith)

parse_from_sound :
    (n : ℕ) (s : Text) (v : ℕ)
    → n < u64_mod
    → parse_from n s ≡ ok v
    → (all_digits s ≡ true) × (value_from n s ≡ v) × (v < u64_mod)
unfolding parse_from value_from all_digits
parse_from_sound n [] v h e = ground arith
parse_from_sound n (c ∷ s) v h e =
    ground (arith, exact n (c - b'0'), parse_from_sound ((n * 10 + (c - b'0')) % u64_mod) s v)

parse_from_complete :
    (n : ℕ) (s : Text)
    → all_digits s ≡ true
    → value_from n s < u64_mod
    → parse_from n s ≡ ok (value_from n s)
unfolding parse_from value_from all_digits
parse_from_complete n [] d h = refl
parse_from_complete n (c ∷ s) d h =
    let bound = le-value_from (n * 10 + (c - b'0')) s in
    let whole : (n * 10 + (c - b'0')) % u64_mod ≡ n * 10 + (c - b'0') = omega arith in
    ground (arith, whole, parse_from_complete (n * 10 + (c - b'0')) s)

-- The text is the decimal digits of `v`, which is below 2 ^ 64.
pub record IsUint64 (s : Text) (v : ℕ) : Type 0 where
  pub some_digit : s ≢ []
  pub digits : all_digits s ≡ true
  pub value : value_from 0 s ≡ v
  pub fits : v < u64_mod

pub parse_uint_iff : (s : Text) (v : ℕ) → (parse_uint s ≡ ok v) ↔ IsUint64 s v
unfolding parse_uint
parse_uint_iff [] v = (λ h. cc, λ u. absurd (u.some_digit refl))
parse_uint_iff (c ∷ s) v = (
  λ h.
      let (d, e, f) = parse_from_sound 0 (c ∷ s) v (omega arith) h in
      record { some_digit = λ e. cc; digits = d; value = e; fits = f },
  λ u. parse_from_complete 0 (c ∷ s) u.digits (omega (arith, u.value, u.fits)) ∙ ap ok u.value,
)

-- A transaction id is read from a JSON number exactly as from a JSON string with the same text: to
-- `v` if the text is the decimal digits of `v` and `v` fits 64 bits, and to no value otherwise.
pub unmarshal_tid_iff :
    (s : Text) (v : ℕ)
    → ((unmarshal_tid (num s) ≡ ok v) ↔ IsUint64 s v)
      × ((unmarshal_tid (str s) ≡ ok v) ↔ IsUint64 s v)
unfolding unmarshal_tid
unmarshal_tid_iff s v = (ground (arith, parse_uint_iff s v), parse_uint_iff s v)

parse_from-ne-panics : (n : ℕ) (s : Text) → parse_from n s ≢ panics
unfolding parse_from
parse_from-ne-panics n [] e = cc
parse_from-ne-panics n (c ∷ s) e =
    ground (arith, e, parse_from-ne-panics ((n * 10 + (c - b'0')) % u64_mod) s)

pub parse_uint-ne-panics : (s : Text) → parse_uint s ≢ panics
unfolding parse_uint
parse_uint-ne-panics [] e = cc
parse_uint-ne-panics (c ∷ s) e = parse_from-ne-panics 0 (c ∷ s) e

-- Reading a transaction id gives one or an error.
pub unmarshal_tid-ne-panics : (j : Json) → unmarshal_tid j ≢ panics
unfolding unmarshal_tid
unmarshal_tid-ne-panics null e = cc
unmarshal_tid-ne-panics (bool b) e = cc
unmarshal_tid-ne-panics (num s) e = ground (arith, e, parse_uint-ne-panics s)
unmarshal_tid-ne-panics (str s) e = parse_uint-ne-panics s e
unmarshal_tid-ne-panics composite e = cc
