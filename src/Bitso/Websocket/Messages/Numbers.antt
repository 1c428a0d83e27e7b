-- ===== src/Bitso/Websocket/Messages/Numbers.antt =====
-- What encoding/json does with the numbers of data_server/bitso/websocket.go: the fields of the types
-- uint64, int and float64.
use microservices_trading_bo.Common.{
  refl, ℕ, ◌-◌, ◌<◌, ◌≡◌, Text, [], ◌∷◌, ◌==◌, ltb, leb, if◌then◌else◌, Option, none, some, Outcome,
  ok, err, ◌>>=◌, show_nat, ◌+◌, ◌≢◌, true, all_digits, show_nat-ne-nil, all_digits-show_nat, arith,
  Bool-cases, Option-cases, inl, inr,
}
use microservices_trading_bo.Bitso.Atoi.{ℤ, pos, negsuc, i64_bound}
use microservices_trading_bo.Bitso.Json.{Error, json_type, number_syntax, number_range}
use microservices_trading_bo.Bitso.Tid.{u64_mod, parse_uint}
use microservices_trading_bo.Bitso.Tid.Laws.{parse_uint_iff, parse_uint-ne-panics}
use microservices_trading_bo.Bitso.Value.Laws.{Holds, Holds-intro, Holds->>=, Anything, Keeps}
use microservices_trading_bo.Bitso.Answers.Sound.{IsTid}
use microservices_trading_bo.Bitso.Ranges.{parse_uint-show_nat}
use microservices_trading_bo.Bitso.Value.{null, bool, num, str, array, object, Setter}

unfoldable pub set_uint : Setter ℕ
unfolding parse_uint
set_uint old null = ok old
set_uint old (num lit) = parse_uint lit
set_uint old _ = err json_type

negative : ℕ → Outcome Error ℤ
negative n =
    if ltb i64_bound n then err number_range else if n == 0 then ok (pos 0) else ok (negsuc (n - 1))

positive : ℕ → Outcome Error ℤ
positive n = if leb i64_bound n then err number_range else ok (pos n)

-- `ParseInt` in base 10: the sign, and the digits as of an unsigned number.
unfoldable pub parse_int : Text → Outcome Error ℤ
unfolding parse_uint negative positive
parse_int [] = err number_syntax
parse_int (c ∷ s) =
    if c == b'-'
    then parse_uint s >>= negative
    else if c == b'+'
    then parse_uint s >>= positive
    else parse_uint (c ∷ s) >>= positive

unfoldable pub set_int : Setter ℤ
unfolding parse_int
set_int old null = ok old
set_int old (num lit) = parse_int lit
set_int old _ = err json_type

unfoldable pub set_float : {Float : Type 0} → (Text → Option Float) → Setter Float
set_float parse_float old null = ok old
set_float parse_float old (num lit) = elim (parse_float lit) [
  | none ↦ err json_type
  | some x ↦ ok x
]
set_float parse_float old _ = err json_type

-- A 64-bit number of either sign.
pub data IsInt64 : ℤ → Type 0 where
  at_least_zero : {n : ℕ} → n < i64_bound → IsInt64 (pos n)
  below_zero : {n : ℕ} → n < i64_bound → IsInt64 (negsuc n)

-- A number that was decoded is below 2 ^ 64.
pub Keeps-set_uint : Keeps IsTid set_uint
unfolding set_uint
Keeps-set_uint a null p = p
Keeps-set_uint a (num lit) p =
    Holds-intro IsTid (parse_uint lit) (parse_uint-ne-panics lit)
      (λ v e. ((parse_uint_iff lit v).0 e).fits)
Keeps-set_uint a (bool b) p = tt
Keeps-set_uint a (str b) p = tt
Keeps-set_uint a (array b) p = tt
Keeps-set_uint a (object b) p = tt

negative-IsInt64 : (n : ℕ) → Holds IsInt64 (negative n)
unfolding negative
negative-IsInt64 n = elim (Bool-cases (ltb i64_bound n)) [
  | inl out ↦ rw (negative, out) tt
  | inr in_range ↦ elim (Bool-cases (n == 0)) [
    | inl zero ↦ rw (negative, in_range, zero) (at_least_zero (omega arith))
    | inr some_left ↦
        rw (negative, in_range, some_left) (below_zero (ground (arith, in_range, some_left)))
  ]
]

positive-IsInt64 : (n : ℕ) → Holds IsInt64 (positive n)
unfolding positive
positive-IsInt64 n = elim (Bool-cases (leb i64_bound n)) [
  | inl out ↦ rw (positive, out) tt
  | inr in_range ↦ rw (positive, in_range) (at_least_zero (ground (arith, in_range)))
]

parsed-IsInt64 :
    (s : Text) (signed : ℕ → Outcome Error ℤ)
    → ((n : ℕ) → Holds IsInt64 (signed n))
    → Holds IsInt64 (parse_uint s >>= signed)
parsed-IsInt64 s signed h =
    Holds->>= Anything IsInt64 (parse_uint s) signed
      (Holds-intro Anything (parse_uint s) (parse_uint-ne-panics s) (λ _ _. tt)) (λ n _. h n)

parse_int-IsInt64 : (s : Text) → Holds IsInt64 (parse_int s)
unfolding parse_int
parse_int-IsInt64 [] = tt
parse_int-IsInt64 (c ∷ s) = elim (Bool-cases (c == b'-')) [
  | inl minus ↦ rw (parse_int, minus) (parsed-IsInt64 s negative negative-IsInt64)
  | inr other ↦ elim (Bool-cases (c == b'+')) [
    | inl plus ↦ rw (parse_int, other, plus) (parsed-IsInt64 s positive positive-IsInt64)
    | inr digit ↦ rw (parse_int, other, digit) (parsed-IsInt64 (c ∷ s) positive positive-IsInt64)
  ]
]

pub Keeps-set_int : Keeps IsInt64 set_int
unfolding set_int
Keeps-set_int a null p = p
Keeps-set_int a (num lit) p = parse_int-IsInt64 lit
Keeps-set_int a (bool b) p = tt
Keeps-set_int a (str b) p = tt
Keeps-set_int a (array b) p = tt
Keeps-set_int a (object b) p = tt

module _ {Float : Type 0} (parse_float : Text → Option Float) where
  pub Keeps-set_float : Keeps Anything (set_float parse_float)
  unfolding set_float
  Keeps-set_float a null p = tt
  Keeps-set_float a (num lit) p = elim (Option-cases (parse_float lit)) [
    | inl bad ↦ rw (set_float, bad) tt
    | inr (x, good) ↦ rw (set_float, good) tt
  ]
  Keeps-set_float a (bool b) p = tt
  Keeps-set_float a (str b) p = tt
  Keeps-set_float a (array b) p = tt
  Keeps-set_float a (object b) p = tt

  pub set_float-parsed :
      (old x : Float) (lit : Text)
      → parse_float lit ≡ some x
      → set_float parse_float old (num lit) ≡ ok x
  unfolding set_float
  set_float-parsed old x lit e = rw (set_float, e) refl

-- A number is read from its own decimal digits.
pub set_uint-show_nat : (old n : ℕ) → n < u64_mod → set_uint old (num (show_nat n)) ≡ ok n
unfolding set_uint
set_uint-show_nat old n h = parse_uint-show_nat n h

abbrev pub show_int : ℤ → Text
show_int (pos n) = show_nat n
show_int (negsuc n) = b'-' ∷ show_nat (n + 1)

-- The first character of a number without a sign is a digit.
parse_int-digits :
    (s : Text) (n : ℕ)
    → s ≢ []
    → all_digits s ≡ true
    → parse_uint s ≡ ok n
    → n < i64_bound
    → parse_int s ≡ ok (pos n)
unfolding parse_int all_digits positive
parse_int-digits [] n some_digit d e h = absurd (some_digit refl)
parse_int-digits (c ∷ s) n some_digit d e h = ground (arith, d, e, h)

pub parse_int-show_int : (z : ℤ) → IsInt64 z → parse_int (show_int z) ≡ ok z
unfolding parse_int negative
parse_int-show_int (pos n) (at_least_zero h) =
    parse_int-digits (show_nat n) n (show_nat-ne-nil n) (all_digits-show_nat n)
      (parse_uint-show_nat n (omega (arith, h))) h
parse_int-show_int (negsuc n) (below_zero h) =
    rw (parse_int, parse_uint-show_nat (n + 1) (omega (arith, h))) (ground (arith, h))

pub set_int-show_int : (old z : ℤ) → IsInt64 z → set_int old (num (show_int z)) ≡ ok z
unfolding set_int
set_int-show_int old z h = parse_int-show_int z h
