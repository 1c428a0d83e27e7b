-- ===== src/Bitso/Atoi.antt =====
-- `strconv.Atoi`, as data_server/bitso/client.go uses it: an error of syntax gives 0, and a number out
-- of range gives the bound that it passes.
use microservices_trading_bo.Common.{
  ℕ, ◌-◌, ◌<◌, ◌≡◌, refl, Text, Bool, true, [], ◌∷◌, ◌==◌, leb, text_eq, if◌then◌else◌, all_digits,
  value_from, show_nat, value_from-show_nat, all_digits-show_nat, arith, ◌&&◌, not,
}

pub data ℤ : Type 0 where
  pos negsuc : ℕ → ℤ

-- 2 ^ 63
abbrev pub i64_bound : ℕ
i64_bound = 9223372036854775808

negated : ℕ → ℤ
negated n = if n == 0 then pos 0 else negsuc (n - 1)

at_most : ℕ → ℕ → ℕ
at_most bound n = if leb n bound then n else bound

unsigned : Text → Bool
unsigned s = not (text_eq s []) && all_digits s

unfoldable pub atoi : Text → ℤ
unfolding negated at_most unsigned value_from all_digits
atoi [] = pos 0
atoi (c ∷ s) =
    if c == b'-'
    then (if unsigned s then negated (at_most i64_bound (value_from 0 s)) else pos 0)
    else if c == b'+'
    then (if unsigned s then pos (at_most (i64_bound - 1) (value_from 0 s)) else pos 0)
    else if unsigned (c ∷ s)
    then pos (at_most (i64_bound - 1) (value_from 0 (c ∷ s)))
    else pos 0

digits_atoi :
    (s : Text) → all_digits s ≡ true → value_from 0 s < i64_bound → atoi s ≡ pos (value_from 0 s)
unfolding atoi at_most unsigned all_digits value_from text_eq
digits_atoi [] d h = refl
digits_atoi (c ∷ s) d h = ground arith

-- The code of an error is read back from its decimal digits.
pub atoi-show_nat : (n : ℕ) → n < i64_bound → atoi (show_nat n) ≡ pos n
atoi-show_nat n h =
    rw (value_from-show_nat n) at
      (digits_atoi (show_nat n) (all_digits-show_nat n) (omega (arith, value_from-show_nat n)))
