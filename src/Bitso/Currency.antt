-- ===== src/Bitso/Currency.antt =====
-- data_server/bitso/currency.go. `strings.ToLower` is written out on ASCII; what it does to a code
-- point from 128 on is the function `beyond`.
use microservices_trading_bo.Common.{
  ℕ, ◌+◌, ◌≤◌, ◌≡◌, ◌≢◌, Text, codes, List, ◌&&◌, [], map, Outcome, ok, panics, ◌>>=◌, ltb, leb,
  if◌then◌else◌, arith, refl, ◌∷◌,
}
use microservices_trading_bo.Bitso.Json.{Json, str, Column, text, Error, unmarshal_text}

-- The constants of the package, `CurrencyNone` first.
abbrev pub currency_names : List Text
currency_names =
    []
    ∷ codes "aave"
    ∷ codes "ars"
    ∷ codes "axs"
    ∷ codes "bat"
    ∷ codes "bch"
    ∷ codes "brl"
    ∷ codes "btc"
    ∷ codes "chz"
    ∷ codes "comp"
    ∷ codes "dai"
    ∷ codes "dydx"
    ∷ codes "eth"
    ∷ codes "link"
    ∷ codes "ltc"
    ∷ codes "mana"
    ∷ codes "mxn"
    ∷ codes "sand"
    ∷ codes "tusd"
    ∷ codes "uni"
    ∷ codes "usd"
    ∷ codes "usdt"
    ∷ codes "xrp"
    ∷ codes "yfi"
    ∷ []

-- `unicode.ToLower`
unfoldable pub rune_lower : (ℕ → ℕ) → ℕ → ℕ
rune_lower beyond c =
    if ltb c 128 then (if leb b'A' c && leb c b'Z' then c + 32 else c) else beyond c

-- What `unicode.ToLower` is documented to do beyond ASCII: its results are in lower case. None of
-- them is the underscore, which is no letter.
pub record IsLowering (beyond : ℕ → ℕ) : Type 0 where
  pub settled : (c : ℕ) → 128 ≤ c → rune_lower beyond (beyond c) ≡ beyond c
  pub letter : (c : ℕ) → 128 ≤ c → beyond c ≢ b'_'

-- `strings.ToLower`
unfoldable pub to_lower : (ℕ → ℕ) → Text → Text
unfolding rune_lower
to_lower beyond s = map (rune_lower beyond) s

unfoldable pub to_currency : (ℕ → ℕ) → Text → Text
unfolding to_lower
to_currency beyond name = to_lower beyond name

abbrev pub currency_string : Text → Text
currency_string c = c

unfoldable pub marshal_currency : Text → Outcome Error Json
marshal_currency c = ok (str (currency_string c))

unfoldable pub unmarshal_currency : (ℕ → ℕ) → Json → Outcome Error Text
unfolding unmarshal_text to_currency
unmarshal_currency beyond json = do z ← unmarshal_text json; ok (to_currency beyond z)

unfoldable pub currency_value : Text → Outcome Error Column
currency_value c = ok (text (currency_string c))

-- The type assertion has no test for an absent value before it.
unfoldable pub scan_currency : (ℕ → ℕ) → Text → Column → Outcome Error Text
unfolding to_currency
scan_currency beyond c (text z) = ok (to_currency beyond z)
scan_currency beyond c _ = panics

module _ {beyond : ℕ → ℕ} (low : IsLowering beyond) where
  pub rune_lower_idem : (c : ℕ) → rune_lower beyond (rune_lower beyond c) ≡ rune_lower beyond c
  unfolding rune_lower
  rune_lower_idem c = ground (arith, low.settled c)

  pub to_lower_idem : (s : Text) → to_lower beyond (to_lower beyond s) ≡ to_lower beyond s
  unfolding to_lower
  to_lower_idem [] = refl
  to_lower_idem (c ∷ s) = cc (rune_lower_idem c, to_lower_idem s)

  -- Lowering makes no underscore and removes none.
  pub rune_lower-eq-underscore : (c : ℕ) → rune_lower beyond c ≡ b'_' → c ≡ b'_'
  unfolding rune_lower
  rune_lower-eq-underscore c h = ground (arith, low.letter c)
