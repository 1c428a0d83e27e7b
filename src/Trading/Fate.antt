-- ===== src/Trading/Fate.antt =====
-- How a piece of a program ends, where the program itself may end with it.
use microservices_trading_bo.Common.{◌≡◌, ◌⊎◌, refl, inl, inr}

-- A panic is recovered by the server that called the handler. What kills the program is
-- `log.Fatal`, or a panic in a goroutine that nothing recovers.
pub data Fate {ℓ} (A : Type ℓ) : Type ℓ where
  returns : A → Fate A
  waits panics dies : Fate A

infixl 5 ◌>>=◌
abbrev pub ◌>>=◌ {ℓ κ} : {A : Type ℓ} {B : Type κ} → Fate A → (A → Fate B) → Fate B
returns a >>= f = f a
waits >>= f = waits
panics >>= f = panics
dies >>= f = dies

-- What a chain that returns went through.
pub >>=-eq-returns {ℓ κ} :
    {A : Type ℓ} {B : Type κ} (first : Fate A) (next : A → Fate B) {b : B}
    → first >>= next ≡ returns b
    → (a : A) × (first ≡ returns a) × (next a ≡ returns b)
>>=-eq-returns (returns a) next e = (a, refl, e)
>>=-eq-returns waits next e = cc
>>=-eq-returns panics next e = cc
>>=-eq-returns dies next e = cc

pub Fate-cases {ℓ} :
    {A : Type ℓ} (r : Fate A)
    → ((a : A) × (r ≡ returns a)) ⊎ ((r ≡ waits) ⊎ ((r ≡ panics) ⊎ (r ≡ dies)))
Fate-cases (returns a) = inl (a, refl)
Fate-cases waits = inr (inl refl)
Fate-cases panics = inr (inr (inl refl))
Fate-cases dies = inr (inr (inr refl))
