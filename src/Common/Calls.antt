-- ===== src/Common/Calls.antt =====
-- How a Go call ends: with a value, with an error value, or with a panic.
use mathlib.Core.Path.{◌≡◌, refl}
use mathlib.Core.Logic.{◌≢◌, ◌⊎◌, inl, inr}

pub data Outcome {ℓ κ} (E : Type κ) (A : Type ℓ) : Type (ℓ ⊔ κ) where
  ok : A → Outcome E A
  err : E → Outcome E A
  panics : Outcome E A

infixl 5 ◌>>=◌
abbrev pub ◌>>=◌ {ℓ κ ι} :
    {E : Type κ} {A : Type ℓ} {B : Type ι} → Outcome E A → (A → Outcome E B) → Outcome E B
ok a >>= f = f a
err e >>= f = err e
panics >>= f = panics

pub Outcome-cases {ℓ κ} :
    {E : Type κ} {A : Type ℓ} (o : Outcome E A)
    → ((a : A) × (o ≡ ok a)) ⊎ (((e : E) × (o ≡ err e)) ⊎ (o ≡ panics))
Outcome-cases (ok a) = inl (a, refl)
Outcome-cases (err e) = inr (inl (e, refl))
Outcome-cases panics = inr (inr refl)

-- A chain that ends well went through a first call that ended well.
pub >>=-eq-ok {ℓ κ ι} :
    {Fault : Type κ} {A : Type ℓ} {C : Type ι} (first : Outcome Fault A)
    (next : A → Outcome Fault C) {c : C}
    → first >>= next ≡ ok c
    → (a : A) × (first ≡ ok a) × (next a ≡ ok c)
>>=-eq-ok (err fault) next ended = cc
>>=-eq-ok panics next ended = cc
>>=-eq-ok (ok a) next ended = (a, refl, ended)

-- A chain panics only if one of its parts does.
pub >>=-ne-panics {ℓ κ ι} :
    {Fault : Type κ} {A : Type ℓ} {C : Type ι} (first : Outcome Fault A)
    (next : A → Outcome Fault C)
    → first ≢ panics
    → ((a : A) → next a ≢ panics)
    → first >>= next ≢ panics
>>=-ne-panics (ok a) next calm later e = later a e
>>=-ne-panics (err fault) next calm later e = cc
>>=-ne-panics panics next calm later e = calm refl
