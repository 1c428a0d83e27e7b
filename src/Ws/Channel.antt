-- ===== src/Ws/Channel.antt =====
-- Go's buffered channels, as client.go, client_manager.go and client.go of package bitso use them.
use microservices_trading_bo.Common.{
  ℕ, ◌≡◌, ◌⊎◌, inl, inr, refl, Bool, true, false, Option, none, some, List, [], ◌∷◌, ◌++◌, length,
  ltb, if◌then◌else◌, arith,
}

-- How a piece of code ends: it is done, it waits for another goroutine, or it panics.
pub data Run {ℓ} (A : Type ℓ) : Type ℓ where
  done : A → Run A
  blocked panicked : Run A

infixl 5 ◌>>=◌
abbrev pub ◌>>=◌ {ℓ κ} : {A : Type ℓ} {B : Type κ} → Run A → (A → Run B) → Run B
done a >>= f = f a
blocked >>= f = blocked
panicked >>= f = panicked

pub Run-cases {ℓ} :
    {A : Type ℓ} (r : Run A) → ((a : A) × (r ≡ done a)) ⊎ ((r ≡ blocked) ⊎ (r ≡ panicked))
Run-cases (done a) = inl (a, refl)
Run-cases blocked = inr (inl refl)
Run-cases panicked = inr (inr refl)

-- What a chain that is done went through.
pub >>=-eq-done {ℓ κ} :
    {A : Type ℓ} {B : Type κ} (m : Run A) (f : A → Run B) {b : B}
    → (m >>= f) ≡ done b
    → (a : A) × (m ≡ done a) × (f a ≡ done b)
>>=-eq-done (done a) f h = (a, refl, h)
>>=-eq-done blocked f h = cc
>>=-eq-done panicked f h = cc

-- What holds of the result, if there is one.
abbrev pub Ensures {ℓ κ} : {A : Type ℓ} → (A → Type κ) → Run A → Type κ
Ensures P (done a) = P a
Ensures P blocked = Unit
Ensures P panicked = Unit

pub Ensures->>= {ℓ κ ι} :
    {A : Type ℓ} {B : Type κ} (P : B → Type ι) (m : Run A) (f : A → Run B)
    → ((a : A) → m ≡ done a → Ensures P (f a))
    → Ensures P (m >>= f)
Ensures->>= P (done a) f h = h a refl
Ensures->>= P blocked f h = tt
Ensures->>= P panicked f h = tt

-- A deferred `recover`: a panic ends the function with what it had at hand.
abbrev pub recover {ℓ} : {A : Type ℓ} → A → Run A → Run A
recover a panicked = done a
recover a (done b) = done b
recover a blocked = blocked

pub record Channel {ℓ} (A : Type ℓ) : Type ℓ where
  pub buffer : List A
  pub capacity : ℕ
  pub closed : Bool

-- What a receive finds.
pub data Receipt {ℓ} (A : Type ℓ) : Type ℓ where
  item : A → Channel A → Receipt A
  ended waiting : Receipt A

module _ {ℓ} {A : Type ℓ} where
  -- `make(chan A, capacity)`
  abbrev pub make : ℕ → Channel A
  make n = record { buffer = []; capacity = n; closed = false }

  abbrev pub put : Channel A → A → Channel A
  put ch a = record ch { buffer = ch.buffer ++ a ∷ [] }

  -- `ch <- a`
  unfoldable pub send : Channel A → A → Run (Channel A)
  send ch a =
      if ch.closed
      then panicked
      else if ltb (length ch.buffer) ch.capacity
      then done (put ch a)
      else blocked

  -- `select { case ch <- a: … default: … }`: `none` is the default case. The send is chosen on a
  -- closed channel too, and panics.
  unfoldable pub offer : Channel A → A → Run (Option (Channel A))
  offer ch a =
      if ch.closed
      then panicked
      else if ltb (length ch.buffer) ch.capacity
      then done (some (put ch a))
      else done none

  -- `close(ch)`
  unfoldable pub close : Channel A → Run (Channel A)
  close ch = if ch.closed then panicked else done (record ch { closed = true })

  receive_from : List A → Channel A → Receipt A
  receive_from [] ch = if ch.closed then ended else waiting
  receive_from (a ∷ rest) ch = item a (record ch { buffer = rest })

  -- `a, ok := <-ch`
  unfoldable pub receive : Channel A → Receipt A
  unfolding receive_from
  receive ch = receive_from ch.buffer ch

-- The queue that a message was sent on holds it last.
pub send-buffer {ℓ} :
    {A : Type ℓ} (ch ch' : Channel A) (a : A)
    → send ch a ≡ done ch'
    → ch'.buffer ≡ ch.buffer ++ a ∷ []
unfolding send
send-buffer ch ch' a e = ground arith

-- What a receive takes was first in the buffer.
pub receive-buffer {ℓ} :
    {A : Type ℓ} (ch ch' : Channel A) (a : A) → receive ch ≡ item a ch' → ch.buffer ≡ a ∷ ch'.buffer
unfolding receive
receive-buffer {A} ch ch' a e = go ch.buffer e
  where
    go : (buffer : List A) → receive_from buffer ch ≡ item a ch' → buffer ≡ a ∷ ch'.buffer
    go [] e = ground arith
    go (b ∷ rest) e = ground arith

pub Receipt-cases {ℓ} :
    {A : Type ℓ} (r : Receipt A)
    → ((a : A) × (ch : Channel A) × (r ≡ item a ch)) ⊎ ((r ≡ ended) ⊎ (r ≡ waiting))
Receipt-cases (item a ch) = inl (a, ch, refl)
Receipt-cases ended = inr (inl refl)
Receipt-cases waiting = inr (inr refl)

-- A rule for a match on a receipt.
pub Ensures-receipt {ℓ κ ι} :
    {A : Type ℓ} {B : Type κ} (P : B → Type ι) (r : Receipt A) (f : A → Channel A → Run B)
    (at_end waits : Run B)
    → ((a : A) (ch : Channel A) → r ≡ item a ch → Ensures P (f a ch))
    → Ensures P at_end
    → Ensures P waits
    → Ensures P (elim r [ item a ch ↦ f a ch | ended ↦ at_end | waiting ↦ waits ])
Ensures-receipt P (item a ch) f x y h p q = h a ch refl
Ensures-receipt P ended f x y h p q = p
Ensures-receipt P waiting f x y h p q = q
