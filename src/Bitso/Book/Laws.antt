-- ===== src/Bitso/Book/Laws.antt =====
-- Parsing a book's name and printing it.
use microservices_trading_bo.Common.{
  ℕ, suc, ◌+◌, false, ◌<◌, length, All, ◌≢◌, ==_iff, ◌≡◌, refl, sym, ap, ◌∙◌, ◌↔◌, Text, List, [],
  ◌∷◌, ◌++◌, ok, err, panics, ◌==◌, if◌then◌else◌, arith, Bool-cases, inl, inr,
}
use microservices_trading_bo.Bitso.Json.{book_format}
use microservices_trading_bo.Bitso.Currency.{
  rune_lower, to_lower, to_currency, IsLowering, to_lower_idem,
}
use microservices_trading_bo.Bitso.Book.{
  Book, book_string, onto_first, split, book_of_parts, book_from_string,
}

-- How many underscores a text has.
unfoldable pub underscores : Text → ℕ
underscores [] = 0
underscores (c ∷ s) = if c == b'_' then suc (underscores s) else underscores s

split_one : (s : Text) → underscores s ≡ 0 → split s ≡ s ∷ []
unfolding underscores split
split_one [] h = refl
split_one (c ∷ s) h = ground (arith, split_one s)

split_two :
    (s t : Text) → underscores s ≡ 0 → underscores t ≡ 0 → split (s ++ b'_' ∷ t) ≡ s ∷ t ∷ []
unfolding underscores split
split_two [] t h k = ground (arith, split_one t)
split_two (c ∷ s) t h k = ground (arith, split_two s t)

-- Parts put together again with underscores between them.
unfoldable pub join : List Text → Text
join [] = []
join (z ∷ []) = z
join (z ∷ w ∷ ws) = z ++ b'_' ∷ join (w ∷ ws)

length-onto_first : (c : ℕ) (zs : List Text) → length (onto_first c zs) ≡ length zs
length-onto_first c [] = refl
length-onto_first c (z ∷ zs) = refl

length-split : (s : Text) → length (split s) ≡ suc (underscores s)
unfolding underscores split
length-split [] = refl
length-split (c ∷ s) = ground (arith, length-split s, length-onto_first c (split s))

join-onto_first : (c : ℕ) (zs : List Text) → 0 < length zs → join (onto_first c zs) ≡ c ∷ join zs
unfolding join
join-onto_first c [] h = elim h [ ]
join-onto_first c (z ∷ []) h = refl
join-onto_first c (z ∷ w ∷ ws) h = refl

join-cons : (zs : List Text) → 0 < length zs → join ([] ∷ zs) ≡ b'_' ∷ join zs
unfolding join
join-cons [] h = elim h [ ]
join-cons (z ∷ zs) h = refl

join-split : (s : Text) → join (split s) ≡ s
unfolding split join
join-split [] = refl
join-split (c ∷ s) = ground (
  arith,
  length-split s,
  join-split s,
  join-onto_first c (split s),
  join-cons (split s),
  ==_iff c b'_',
)

abbrev NoUnderscore : Text → Type 0
NoUnderscore z = underscores z ≡ 0

onto_first-NoUnderscore :
    (c : ℕ) (zs : List Text)
    → (c == b'_') ≡ false
    → All NoUnderscore zs
    → All NoUnderscore (onto_first c zs)
unfolding underscores
onto_first-NoUnderscore c [] h a = a
onto_first-NoUnderscore c (z ∷ zs) h (a, rest) = (rw h a, rest)

split-NoUnderscore : (s : Text) → All NoUnderscore (split s)
unfolding underscores split
split-NoUnderscore [] = (refl, tt)
split-NoUnderscore (c ∷ s) = elim (Bool-cases (c == b'_')) [
  | inl here ↦ rw here (refl, split-NoUnderscore s)
  | inr more ↦ rw more (onto_first-NoUnderscore c (split s) more (split-NoUnderscore s))
]

split_two_sound :
    (s z w : Text)
    → split s ≡ z ∷ w ∷ []
    → (s ≡ z ++ b'_' ∷ w) × (underscores z ≡ 0) × (underscores w ≡ 0)
unfolding join
split_two_sound s z w h =
    let clean : All NoUnderscore (z ∷ w ∷ []) = rw h at (split-NoUnderscore s) in
    (sym (join-split s) ∙ ap join h, clean.0, clean.1.0)

-- A parse that succeeds leaves two parts.
book_of_parts_sound :
    (beyond : ℕ → ℕ) (zs : List Text) (b : Book)
    → book_of_parts beyond zs ≡ ok b
    → (z : Text) × (w : Text) × (zs ≡ z ∷ w ∷ [])
      × (b ≡ record { major = to_currency beyond z; minor = to_currency beyond w })
unfolding book_of_parts
book_of_parts_sound beyond (z ∷ w ∷ []) b h = (z, w, refl, ground arith)
book_of_parts_sound beyond _ b h = cc

lower-append :
    (beyond : ℕ → ℕ) (s t : Text)
    → to_lower beyond (s ++ t) ≡ to_lower beyond s ++ to_lower beyond t
unfolding to_lower
lower-append beyond [] t = refl
lower-append beyond (c ∷ s) t = cc (lower-append beyond s t)

-- A text that parses as a book prints again as the text in lower case.
pub string-from_string :
    (beyond : ℕ → ℕ) (s : Text) (b : Book)
    → book_from_string beyond s ≡ ok b
    → book_string b ≡ to_lower beyond s
unfolding book_from_string book_string to_currency to_lower
string-from_string beyond s b h =
    let (z, w, parted, made) = book_of_parts_sound beyond (split s) b h in
    let (whole, _, _) = split_two_sound s z w parted in
    ap book_string made ∙ sym (lower-append beyond z (b'_' ∷ w)) ∙ ap (to_lower beyond) (sym whole)

book_of_parts_iff :
    (beyond : ℕ → ℕ) (zs : List Text)
    → (((b : Book) × (book_of_parts beyond zs ≡ ok b)) ↔ (length zs ≡ 2))
      × ((book_of_parts beyond zs ≡ err book_format) ↔ (length zs ≢ 2))
unfolding book_of_parts
book_of_parts_iff beyond (z ∷ w ∷ []) =
    ((λ _. refl, λ _. (_, refl)), (λ e. cc, λ n. absurd (n refl)))
book_of_parts_iff beyond [] =
    ((λ p. cc p.1, λ e. absurd (omega arith)), (λ _. omega arith, λ _. refl))
book_of_parts_iff beyond (z ∷ []) =
    ((λ p. cc p.1, λ e. absurd (omega arith)), (λ _. omega arith, λ _. refl))
book_of_parts_iff beyond (z ∷ w ∷ v ∷ zs) =
    ((λ p. cc p.1, λ e. absurd (omega arith)), (λ _. omega arith, λ _. refl))

-- A text parses as a book exactly if it has one underscore; any other text is a format error.
pub from_string-ok_iff :
    (beyond : ℕ → ℕ) (s : Text)
    → (((b : Book) × (book_from_string beyond s ≡ ok b)) ↔ (underscores s ≡ 1))
      × ((book_from_string beyond s ≡ err book_format) ↔ (underscores s ≢ 1))
unfolding book_from_string
from_string-ok_iff beyond s =
    let ((to_two, of_two), (to_ne, of_ne)) = book_of_parts_iff beyond (split s) in
    (
      (λ p. omega (arith, to_two p, length-split s), λ e. of_two (omega (arith, length-split s))),
      (λ p. omega (arith, to_ne p, length-split s), λ e. of_ne (omega (arith, length-split s))),
    )

underscores-append :
    (s t : Text) → underscores (s ++ b'_' ∷ t) ≡ suc (underscores s + underscores t)
unfolding underscores
underscores-append [] t = omega arith
underscores-append (c ∷ s) t = ground (arith, underscores-append s t)

from_string-string :
    (beyond : ℕ → ℕ) (b : Book)
    → underscores b.major ≡ 0
    → underscores b.minor ≡ 0
    → book_from_string beyond (book_string b)
      ≡ ok (record { major = to_currency beyond b.major; minor = to_currency beyond b.minor })
unfolding book_from_string book_string book_of_parts
from_string-string beyond b h k = rw (split_two b.major b.minor h k)

printed_clean :
    (beyond : ℕ → ℕ) (b : Book)
    → book_from_string beyond (book_string b) ≡ ok b
    → underscores b.major + underscores b.minor ≡ 0
unfolding book_string
printed_clean beyond b h = omega (
  arith,
  (from_string-ok_iff beyond (book_string b)).0.0 (b, h),
  underscores-append b.major b.minor,
)

-- A book parses back from its name to itself exactly if its currencies hold no underscore and are
-- fixed by `ToCurrency`.
pub from_string-string_iff :
    (beyond : ℕ → ℕ) (b : Book)
    → (book_from_string beyond (book_string b) ≡ ok b) ↔ (
        (underscores b.major ≡ 0)
        × (underscores b.minor ≡ 0)
        × (to_currency beyond b.major ≡ b.major)
        × (to_currency beyond b.minor ≡ b.minor))
from_string-string_iff beyond b = (
  λ h.
      let clean = printed_clean beyond b h in
      let p : underscores b.major ≡ 0 = omega arith in
      let q : underscores b.minor ≡ 0 = omega arith in
      let e = sym (from_string-string beyond b p q) ∙ h in (p, q, ground arith, ground arith),
  λ (p, q, r, s). from_string-string beyond b p q ∙ ground arith,
)

underscores-lower :
    {beyond : ℕ → ℕ} (low : IsLowering beyond) (s : Text)
    → underscores (to_lower beyond s) ≡ underscores s
unfolding underscores to_lower rune_lower
underscores-lower low [] = refl
underscores-lower {beyond} low (c ∷ s) = ground (arith, low.letter c, underscores-lower low s)

-- What a book parses to prints as a name that parses to the same book.
pub from_string_again :
    (beyond : ℕ → ℕ) (s : Text) (b : Book)
    → IsLowering beyond
    → book_from_string beyond s ≡ ok b
    → book_from_string beyond (book_string b) ≡ ok b
unfolding book_from_string to_currency
from_string_again beyond s b low h =
    let (z, w, parted, made) = book_of_parts_sound beyond (split s) b h in
    let (_, p, q) = split_two_sound s z w parted in
    rw made (
      (from_string-string_iff beyond _).1 (
        underscores-lower low z ∙ p,
        underscores-lower low w ∙ q,
        to_lower_idem low z,
        to_lower_idem low w,
      ))

-- Parsing a name as a book gives a book or an error.
pub book_from_string-ne-panics : (beyond : ℕ → ℕ) (s : Text) → book_from_string beyond s ≢ panics
unfolding book_from_string book_of_parts
book_from_string-ne-panics beyond s e = parts-ne-panics (split s) e
  where
    parts-ne-panics : (zs : List Text) → book_of_parts beyond zs ≢ panics
    parts-ne-panics (z ∷ w ∷ []) e = cc
    parts-ne-panics [] e = cc
    parts-ne-panics (z ∷ []) e = cc
    parts-ne-panics (z ∷ w ∷ v ∷ zs) e = cc
