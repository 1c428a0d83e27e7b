-- ===== src/Common/Names.antt =====
-- The tables `map[K]string` of the program: a lookup by key, and the `range` loop that looks
-- for a name. Go visits a map in any order, so the loop takes the order as its list of entries.
use Prim.Native.Nat.{ℕ}
use mathlib.Core.Path.{◌≡◌, sym, ◌∙◌}
use mathlib.Core.Logic.{◌↔◌, ◌⊎◌, ◌≢◌, inl, inr}
use mathlib.Core.Bool.{Bool, true, not, ◌&&◌}
use mathlib.Core.Option.{Option, none, some}
use mathlib.Core.List.{List, [], ◌∷◌}
use native.Mathlib.Omega.{arith}
use microservices_trading_bo.Common.Tests.{◌==◌, ==_iff, if◌then◌else◌, Bool-cases, Option-cases}
use microservices_trading_bo.Common.Texts.{Text, text_eq, text_eq_iff}

abbrev pub Table : Type 0
Table = List (ℕ × Text)

-- `z, ok := names[k]`
unfoldable pub name_of : Table → ℕ → Option Text
name_of [] k = none
name_of ((j, v) ∷ es) k = if j == k then some v else name_of es k

-- `for k, v := range names { if v == z { return k } }`
unfoldable pub key_of : Table → Text → Option ℕ
key_of [] z = none
key_of ((j, v) ∷ es) z = if text_eq v z then some j else key_of es z

abbrev pub In : ℕ × Text → Table → Type 0
In e [] = ⊥
In e (x ∷ es) = (e ≡ x) ⊎ In e es

-- One table in two orders.
abbrev pub SameEntries : Table → Table → Type 0
SameEntries es fs = (k : ℕ) (v : Text) → In (k, v) es ↔ In (k, v) fs

-- No name stands for two keys, and no key has two names.
pub record IsUnique (es : Table) : Type 0 where
  pub keys : (j k : ℕ) (v : Text) → In (j, v) es → In (k, v) es → j ≡ k
  pub names : (k : ℕ) (v w : Text) → In (k, v) es → In (k, w) es → v ≡ w

pub key_of_sound : (es : Table) (z : Text) (k : ℕ) → key_of es z ≡ some k → In (k, z) es
unfolding key_of
key_of_sound [] z k h = cc
key_of_sound ((j, v) ∷ es) z k h = elim (Bool-cases (text_eq v z)) [
  | inl same ↦ let here : v ≡ z = (text_eq_iff v z).0 same in inl (ground (arith, here, same))
  | inr other ↦ inr (key_of_sound es z k (rw (other, key_of) at h))
]

pub key_of_missing : (es : Table) (z : Text) (k : ℕ) → key_of es z ≡ none → ¬ In (k, z) es
unfolding key_of
key_of_missing [] z k h m = m
key_of_missing ((j, v) ∷ es) z k h (inl e) = ground (arith, text_eq_iff v z)
key_of_missing ((j, v) ∷ es) z k h (inr m) = ground (arith, key_of_missing es z k)

-- The name found is the one that the table gives to the key, and the other way round.
pub key_of-eq-some_iff :
    (es : Table) (z : Text) (k : ℕ) → IsUnique es → (key_of es z ≡ some k) ↔ In (k, z) es
key_of-eq-some_iff es z k u = (
  key_of_sound es z k,
  λ m. elim (Option-cases (key_of es z)) [
    | inl missing ↦ absurd (key_of_missing es z k missing m)
    | inr (j, found) ↦ rw found (rw (u.keys j k z (key_of_sound es z j found) m))
  ],
)

pub name_of_sound : (es : Table) (k : ℕ) (v : Text) → name_of es k ≡ some v → In (k, v) es
unfolding name_of
name_of_sound [] k v h = cc
name_of_sound ((j, w) ∷ es) k v h = elim (Bool-cases (j == k)) [
  | inl same ↦ let here : j ≡ k = (==_iff j k).0 same in inl (ground (arith, here, same))
  | inr other ↦ inr (name_of_sound es k v (rw (other, name_of) at h))
]

pub name_of_missing : (es : Table) (k : ℕ) (v : Text) → name_of es k ≡ none → ¬ In (k, v) es
unfolding name_of
name_of_missing [] k v h m = m
name_of_missing ((j, w) ∷ es) k v h (inl e) = ground arith
name_of_missing ((j, w) ∷ es) k v h (inr m) = ground (arith, name_of_missing es k v)

pub name_of-eq-some_iff :
    (es : Table) (k : ℕ) (v : Text) → IsUnique es → (name_of es k ≡ some v) ↔ In (k, v) es
name_of-eq-some_iff es k v u = (
  name_of_sound es k v,
  λ m. elim (Option-cases (name_of es k)) [
    | inl missing ↦ absurd (name_of_missing es k v missing m)
    | inr (w, found) ↦ rw found (rw (u.names k w v (name_of_sound es k w found) m))
  ],
)

-- The loop finds the same key in whatever order the map is visited.
pub key_of_same :
    (es fs : Table) (z : Text) → IsUnique es → SameEntries es fs → key_of fs z ≡ key_of es z
key_of_same es fs z u same = elim (Option-cases (key_of fs z)) [
  | inl missing ↦ elim (Option-cases (key_of es z)) [
    | inl none_too ↦ missing ∙ sym none_too
    | inr (k, found) ↦
        absurd (key_of_missing fs z k missing ((same k z).0 (key_of_sound es z k found)))
  ]
  | inr (k, found) ↦
      found ∙ sym ((key_of-eq-some_iff es z k u).1 ((same k z).1 (key_of_sound fs z k found)))
]

-- The two readings of a table agree: the loop finds `k` for `z` in any order of the visit exactly
-- if the lookup gives `k` the name `z`.
pub key_of-name_of_iff :
    (t es : Table) (z : Text) (k : ℕ)
    → IsUnique t
    → SameEntries t es
    → (key_of es z ≡ some k) ↔ (name_of t k ≡ some z)
key_of-name_of_iff t es z k u same =
    let (to_in, of_in) = key_of-eq-some_iff t z k u in
    let (to_in', of_in') = name_of-eq-some_iff t k z u in
    (
      λ h. of_in' (to_in (sym (key_of_same t es z u same) ∙ h)),
      λ h. key_of_same t es z u same ∙ of_in (to_in' h),
    )

fresh : ℕ → Text → Table → Bool
fresh k v [] = true
fresh k v ((j, w) ∷ es) = (not (j == k) && not (text_eq w v)) && fresh k v es

-- All keys and all names of a table differ.
unfoldable pub distinct : Table → Bool
unfolding fresh
distinct [] = true
distinct ((k, v) ∷ es) = fresh k v es && distinct es

fresh_sound :
    (k : ℕ) (v : Text) (es : Table) (j : ℕ) (w : Text)
    → fresh k v es ≡ true
    → In (j, w) es
    → (j ≢ k) × (w ≢ v)
unfolding fresh
fresh_sound k v [] j w h m = absurd m
fresh_sound k v ((i, u) ∷ es) j w h (inl e) = ground (arith, text_eq_iff u v)
fresh_sound k v ((i, u) ∷ es) j w h (inr m) = fresh_sound k v es j w (ground arith) m

distinct-keys :
    (es : Table) → distinct es ≡ true → (j k : ℕ) (v : Text) → In (j, v) es → In (k, v) es → j ≡ k
unfolding distinct
distinct-keys [] h j k v m n = absurd m
distinct-keys ((i, u) ∷ es) h j k v (inl e) (inl f) = ground arith
distinct-keys ((i, u) ∷ es) h j k v (inl e) (inr n) = ground (arith, fresh_sound i u es k v)
distinct-keys ((i, u) ∷ es) h j k v (inr m) (inl f) = ground (arith, fresh_sound i u es j v)
distinct-keys ((i, u) ∷ es) h j k v (inr m) (inr n) = distinct-keys es (ground arith) j k v m n

distinct-names :
    (es : Table) → distinct es ≡ true → (k : ℕ) (v w : Text) → In (k, v) es → In (k, w) es → v ≡ w
unfolding distinct
distinct-names [] h k v w m n = absurd m
distinct-names ((i, u) ∷ es) h k v w (inl e) (inl f) = ground arith
distinct-names ((i, u) ∷ es) h k v w (inl e) (inr n) = ground (arith, fresh_sound i u es k w)
distinct-names ((i, u) ∷ es) h k v w (inr m) (inl f) = ground (arith, fresh_sound i u es k v)
distinct-names ((i, u) ∷ es) h k v w (inr m) (inr n) = distinct-names es (ground arith) k v w m n

pub distinct-IsUnique : (es : Table) → distinct es ≡ true → IsUnique es
distinct-IsUnique es h = record { keys = distinct-keys es h; names = distinct-names es h }
