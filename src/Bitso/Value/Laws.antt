-- ===== src/Bitso/Value/Laws.antt =====
-- What holds of everything that is decoded: it ends with a value that has a property, or with an error.
use microservices_trading_bo.Common.{
  ◌≡◌, ◌≢◌, refl, Text, List, [], ◌∷◌, some, Outcome, ok, err, panics, All, Option-cases, inl, inr,
  arith, text_eq, Bool-cases, insert, ◌>>=◌, subst,
}
use microservices_trading_bo.Bitso.Json.{Json, Error}
use microservices_trading_bo.Bitso.Value.{
  Value, null, bool, num, str, array, object, Items, nil, cons, Fields, end, field, Setter,
  by_method, set_text, set_items, set_list, set_entries, set_map, find_setter, set_fields,
  set_struct, on_field, folded,
}

-- A value with the property, or an error, but no panic.
abbrev pub Holds : {E A : Type 0} → (A → Type 0) → Outcome E A → Type 0
Holds P (ok a) = P a
Holds P (err e) = Unit
Holds P panics = ⊥

pub Holds-intro :
    {E A : Type 0} (P : A → Type 0) (o : Outcome E A)
    → o ≢ panics
    → ((a : A) → o ≡ ok a → P a)
    → Holds P o
Holds-intro P (ok a) calm sound = sound a refl
Holds-intro P (err e) calm sound = tt
Holds-intro P panics calm sound = calm refl

pub Holds->>= :
    {E A B : Type 0} (Q : A → Type 0) (P : B → Type 0) (o : Outcome E A) (next : A → Outcome E B)
    → Holds Q o
    → ((a : A) → Q a → Holds P (next a))
    → Holds P (o >>= next)
Holds->>= Q P (ok a) next h k = k a h
Holds->>= Q P (err e) next h k = tt
Holds->>= Q P panics next h k = h

pub Holds-ok :
    {E A : Type 0} (P : A → Type 0) (o : Outcome E A) (a : A) → Holds P o → o ≡ ok a → P a
Holds-ok P (ok b) a h e = let same : b ≡ a = ground (arith, e) in subst P same h
Holds-ok P (err f) a h e = cc
Holds-ok P panics a h e = absurd h

-- Decoding onto what has the property gives what has it, or an error.
abbrev pub Keeps : {A : Type 0} → (A → Type 0) → Setter A → Type 0
Keeps {A} P set = (a : A) (v : Value) → P a → Holds P (set a v)

-- No condition: nothing panics.
abbrev pub Anything : {A : Type 0} → A → Type 0
Anything a = Unit {0}

pub Keeps-by_method :
    {A : Type 0} (P : A → Type 0) (read : Json → Outcome Error A)
    → ((j : Json) → Holds P (read j))
    → Keeps P (by_method read)
Keeps-by_method P read sound a v p = sound _

pub Keeps-set_text : Keeps Anything set_text
unfolding set_text
Keeps-set_text a null p = tt
Keeps-set_text a (str s) p = tt
Keeps-set_text a (bool b) p = tt
Keeps-set_text a (num b) p = tt
Keeps-set_text a (array b) p = tt
Keeps-set_text a (object b) p = tt

pub Keeps-on_field :
    {S A : Type 0} (P : S → Type 0) (Q : A → Type 0) (get : S → A) (put : S → A → S)
    (set : Setter A)
    → ((s : S) → P s → Q (get s))
    → ((s : S) (a : A) → P s → Q a → P (put s a))
    → Keeps Q set
    → Keeps P (on_field get put set)
Keeps-on_field P Q get put set has gives keeps s v p =
    Holds->>= Q P (set (get s) v) (λ a. ok (put s a)) (keeps (get s) v (has s p))
      (λ a q. gives s a p q)

-- A field that the property says nothing of.
pub Keeps-free :
    {S A : Type 0} (P : S → Type 0) (get : S → A) (put : S → A → S) (set : Setter A)
    → ((s : S) (a : A) → P s → P (put s a))
    → Keeps Anything set
    → Keeps P (on_field get put set)
Keeps-free P get put set gives calm =
    Keeps-on_field P Anything get put set (λ s p. tt) (λ s a p _. gives s a p) calm

module _ {A : Type 0} (P : A → Type 0) (zero_value : A) (set : Setter A) (z : P zero_value)
    (keeps : Keeps P set) where
  set_items-All :
      (old : List A) (vs : Items) → All P old → Holds (All P) (set_items zero_value set old vs)
  unfolding set_items
  set_items-All [] nil p = tt
  set_items-All (o ∷ old) nil p = tt
  set_items-All [] (cons v vs) p =
      Holds->>= P (All P) (set zero_value v) _ (keeps zero_value v z) (λ a q.
        Holds->>= (All P) (All P) (set_items zero_value set [] vs) _ (set_items-All [] vs tt)
          (λ xs ps. (q, ps)))
  set_items-All (o ∷ old) (cons v vs) (q, p) =
      Holds->>= P (All P) (set o v) _ (keeps o v q) (λ a q'.
        Holds->>= (All P) (All P) (set_items zero_value set old vs) _ (set_items-All old vs p)
          (λ xs ps. (q', ps)))

  pub Keeps-set_list : Keeps (All P) (set_list zero_value set)
  unfolding set_list
  Keeps-set_list xs null p = tt
  Keeps-set_list xs (array vs) p = set_items-All xs vs p
  Keeps-set_list xs (bool b) p = tt
  Keeps-set_list xs (num b) p = tt
  Keeps-set_list xs (str b) p = tt
  Keeps-set_list xs (object b) p = tt

module _ {A : Type 0} (zero_value : A) (set : Setter A) (calm : Keeps Anything set) where
  set_entries-Anything :
      (m : List (Text × A)) (fs : Fields) → Holds Anything (set_entries zero_value set m fs)
  unfolding set_entries
  set_entries-Anything m end = tt
  set_entries-Anything m (field key v fs) =
      Holds->>= Anything Anything (set zero_value v) _ (calm zero_value v tt)
        (λ a _. set_entries-Anything (insert key a m) fs)

  pub Keeps-set_map : Keeps Anything (set_map zero_value set)
  unfolding set_map
  Keeps-set_map m null p = tt
  Keeps-set_map m (object fs) p = set_entries-Anything m fs
  Keeps-set_map m (bool b) p = tt
  Keeps-set_map m (num b) p = tt
  Keeps-set_map m (str b) p = tt
  Keeps-set_map m (array b) p = tt

module _ {A : Type 0} (P : A → Type 0) where
  -- Each way to decode a field keeps the property.
  abbrev pub AllKeep : List (Text × Setter A) → Type 0
  AllKeep [] = Unit
  AllKeep ((name, set) ∷ setters) = Keeps P set × AllKeep setters

  find_setter-Keeps :
      (key : Text) (setters : List (Text × Setter A)) (set : Setter A)
      → AllKeep setters
      → find_setter key setters ≡ some set
      → Keeps P set
  unfolding find_setter
  find_setter-Keeps key [] set k e = cc
  find_setter-Keeps key ((name, first) ∷ setters) set (k, ks) e =
      elim (Bool-cases (text_eq (folded name) (folded key))) [
        | inl same ↦ let found : first ≡ set = ground (arith, same, e) in subst (Keeps P) found k
        | inr other ↦ find_setter-Keeps key setters set ks (rw (find_setter, other) at e)
      ]

  set_fields-Keeps :
      (setters : List (Text × Setter A)) (a : A) (fs : Fields)
      → AllKeep setters
      → P a
      → Holds P (set_fields setters a fs)
  unfolding set_fields
  set_fields-Keeps setters a end k p = p
  set_fields-Keeps setters a (field key v fs) k p = elim (Option-cases (find_setter key setters)) [
    | inl missing ↦ rw (set_fields, missing) (set_fields-Keeps setters a fs k p)
    | inr (set, found) ↦
        rw (set_fields, found)
          (Holds->>= P P (set a v) _ (find_setter-Keeps key setters set k found a v p)
            (λ b q. set_fields-Keeps setters b fs k q))
  ]

  pub Keeps-set_struct :
      (setters : List (Text × Setter A)) → AllKeep setters → Keeps P (set_struct setters)
  unfolding set_struct
  Keeps-set_struct setters k a null p = p
  Keeps-set_struct setters k a (object fs) p = set_fields-Keeps setters a fs k p
  Keeps-set_struct setters k a (bool b) p = tt
  Keeps-set_struct setters k a (num b) p = tt
  Keeps-set_struct setters k a (str b) p = tt
  Keeps-set_struct setters k a (array b) p = tt
