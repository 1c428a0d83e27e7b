-- ===== src/Bitso/Value.antt =====
-- What encoding/json does with the types of data_server/bitso: a JSON text once it is parsed, and its
-- decoding into strings, slices, maps and structs. A type with a method UnmarshalJSON is decoded by
-- it. Of several errors in one text the first is given here.
pub mod Laws
use microservices_trading_bo.Common.{
  ℕ, ◌+◌, Text, Bool, ◌&&◌, leb, ◌==◌, List, [], ◌∷◌, map, Option, none, some, if◌then◌else◌,
  text_eq, insert, Outcome, ok, err, panics, ◌>>=◌,
}
use microservices_trading_bo.Bitso.Json.{Json, Error, json_type}

mutual
  pub data Value : Type 0 where
    null : Value
    bool : Bool → Value
    num : Text → Value
    str : Text → Value
    array : Items → Value
    object : Fields → Value

  pub data Items : Type 0 where
    nil : Items
    cons : Value → Items → Items

  pub data Fields : Type 0 where
    end : Fields
    field : Text → Value → Fields → Fields

-- What the methods see of a value.
abbrev pub flat : Value → Json
flat null = Json.null
flat (bool b) = Json.bool b
flat (num lit) = Json.num lit
flat (str s) = Json.str s
flat (array vs) = Json.composite
flat (object fs) = Json.composite

-- Decoding onto what is there already.
abbrev pub Setter : Type 0 → Type 0
Setter A = A → Value → Outcome Error A

-- `UnmarshalJSON`, which is called for null too.
abbrev pub by_method : {A : Type 0} → (Json → Outcome Error A) → Setter A
by_method read old v = read (flat v)

-- Null leaves a string as it was.
unfoldable pub set_text : Setter Text
set_text old null = ok old
set_text old (str s) = ok s
set_text old _ = err json_type

module _ {A : Type 0} (zero_value : A) (set : Setter A) where
  -- The elements, onto those that the slice has, and past its end onto the zero value. (Where one
  -- object has the field three times, Go may find other values past the end.)
  unfoldable pub set_items : List A → Items → Outcome Error (List A)
  set_items old nil = ok []
  set_items [] (cons v vs) = do a ← set zero_value v; rest ← set_items [] vs; ok (a ∷ rest)
  set_items (a ∷ old) (cons v vs) = do a' ← set a v; rest ← set_items old vs; ok (a' ∷ rest)

  unfoldable pub set_list : Setter (List A)
  unfolding set_items
  set_list old null = ok []
  set_list old (array vs) = set_items old vs
  set_list old _ = err json_type

  unfoldable pub set_entries : List (Text × A) → Fields → Outcome Error (List (Text × A))
  unfolding insert
  set_entries m end = ok m
  set_entries m (field key v fs) = do a ← set zero_value v; set_entries (insert key a m) fs

  -- A map whose keys are strings.
  unfoldable pub set_map : Setter (List (Text × A))
  unfolding set_entries
  set_map old null = ok []
  set_map old (object fs) = set_entries old fs
  set_map old _ = err json_type

-- Letters match whatever their case; the Kelvin sign and the long s are letters too.
unfoldable pub folded : Text → Text
folded s =
    map
      (λ c.
        if leb b'A' c && leb c b'Z'
        then c + 32
        else if c == 8490
        then b'k'
        else if c == 383
        then b's'
        else c)
      s

-- The field that a key stands for: no struct of the package has two that match one key.
unfoldable pub find_setter : {A : Type 0} → Text → List (Text × Setter A) → Option (Setter A)
unfolding folded
find_setter key [] = none
find_setter key ((name, set) ∷ setters) =
    if text_eq (folded name) (folded key) then some set else find_setter key setters

module _ {A : Type 0} (setters : List (Text × Setter A)) where
  -- The fields of the object in their order, those without a match left out.
  unfoldable pub set_fields : A → Fields → Outcome Error A
  unfolding find_setter
  set_fields a end = ok a
  set_fields a (field key v fs) = elim (find_setter key setters) [
    | none ↦ set_fields a fs
    | some set ↦ set a v >>= λ a'. set_fields a' fs
  ]

  -- Null leaves a struct as it was.
  unfoldable pub set_struct : Setter A
  unfolding set_fields
  set_struct a null = ok a
  set_struct a (object fs) = set_fields a fs
  set_struct a _ = err json_type

-- A field of a struct, and how it is decoded.
abbrev pub on_field : {S A : Type 0} → (S → A) → (S → A → S) → Setter A → Setter S
on_field get put set s v = set (get s) v >>= λ a. ok (put s a)
