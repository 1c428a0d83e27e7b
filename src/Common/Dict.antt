-- ===== src/Common/Dict.antt =====
-- Go's maps: a map keyed by texts as an association list, and a map used as a set of pointers.
-- Go visits a map in any order; a loop over one takes the order of the list.
use Prim.Native.Nat.{ℕ}
use mathlib.Core.Path.{◌≡◌, refl}
use mathlib.Core.Bool.{Bool, false, ◌&&◌, ◌||◌, not}
use mathlib.Core.Option.{Option, none, some}
use mathlib.Core.List.{List, [], ◌∷◌}
use native.Mathlib.Omega.{arith}
use microservices_trading_bo.Common.Tests.{◌==◌, if◌then◌else◌}
use microservices_trading_bo.Common.Texts.{Text, text_eq, text_eq_iff}

module _ {ℓ} {V : Type ℓ} where
  -- `v, ok := m[k]`
  unfoldable pub lookup : Text → List (Text × V) → Option V
  lookup k [] = none
  lookup k ((j, v) ∷ m) = if text_eq j k then some v else lookup k m

  -- `m[k] = v`
  unfoldable pub insert : Text → V → List (Text × V) → List (Text × V)
  insert k v [] = (k, v) ∷ []
  insert k v ((j, w) ∷ m) = if text_eq j k then (k, v) ∷ m else (j, w) ∷ insert k v m

  -- `delete(m, k)`
  unfoldable pub delete : Text → List (Text × V) → List (Text × V)
  delete k [] = []
  delete k ((j, w) ∷ m) = let rest = delete k m in if text_eq j k then rest else (j, w) ∷ rest

  pub lookup-insert :
      (k j : Text) (v : V) (m : List (Text × V))
      → lookup j (insert k v m) ≡ (if text_eq k j then some v else lookup j m)
  unfolding lookup insert
  lookup-insert k j v [] = refl
  lookup-insert k j v ((i, w) ∷ m) =
      ground (arith, text_eq_iff k j, text_eq_iff i k, text_eq_iff i j, lookup-insert k j v m)

  pub lookup-delete :
      (k j : Text) (m : List (Text × V))
      → lookup j (delete k m) ≡ (if text_eq k j then none else lookup j m)
  unfolding lookup delete
  lookup-delete k j [] = ground arith
  lookup-delete k j ((i, w) ∷ m) =
      ground (arith, text_eq_iff k j, text_eq_iff i k, text_eq_iff i j, lookup-delete k j m)

-- `_, ok := m[p]`
unfoldable pub contains : ℕ → List ℕ → Bool
contains p [] = false
contains p (q ∷ ps) = q == p || contains p ps

-- `m[p] = true`
unfoldable pub add : ℕ → List ℕ → List ℕ
unfolding contains
add p ps = if contains p ps then ps else p ∷ ps

-- `delete(m, p)`
unfoldable pub remove : ℕ → List ℕ → List ℕ
remove p [] = []
remove p (q ∷ ps) = let rest = remove p ps in if q == p then rest else q ∷ rest

pub contains-add : (p q : ℕ) (ps : List ℕ) → contains q (add p ps) ≡ (p == q || contains q ps)
unfolding contains add
contains-add p q ps = ground arith

pub contains-remove :
    (p q : ℕ) (ps : List ℕ) → contains q (remove p ps) ≡ (not (p == q) && contains q ps)
unfolding contains remove
contains-remove p q [] = ground arith
contains-remove p q (r ∷ ps) = ground (arith, contains-remove p q ps)
