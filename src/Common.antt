-- ===== src/Common.antt =====
-- The names that the other modules share: the libraries', passed on, and those of the children.
mod Tests
mod Lists
mod Calls
mod Texts
mod Dict
pub mod Names
pub use Tests.*
pub use Lists.*
unfoldable pub use Dict.{lookup, insert, delete, contains, add, remove}
pub use Dict.{lookup-insert, lookup-delete, contains-add, contains-remove}
pub use Calls.*
unfoldable pub use Texts.{text_eq, show_nat, value_from, all_digits}
pub use Texts.{
  Text, codes, text_eq_iff, text_eq_refl, text_eq_symm, value_from-show_nat, all_digits-show_nat,
  show_nat-ne-nil,
}
pub use Prim.Native.Nat.{ℕ, zero, suc, ◌+◌, ◌-◌, ◌*◌, ◌/◌, ◌%◌, ◌^◌, ◌≤◌, ◌<◌}
pub use mathlib.Core.Path.{◌≡◌, refl, sym, ap, subst, ◌∙◌}
pub use mathlib.Core.Logic.{◌≢◌, ◌↔◌, ◌⊎◌, inl, inr}
pub use mathlib.Core.Bool.{Bool, true, false, not, ◌&&◌, ◌||◌}
pub use mathlib.Core.Option.{Option, none, some}
pub use mathlib.Core.List.{List, [], ◌∷◌, ◌++◌, map}
pub use native.Mathlib.Omega.{arith}
