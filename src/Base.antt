-- ===== src/Base.antt =====
-- Names that every other module shares: the libraries', passed on, and those of the children.
mod Checks
mod Tests
mod Lists
mod Strings
pub mod GoMap
pub mod Sort
pub mod Int
pub mod Decimal
pub mod Keyed
pub mod Utf8
unfoldable pub use Strings.{str_eq, str_le}
pub use Int.{ℤ, pos, negsuc, ltb_int, leb_int, int_leb, int_le_int, to_ℕ, leb_int→le, ltb_int→lt}
pub use Checks.*
pub use Tests.*
unfoldable pub use Lists.{keep, any}
pub use Lists.*
pub use Strings.{
  Str, str_eq_iff, str_eq_refl, str_eq-false, str_le_total, str_le_trans, str_le_antisymm, bytes,
}
pub use Prim.Native.Nat.{ℕ, zero, suc, ◌+◌, ◌-◌, ◌*◌, ◌/◌, ◌%◌, ◌^◌, ◌≤◌, ◌<◌}
pub use mathlib.Core.Path.{◌≡◌, refl, sym, ap, subst, ◌∙◌}
pub use mathlib.Core.Logic.{◌≢◌, ◌↔◌, ◌⊎◌, inl, inr}
pub use mathlib.Core.Bool.{Bool, true, false, not, ◌&&◌, ◌||◌}
pub use mathlib.Core.Option.{Option, none, some}
pub use mathlib.Core.List.{List, [], ◌∷◌, ◌++◌, map, Perm}
pub use native.Mathlib.Omega.{arith}
