-- ===== src/Prelude.antt =====
-- The names that the other modules share: the libraries', passed on, and those of the children.
mod Tests
mod Lists
mod Equality
mod Maps
mod Int
mod Texts
mod Sort
mod Decimal
pub use Tests.{
  ltb, leb, if◌then◌else◌, ltb→lt, lt→ltb, leb→le, ==_iff, tests, Bool-cases, Option-cases,
}
pub use Lists.*
pub use Equality.{Eq, ◌==◌, nat_eq, eq_self, list_beq, list_beq_iff, list_eq}
unfoldable pub use Maps.{lookup, insert, delete}
pub use Maps.{Map, lookup-insert, lookup-delete}
pub use Int.*
unfoldable pub use Decimal.{decimal, atoi}
pub use Decimal.{is_digit, decimal_digits, decimal_injective}
pub use Sort.{text_leb_total, sort-perm, length-sort, sort-IsSorted, Below, IsSorted}
unfoldable pub use Sort.{insert_sorted, sort, text_leb}
pub use Texts.*
pub use Prim.Native.Nat.{ℕ, zero, suc, ◌+◌, ◌-◌, ◌*◌, ◌/◌, ◌%◌, ◌^◌, ◌≤◌, ◌<◌}
pub use Prim.Native.String.{String}
pub use mathlib.Core.Path.{◌≡◌, refl, sym, ap, ◌∙◌, subst}
pub use mathlib.Core.Logic.{◌≢◌, ◌↔◌, ◌⊎◌, inl, inr}
pub use mathlib.Core.Bool.{Bool, true, false, not, ◌&&◌, ◌||◌}
pub use mathlib.Core.Option.{Option, none, some}
pub use mathlib.Core.List.{List, [], ◌∷◌, ◌++◌, map, reverse}
pub use native.Mathlib.Omega.{arith}
