-- ===== src/Prelude.antt =====
-- The names that the components share: the libraries', passed on, and those of the children.
mod Tests
mod Equality
mod Lists
pub mod Int
pub use Tests.*
pub use Equality.{Eq, ◌==◌, nat_eq, string_eq, list_eq, ==_self, ==_ne, ==_sym}
pub use Lists.{
  length-append, length-take, length-drop, length-map, length-keep-le, contains-append,
  contains-keep, any_iff, append-take-drop, drop-drop, split_at, get_elem?-lt, get_elem?-append,
  get_elem?-last, get_elem?-drop, get_elem?-map,
}
unfoldable pub use Equality.{list_beq}
unfoldable pub use Lists.{length, take, drop, get_elem?, keep, any, all, All, contains, distinct}
pub use Prim.Native.Nat.{ℕ, zero, suc, ◌+◌, ◌-◌, ◌*◌, ◌/◌, ◌%◌, ◌^◌, ◌≤◌, ◌<◌, min, max}
pub use Prim.Native.String.{String}
pub use mathlib.Core.Path.{◌≡◌, refl, sym, ap, ◌∙◌, subst}
pub use mathlib.Core.Logic.{◌≢◌, ◌↔◌, ◌⊎◌, inl, inr}
pub use mathlib.Core.Bool.{Bool, true, false, not, ◌&&◌, ◌||◌}
pub use mathlib.Core.Option.{Option, none, some}
pub use mathlib.Core.List.{List, [], ◌∷◌, ◌++◌, map}
pub use native.Mathlib.Omega.{arith}
