-- ===== src/Common.antt =====
-- Shared names: the libraries', passed on, and those of the children below (tests and equality,
-- lists, fallible steps over a database, tables of rows).
mod Tests
mod Lists
mod Steps
mod Rules
mod Table
mod Unique
mod Keyed
pub use Tests.*
pub use Lists.*
unfoldable pub use Steps.*
pub use Rules.*
unfoldable pub use Table.*
pub use Unique.*
pub use Keyed.*
pub use Prim.Native.Nat.{ℕ, zero, suc, ◌+◌, ◌-◌, ◌*◌, ◌/◌, ◌%◌, ◌≤◌, ◌<◌, min, max}
pub use Prim.Native.String.{String}
pub use mathlib.Core.Path.{◌≡◌, refl, sym, ap, ◌∙◌, subst}
pub use mathlib.Core.Logic.{◌≢◌, ◌↔◌, ◌⊎◌, inl, inr}
pub use mathlib.Core.Bool.{Bool, true, false, not, ◌&&◌, ◌||◌}
pub use mathlib.Core.Option.{Option, none, some}
pub use mathlib.Core.List.{List, [], ◌∷◌, ◌++◌, map}
pub use native.Mathlib.Omega.{arith}
pub use text.Mathlib.TextEquality.{eq_iff}
pub use text.Mathlib.TextPositions.{eq_refl}
