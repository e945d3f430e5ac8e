-- ===== src/Prelude.antt =====
-- The names that every module shares: the libraries', passed on, and those of three children.
-- Texts are native strings, numbers are the native naturals.
mod Tests
mod Lists
mod Texts
mod Actions
mod Dict
pub use Tests.*
pub use Lists.*
unfoldable pub use Texts.{to_upper, to_lower, split_on, trim}
pub use Texts.*
pub use Actions.*
pub use Dict.*
pub use Prim.Native.Nat.{ℕ, zero, suc, ◌+◌, ◌-◌, ◌*◌, ◌/◌, ◌%◌, ◌≤◌, ◌<◌}
pub use Prim.Native.String.{String}
pub use mathlib.Core.Path.{◌≡◌, refl, sym, ap, ◌∙◌, subst}
pub use mathlib.Core.Logic.{◌≢◌, ◌↔◌, ◌⊎◌, inl, inr}
pub use mathlib.Core.Bool.{Bool, true, false, not, ◌&&◌, ◌||◌}
pub use mathlib.Core.Option.{Option, none, some}
pub use mathlib.Core.List.{List, [], ◌∷◌, ◌++◌, map}
pub use native.Mathlib.Omega.{arith}
