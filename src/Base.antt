-- ===== src/Base.antt =====
-- The names that the other modules share: the libraries' names in use, passed on, and those of the
-- children: Boolean tests, lists measured by native numbers, tables of rows, and texts by characters.
mod Tests
mod Lists
mod Table
mod Texts
mod Outcomes
pub use Tests.*
pub use Lists.*
unfoldable pub use Outcomes.*
unfoldable pub use Texts.*
unfoldable pub use Table.*
pub use Prim.Native.Nat.{ℕ, zero, suc, ◌+◌, ◌-◌, ◌*◌, ◌≤◌, ◌<◌, min, max}
pub use Prim.Native.String.{String, count, compare as compare_text, ◌++◌ as append_text}
pub use mathlib.Core.Path.{◌≡◌, refl, sym, ap, ◌∙◌}
pub use mathlib.Core.Logic.{◌≢◌, ◌↔◌, ◌⊎◌, inl, inr}
pub use mathlib.Core.Bool.{Bool, true, false, not, ◌&&◌, ◌||◌}
pub use mathlib.Core.Option.{Option, none, some}
pub use mathlib.Core.List.{List, [], ◌∷◌, ◌++◌, map}
pub use native.Mathlib.Omega.{arith}
pub use text.Mathlib.TextEquality.{eq_iff}
pub use text.Mathlib.Text.{◌==◌ as str_eq}
