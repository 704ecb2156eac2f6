-- ===== src/Base.antt =====
-- The names that the other modules share: those of the libraries, passed on, and helpers over the
-- native numbers, JavaScript strings, results and tables.
mod Tests
mod Lists
mod Results
pub mod Strings
mod Tables
mod Counts
pub mod Json
pub mod Options
pub use Tests.*
pub use Lists.*
pub use Results.*
pub use Counts.*
unfoldable pub use Strings.*
unfoldable pub use Tables.*
pub use Prim.Native.Nat.{ℕ, zero, suc, ◌+◌, ◌-◌, ◌*◌, ◌/◌, ◌%◌, ◌^◌, ◌≤◌, ◌<◌}
pub use Prim.Native.String.{String}
pub use mathlib.Core.Path.{◌≡◌, refl, sym, ap, ◌∙◌, subst}
pub use mathlib.Core.Logic.{◌≢◌, ◌↔◌, ◌⊎◌, inl, inr}
pub use mathlib.Core.Bool.{Bool, true, false, not, ◌&&◌, ◌||◌}
pub use mathlib.Core.Option.{Option, none, some}
pub use mathlib.Core.List.{List, [], ◌∷◌, ◌++◌, map, Memᴰ}
pub use native.Mathlib.Omega.{arith}
pub use text.Mathlib.Text.{◌==◌ as str_eq}
pub use text.Mathlib.TextEquality.{eq_iff}
pub use package.sentriqora.Base.Strings.Trim.{trim_idempotent, length-trim}
