-- ===== src/Prelude.antt =====
-- Shared names: the libraries' own, the Boolean tests, the results of fallible code, and the
-- rows of a database table. It models no code by itself.
mod Tests
mod Results
mod Time
mod Tables
mod Orderings
mod Keys
pub mod Chars
pub mod Order
pub mod TextKeys
pub mod Some
pub mod Decimal
pub mod Appended
pub use Tests.*
pub use Results.*
pub use Time.*
unfoldable pub use Tables.*
unfoldable pub use Orderings.*
pub use Keys.*
pub use Prim.Native.Nat.{ℕ, zero, suc, ◌+◌, ◌-◌, ◌*◌, ◌/◌, ◌%◌, ◌^◌, ◌≤◌, ◌<◌, min, max}
pub use Prim.Native.String.{String}
pub use mathlib.Core.Path.{◌≡◌, refl, sym, ap, ◌∙◌, subst}
pub use mathlib.Core.Logic.{◌≢◌, ◌↔◌, ◌⊎◌, inl, inr}
pub use mathlib.Core.Bool.{Bool, true, false, not, ◌&&◌, ◌||◌}
pub use mathlib.Core.Option.{Option, none, some}
pub use mathlib.Core.List.{List, [], ◌∷◌, ◌++◌, map}
pub use native.Mathlib.Omega.{arith}
pub use text.Mathlib.Text.{◌==◌ as str_eq}
pub use text.Mathlib.TextEquality.{eq_iff}
