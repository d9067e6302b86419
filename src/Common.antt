-- ===== src/Common.antt =====
-- The names that the other modules share: those of the libraries, passed on, and those of the
-- children. `Tests` has the Boolean tests, `Lists` and `Sort` the lists, `Keys` the equality of keys,
-- `Texts` the texts, `Int` the integers and `Table` the JavaScript `Map`.
mod Tests
mod Lists
mod Keys
mod Sort
mod Texts
mod Int
pub mod Table
pub use Tests.*
pub use Lists.*
pub use Keys.*
unfoldable pub use Sort.*
unfoldable pub use Texts.*
pub use Int.*
pub use Prim.Native.Nat.{ℕ, zero, suc, ◌+◌, ◌-◌, ◌*◌, ◌/◌, ◌%◌, ◌^◌, ◌≤◌, ◌<◌, min}
pub use mathlib.Core.Path.{◌≡◌, refl, sym, ap, subst, ◌∙◌}
pub use mathlib.Core.Logic.{◌≢◌, ◌↔◌, ◌⊎◌, inl, inr}
pub use mathlib.Core.Bool.{Bool, true, false, ◌&&◌, ◌||◌, not}
pub use mathlib.Core.Option.{Option, none, some}
pub use mathlib.Core.List.{List, [], ◌∷◌, ◌++◌, map}
pub use native.Mathlib.Omega.{arith}
