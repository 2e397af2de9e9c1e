-- ===== src/Shared.antt =====
-- What the other modules share: the libraries' names passed on, Boolean tests, lists over the
-- native numbers, results with errors, texts as code points, and tables of rows.
mod Tests
mod Lists
mod Results
pub mod Text
pub mod Rows
pub use Tests.*
pub use Lists.*
pub use Results.*
pub use Prim.Native.Nat.{ℕ, zero, suc, ◌+◌, ◌-◌, ◌*◌, ◌/◌, ◌%◌, ◌≤◌, ◌<◌, min, max}
pub use Prim.Native.String.{String}
pub use mathlib.Core.Path.{◌≡◌, refl, sym, ap, ◌∙◌}
pub use mathlib.Core.Logic.{◌≢◌, ◌↔◌, ◌⊎◌, inl, inr}
pub use mathlib.Core.Bool.{Bool, true, false, not, ◌&&◌, ◌||◌}
pub use mathlib.Core.Option.{Option, none, some}
pub use mathlib.Core.List.{List, [], ◌∷◌, ◌++◌, map}
pub use mathlib.Core.List.{append_assoc, append-nil}
unfoldable pub use native.Mathlib.Decide.{dec_le, dec_lt, ℕ_discrete}
pub use native.Mathlib.Omega.{arith}
