-- ===== src/Prelude.antt =====
-- The names that every module shares: the libraries' names passed on, Boolean tests, lists and
-- bytes over the native numbers, machine words, decimal print.
mod Tests
mod Lists
mod Text
pub mod Words
pub mod Int
pub mod Parse
pub use Tests.*
unfoldable pub use Tests.{holds_below}
pub use Lists.*
unfoldable pub use Text.{str_eq, decimal}
pub use Text.{Bytes, codes, utf8, str_eq_iff, str_eq_refl}
pub use Prim.Native.Nat.{ℕ, zero, suc, ◌+◌, ◌-◌, ◌*◌, ◌/◌, ◌%◌, ◌^◌, ◌≤◌, ◌<◌}
pub use mathlib.Core.Path.{◌≡◌, refl, sym, ap, ap₂, subst, ◌∙◌}
pub use mathlib.Core.Logic.{◌≢◌, ◌↔◌, ◌⊎◌, inl, inr}
pub use mathlib.Core.Bool.{Bool, true, false, not, ◌&&◌, ◌||◌}
pub use mathlib.Core.Option.{Option, none, some}
pub use mathlib.Core.List.{List, [], ◌∷◌, ◌++◌, map, append_assoc, append-nil}
pub use native.Mathlib.Omega.{arith}
