-- ===== src/Common.antt =====
-- The names that the other modules share: the libraries' passed on, Boolean tests, lists over the
-- native numbers, signed integers, predicates over lists, and chains of `Option`.
mod Tests
mod Lists
mod Partial
mod Each
pub mod Int
pub mod Roll
pub mod Scan
pub use Tests.*
pub use Lists.*
pub use Partial.*
pub use Each.*
pub use Prim.Native.Nat.{ℕ, zero, suc, ◌+◌, ◌-◌, ◌*◌, ◌/◌, ◌%◌, ◌^◌, ◌≤◌, ◌<◌}
pub use mathlib.Core.Path.{◌≡◌, refl, sym, ap, subst, ◌∙◌}
pub use mathlib.Core.Logic.{◌≢◌, ◌↔◌, ◌⊎◌, inl, inr}
pub use mathlib.Core.Bool.{Bool, true, false, not, ◌&&◌, ◌||◌}
pub use mathlib.Core.Option.{Option, none, some}
pub use mathlib.Core.List.{List, [], ◌∷◌, ◌++◌, map}
pub use native.Mathlib.Omega.{arith}
