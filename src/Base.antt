-- ===== src/Base.antt =====
-- Shared names: the libraries', passed on, Boolean tests on the native numbers, lists measured by
-- native numbers, 32-bit arithmetic, and the command monad that every component is written in.
mod Tests
mod Lists
mod Words
mod Run
mod Preserve
mod Termination
pub use Tests.*
pub use Lists.*
pub use Words.*
pub use Run.*
pub use Preserve.*
pub use Termination.*
pub use Prim.Native.Nat.{ℕ, zero, suc, ◌+◌, ◌-◌, ◌*◌, ◌/◌, ◌%◌, ◌^◌, ◌≤◌, ◌<◌}
pub use Prim.Native.String.{String}
pub use mathlib.Core.Path.{◌≡◌, refl, sym, ap, subst, ◌∙◌}
pub use mathlib.Core.Logic.{◌≢◌, ◌↔◌, ◌⊎◌, inl, inr}
pub use mathlib.Core.Bool.{Bool, true, false, not, ◌&&◌, ◌||◌}
pub use mathlib.Core.Option.{Option, none, some}
pub use mathlib.Core.List.{List, [], ◌∷◌, ◌++◌, map}
pub use native.Mathlib.Omega.{arith}
