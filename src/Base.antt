-- ===== src/Base.antt =====
-- The names that the other modules share: the libraries', passed on, Boolean tests and the
-- conditional (Base/Tests), lists under the native numbers (Base/Lists) and machine words
-- (Base/Words, Base/Bits).
mod Tests
mod Lists
mod Text
mod Words
mod Bits
pub use Tests.*
pub use Lists.*
pub use Text.*
pub use Words.*
pub use Bits.*
pub use Prim.Native.Nat.{ℕ, zero, suc, ◌+◌, ◌-◌, ◌*◌, ◌/◌, ◌%◌, ◌^◌, ◌≤◌, ◌<◌, bit_and, bit_or}
pub use mathlib.Core.Path.{◌≡◌, refl, sym, ap, ◌∙◌}
pub use mathlib.Core.Logic.{◌≢◌, ◌↔◌, ◌⊎◌, inl, inr}
pub use mathlib.Core.Bool.{Bool, true, false, not, ◌&&◌, ◌||◌}
pub use mathlib.Core.Option.{Option, none, some}
pub use mathlib.Core.List.{List, [], ◌∷◌, ◌++◌, map}
pub use native.Mathlib.Omega.{arith}
