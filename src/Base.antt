-- ===== src/Base.antt =====
-- Names that all modules share: those of the libraries, passed on, and the children's.
mod Tests
mod Lists
mod Int
mod Words
mod Partial
pub mod Bits
pub mod Xor
pub mod Table
pub mod Slices
pub mod Codes
pub use Tests.*
pub use Lists.*
pub use Int.*
pub use Words.*
pub use Partial.*
pub use Prim.Native.Nat.{
  ℕ, zero, suc, ◌+◌, ◌-◌, ◌*◌, ◌/◌, ◌%◌, ◌^◌, ◌≤◌, ◌<◌, bit_and, bit_or, bit_xor,
}
pub use mathlib.Core.Path.{◌≡◌, refl, sym, ap, ap₂, ◌∙◌}
pub use mathlib.Core.Logic.{◌≢◌, ◌↔◌, ◌⊎◌, inl, inr}
pub use mathlib.Core.Bool.{Bool, true, false, not, ◌&&◌, ◌||◌}
pub use mathlib.Core.Option.{Option, none, some}
pub use mathlib.Core.List.{List, [], ◌∷◌, ◌++◌}
pub use native.Mathlib.Omega.{arith}
