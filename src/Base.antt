-- ===== src/Base.antt =====
-- What every component shares: numbers, tests, memory, bits, integers and lists over native numbers.
pub mod Tests
pub mod Words
pub mod Buffers
pub mod Bits
pub mod Order
pub mod Lists
pub mod Outcome
pub mod Int
pub mod Family
pub use Lists.*
pub use Tests.*
unfoldable pub use Buffers.*
unfoldable pub use Order.*
pub use Prim.Native.Nat.{ℕ, zero, suc, ◌+◌, ◌-◌, ◌*◌, ◌/◌, ◌%◌, ◌^◌, ◌≤◌, ◌<◌, min, max}
pub use Prim.Native.Nat.{bit_and, bit_or, bit_xor}
pub use mathlib.Core.Path.{◌≡◌, refl, sym, ap, ◌∙◌}
pub use mathlib.Core.Logic.{◌≢◌, ◌↔◌, ◌⊎◌, inl, inr}
pub use mathlib.Core.Bool.{Bool, true, false, ◌&&◌, ◌||◌, not}
pub use mathlib.Core.Option.{Option, none, some}
pub use mathlib.Core.List.{List, [], ◌∷◌, ◌++◌, map}
pub use native.Mathlib.Omega.{arith}
