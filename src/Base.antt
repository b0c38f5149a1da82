-- ===== src/Base.antt =====
-- The names that the other modules share: those of the libraries, and of the children below.
mod Tests
mod Lists
mod Blocks
mod Loop
mod Int
mod Exits
mod Bits
mod Layout
mod Sums
mod Rearranging
pub use Tests.*
pub use Lists.*
unfoldable pub use Blocks.*
unfoldable pub use Loop.*
pub use Int.*
pub use Exits.*
pub use Bits.*
pub use Layout.*
pub use Sums.*
pub use Rearranging.*
pub use Prim.Native.Nat.{ℕ, zero, suc, ◌+◌, ◌-◌, ◌*◌, ◌/◌, ◌%◌, ◌^◌, ◌≤◌, ◌<◌, min, max}
pub use Prim.Native.Nat.{bit_and, bit_or}
pub use mathlib.Core.Path.{◌≡◌, refl, sym, ap, ap₂, subst, ◌∙◌}
pub use mathlib.Core.Logic.{◌≢◌, ◌↔◌, ◌⊎◌, inl, inr}
pub use mathlib.Core.Bool.{Bool, true, false, not, ◌&&◌, ◌||◌}
pub use mathlib.Core.Option.{Option, none, some}
pub use mathlib.Core.List.{List, [], ◌∷◌, ◌++◌, map}
pub use native.Mathlib.Omega.{arith}
