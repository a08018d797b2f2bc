-- ===== src/Base.antt =====
-- What the modules share: the libraries' names, Boolean tests, arrays, bit laws, machine words
-- and the bytes of a buffer.
mod Tests
mod Arrays
mod Masks
mod Words
mod Buffer
mod Order
pub mod Int
pub use Tests.*
pub use Arrays.*
pub use Masks.*
unfoldable pub use Words.*
unfoldable pub use Buffer.*
unfoldable pub use Order.{lt_wf}
pub use Prim.Native.Nat.{ℕ, zero, suc, ◌+◌, ◌-◌, ◌*◌, ◌/◌, ◌%◌, ◌^◌, ◌≤◌, ◌<◌, bit_and, bit_or}
pub use mathlib.Core.Path.{◌≡◌, refl, sym, subst, ap, ap₂, ◌∙◌}
pub use mathlib.Core.Logic.{◌≢◌, ◌↔◌, ◌⊎◌, inl, inr}
pub use mathlib.Core.Bool.{Bool, true, false, not, ◌&&◌, ◌||◌}
pub use mathlib.Core.Option.{Option, none, some}
pub use mathlib.Core.List.{List, [], ◌∷◌, ◌++◌}
pub use native.Mathlib.Omega.{arith}
