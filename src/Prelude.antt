-- ===== src/Prelude.antt =====
-- The names that the other modules share: the libraries', passed on, and those of the children.
mod Tests
mod Lists
mod Text
mod Sets
mod Decimal
mod Maps
mod Perms
mod Results
mod Words
pub use Tests.*
pub use Lists.*
pub use Text.*
pub use Sets.*
pub use Decimal.*
pub use Maps.*
pub use Perms.*
pub use Results.*
pub use Words.*
unfoldable pub use Text.{◌==◌, mem, insert, erase}
unfoldable pub use Decimal.{itoa}
unfoldable pub use Maps.{lookup, put, delete, modify}
pub use Prim.Native.Nat.{ℕ, zero, suc, ◌+◌, ◌-◌, ◌*◌, ◌/◌, ◌%◌, ◌^◌, ◌≤◌, ◌<◌, min}
pub use mathlib.Core.Path.{◌≡◌, refl, sym, ap, ◌∙◌, subst}
pub use mathlib.Core.Logic.{◌≢◌, ◌↔◌, ◌⊎◌, inl, inr}
pub use mathlib.Core.Bool.{Bool, true, false, ◌&&◌, ◌||◌}
pub use mathlib.Core.Option.{Option, none, some}
pub use mathlib.Core.List.{List, [], ◌∷◌, ◌++◌, map}
pub use native.Mathlib.Omega.{arith}
unfoldable pub use Words.{add64, sub64, slt64}
