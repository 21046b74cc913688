-- ===== src/Common.antt =====
-- The names that the modules of the library share: those of the libraries, passed on, and those of
-- the children.
mod Tests
mod Lists
mod Bytes
mod Results
mod Pigeonhole
mod Text
pub use Tests.*
pub use Lists.*
pub use Bytes.*
pub use Results.*
pub use Pigeonhole.*
pub use Text.*
pub use Prim.Native.Nat.{ℕ, zero, suc, ◌+◌, ◌-◌, ◌*◌, ◌/◌, ◌%◌, ◌^◌, ◌≤◌, ◌<◌, min}
pub use mathlib.Core.Path.{◌≡◌, refl, sym, ap, ◌∙◌}
pub use mathlib.Core.Logic.{◌≢◌, ◌↔◌, ◌⊎◌, inl, inr}
pub use mathlib.Core.Bool.{Bool, true, false, not, ◌&&◌, ◌||◌}
pub use mathlib.Core.Option.{Option, none, some}
pub use mathlib.Core.List.{List, [], ◌∷◌, ◌++◌, map}
pub use native.Mathlib.Omega.{arith}
