-- ===== src/Prelude.antt =====
-- What the modules of this development share: the library's names, tests on numbers, list
-- functions over the native numbers, 64-bit arithmetic, and equality as an interface.
mod Tests
mod Lists
mod Words
mod Equality
mod Results
mod Indexing
mod Division
pub use Tests.*
pub use Lists.*
pub use Words.*
pub use Equality.*
pub use Results.*
pub use Indexing.*
pub use Division.*
pub use Prim.Native.Nat.{ℕ, zero, suc, ◌+◌, ◌-◌, ◌*◌, ◌/◌, ◌%◌, ◌^◌, ◌≤◌, ◌<◌, min, max}
pub use mathlib.Core.Path.{◌≡◌, refl, sym, ap, subst, ◌∙◌}
pub use mathlib.Core.Logic.{◌≢◌, ◌↔◌, ◌⊎◌, inl, inr}
pub use mathlib.Core.Bool.{Bool, true, false, not, ◌&&◌, ◌||◌}
pub use mathlib.Core.Option.{Option, none, some}
pub use mathlib.Core.List.{List, [], ◌∷◌, ◌++◌, map}
pub use native.Mathlib.Omega.{arith}
