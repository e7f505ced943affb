-- ===== src/Base.antt =====
-- The names that the other modules share: the libraries' names, passed on, and the tests, maps,
-- texts, integers and results of the children.
mod Tests
mod Equality
mod Lists
pub mod Dict
pub mod Text
pub mod Split
pub mod Int
pub use Tests.*
pub use Equality.*
pub use Lists.*
pub use Prim.Native.String.{String}
pub use Prim.Native.Nat.{ℕ, zero, suc, ◌+◌, ◌-◌, ◌*◌, ◌≤◌, ◌<◌}
pub use mathlib.Core.Path.{◌≡◌, refl, sym, ap, ◌∙◌, fun_ext}
pub use mathlib.Core.Logic.{◌≢◌, ◌↔◌, ◌⊎◌, inl, inr}
pub use mathlib.Core.Bool.{Bool, true, false, not, ◌&&◌, ◌||◌}
pub use mathlib.Core.Option.{Option, none, some}
pub use mathlib.Core.List.{List, [], ◌∷◌, ◌++◌, map}
pub use native.Mathlib.Omega.{arith}
