-- ===== src/Prelude.antt =====
-- The names that the other modules share: those of the libraries, passed on, and those of the children.
pub mod Tests
pub mod Lists
pub mod Texts
pub mod Outcomes
pub mod Int
pub mod Perms
pub use Tests.*
pub use Lists.*
unfoldable pub use Texts.*
pub use Outcomes.*
pub use Int.*
pub use Prim.Native.Nat.{ℕ, zero, suc, ◌+◌, ◌-◌, ◌*◌, ◌/◌, ◌%◌, ◌^◌, ◌≤◌, ◌<◌}
pub use mathlib.Core.Path.{◌≡◌, refl, sym, ap, ◌∙◌}
pub use mathlib.Core.Logic.{◌≢◌, ◌↔◌, ◌⊎◌, inl, inr}
pub use mathlib.Core.Bool.{Bool, true, false, not, ◌&&◌, ◌||◌}
pub use mathlib.Core.Option.{Option, none, some}
pub use mathlib.Core.List.{List, [], ◌∷◌, ◌++◌, map, append_assoc, append-nil}
pub use native.Mathlib.Omega.{arith}
