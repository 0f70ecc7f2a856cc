-- ===== src/Base.antt =====
-- The names that the other modules share: the libraries', passed on, and those of five children.
mod Tests
mod Lists
mod Texts
mod Perms
mod Decimals
pub mod Assoc
pub use Tests.*
pub use Lists.*
unfoldable pub use Texts.*
pub use Perms.*
unfoldable pub use Decimals.*
pub use Prim.Native.Nat.{ℕ, zero, suc, ◌+◌, ◌-◌, ◌*◌, ◌/◌, ◌%◌, ◌^◌, ◌≤◌, ◌<◌}
pub use mathlib.Core.Path.{◌≡◌, refl, sym, ap, ap₂, ◌∙◌, subst}
pub use mathlib.Core.Logic.{◌≢◌, ◌↔◌, ◌⊎◌, inl, inr}
pub use mathlib.Core.Bool.{Bool, true, false, not, ◌&&◌, ◌||◌}
pub use mathlib.Core.Option.{Option, none, some}
pub use mathlib.Core.List.{
  List, [], ◌∷◌, ◌++◌, map, reverse, append-nil, append_assoc, append_cancel_left, Perm,
  perm_middle,
}
pub use native.Mathlib.Omega.{arith}
