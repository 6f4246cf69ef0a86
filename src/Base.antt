-- ===== src/Base.antt =====
-- The names that every part shares: the libraries', passed on, and those of the children.
mod Tests
mod Ints
pub mod Sums
mod Money
mod Tables
pub mod Results
pub mod Actions
pub mod Keeps
pub mod Inversion
unfoldable pub use Tests.*
unfoldable pub use Ints.*
unfoldable pub use Money.*
unfoldable pub use Tables.*
pub use Results.{
  Error, value_error, order_state_error, concurrent_order_update, protection_error, type_error,
  runtime_error, key_error, integrity_error, assertion_error, overflow_error, broker_error, Result,
  ok, err, Result-cases,
}
pub use Prim.Native.Nat.{ℕ, zero, suc, ◌+◌, ◌-◌, ◌*◌, ◌≤◌, ◌<◌}
pub use Prim.Native.String.{String}
pub use mathlib.Core.Path.{◌≡◌, refl, sym, ap, ◌∙◌, subst}
pub use mathlib.Core.Logic.{◌≢◌, ◌↔◌, ◌⊎◌, inl, inr}
pub use mathlib.Core.Bool.{Bool, true, false, ◌&&◌, ◌||◌, not}
pub use mathlib.Core.Option.{Option, none, some}
pub use mathlib.Core.List.{List, [], ◌∷◌, ◌++◌, map}
pub use native.Mathlib.Omega.{arith}
pub use text.Mathlib.Text.{◌==◌ as str_eq}
pub use text.Mathlib.TextEquality.{eq_iff}
