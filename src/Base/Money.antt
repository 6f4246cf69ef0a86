-- ===== src/Base/Money.antt =====
-- Python's `float`, which the language provides and the program only uses: a type with operations,
-- a parameter of every definition that computes with prices and amounts.
use Prim.Native.Nat.{ℕ}
use mathlib.Core.Bool.{Bool}
use hanstock_svc.Base.Ints.{ℤ}

pub record Float (F : Type 0) : Type 0 where
  -- `float(n)`; not finite where `n` is beyond the range of floats
  pub of_nat : ℕ → F
  pub add : F → F → F
  pub sub : F → F → F
  pub mul : F → F → F
  pub div : F → F → F
  -- `-x`
  pub neg : F → F
  -- `<`, `<=` and `==`
  pub lt : F → F → Bool
  pub le : F → F → Bool
  pub eq : F → F → Bool
  -- `int(x // y)`
  pub int_div : F → F → ℤ
  -- `math.isfinite`, `x.is_integer()`, `math.floor` and `round(x, 2)`
  pub is_finite : F → Bool
  pub is_integer : F → Bool
  pub floor : F → ℤ
  pub round : F → F
