-- ===== src/Base/Float.antt =====
-- `f64` as the code uses it: an abstract carrier with the operations that the code calls. The
-- arithmetic of IEEE 754 is no part of this repository; a theorem that relies on one of its
-- properties takes that property as a hypothesis.
use Prim.Native.Nat.{ℕ, Ordering}
use mathlib.Core.Bool.{Bool}
use Prim.Native.String.{String}
use adguard_sentinel.Base.Int.{ℤ}

pub record Float : Type 1 where
  pub F : Type 0
  -- The literal `n / 10 ^ k`.
  pub literal : ℕ → ℕ → F
  -- `x as f64` from `u64` and from `i64`.
  pub of_u64 : ℕ → F
  pub of_i64 : ℤ → F
  -- `x as u64`.
  pub to_u64 : F → ℕ
  pub add : F → F → F
  pub sub : F → F → F
  pub mul : F → F → F
  pub div : F → F → F
  pub abs : F → F
  pub round : F → F
  pub max : F → F → F
  pub midpoint : F → F → F
  -- `<`, which is false where an operand is NaN.
  pub lt : F → F → Bool
  -- `<=`, false likewise.
  pub le : F → F → Bool
  -- `format!("{:.0}")`.
  pub show_rounded : F → String
  pub is_finite : F → Bool
  pub total_cmp : F → F → Ordering
