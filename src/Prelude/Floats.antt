-- ===== src/Prelude/Floats.antt =====
-- What the code uses of `f64`: a type and its operations, which are a parameter of the models.
-- Nothing is assumed of them.
use Prim.Native.Nat.{ℕ}
use mathlib.Core.Bool.{Bool}

pub record Floats : Type 1 where
  pub F : Type 0
  -- The literal `a / b`.
  pub ratio : ℕ → ℕ → F
  pub infinity : F
  -- `x as f64` of a u64 and of an i64, and `f64::from` of an f32 by its bits.
  pub of_u64 : ℕ → F
  pub of_i64 : ℕ → F
  pub of_f32 : ℕ → F
  -- The f64 with these bits.
  pub of_bits : ℕ → F
  pub add : F → F → F
  pub sub : F → F → F
  pub mul : F → F → F
  pub div : F → F → F
  pub round : F → F
  -- `x as u64`, and as usize
  pub to_u64 : F → ℕ
  pub least : F → F → F
  pub greatest : F → F → F
  -- `x.clamp(low, high)`
  pub clamp : F → F → F → F
  pub at_least : F → F → Bool
  -- `x > y`, and `x > 0.0`.
  pub is_above : F → F → Bool
  pub is_positive : F → Bool
  pub is_finite : F → Bool
  pub is_nan : F → Bool
