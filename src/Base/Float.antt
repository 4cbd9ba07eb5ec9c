-- ===== src/Base/Float.antt =====
-- The f64 and f32 operations that the program calls, as an interface: the arithmetic of the
-- machine's floats is taken as given, and each law that a theorem needs is a hypothesis of it.
use Prim.Native.Nat.{ℕ}
use mathlib.Core.Bool.{Bool}

pub record FloatOps (F : Type 0) : Type 0 where
  -- `n as f64`, and `x as u64`, which truncates and saturates.
  pub of_ℕ : ℕ → F
  pub to_ℕ : F → ℕ
  -- `n as f64` of an i32, given as its 32-bit pattern.
  pub of_i32 : ℕ → F
  -- a literal of the source, written as a fraction in decimal.
  pub literal : ℕ → ℕ → F
  pub div : F → F → F
  pub mul : F → F → F
  pub ceil : F → F
  -- `x > y` and `x >= y`.
  pub gt : F → F → Bool
  pub ge : F → F → Bool
