-- ===== src/Common/FloatOps.antt =====
-- Machine floats are a parameter: a record of the operations that the code calls on them. No law of
-- them is assumed, so what is proved holds for IEEE floats with their rounding and NaNs.
use Prim.Native.Nat.{ℕ}
use mathlib.Core.Bool.{Bool}
use turbo_ocr.Common.Ints.{ℤ}

pub record Floats : Type 1 where
  pub F : Type 0
  -- `static_cast<float>` and the literals, `ratio 15 100` for 0.15f.
  pub of_int : ℤ → F
  pub ratio : ℕ → ℕ → F
  pub add : F → F → F
  pub sub : F → F → F
  pub mul : F → F → F
  pub div : F → F → F
  pub fabs : F → F
  pub log1p : F → F
  -- a < b and a <= b.
  pub lt : F → F → Bool
  pub le : F → F → Bool
