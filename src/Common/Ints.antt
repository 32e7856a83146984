-- ===== src/Common/Ints.antt =====
-- Signed integers over the native numbers, under the library's names, with the C++ `int` tests.
use Prim.Native.Nat.{ℕ, suc, ◌+◌, ◌-◌, ◌*◌}
use mathlib.Core.Bool.{Bool}
use turbo_ocr.Common.Tests.{ltb, leb, ◌==◌, if◌then◌else◌}
use mathlib.Core.Bool.{◌&&◌}

-- `negsuc n` is -(n + 1).
pub data ℤ : Type 0 where
  pos : ℕ → ℤ
  negsuc : ℕ → ℤ

abbrev pub above : ℤ → ℕ
above (pos n) = n
above (negsuc n) = 0

abbrev pub below : ℤ → ℕ
below (pos n) = 0
below (negsuc n) = suc n

-- The integer a - b of two numbers.
unfoldable pub diff : ℕ → ℕ → ℤ
diff a b = if ltb a b then negsuc (b - a - 1) else pos (a - b)

infixl 65 ◌+ℤ◌ ◌-ℤ◌
infixl 70 ◌*ℤ◌
unfoldable pub ◌+ℤ◌ : ℤ → ℤ → ℤ
unfolding diff
x +ℤ y = diff (above x + above y) (below x + below y)

unfoldable pub ◌-ℤ◌ : ℤ → ℤ → ℤ
unfolding diff
x -ℤ y = diff (above x + below y) (below x + above y)

unfoldable pub ◌*ℤ◌ : ℤ → ℤ → ℤ
unfolding diff
x *ℤ y = diff (above x * above y + below x * below y) (above x * below y + below x * above y)

abbrev pub ltb_ℤ : ℤ → ℤ → Bool
ltb_ℤ x y = ltb (above x + below y) (above y + below x)

abbrev pub leb_ℤ : ℤ → ℤ → Bool
leb_ℤ x y = leb (above x + below y) (above y + below x)

abbrev pub eq_ℤ : ℤ → ℤ → Bool
eq_ℤ x y = (above x == above y) && (below x == below y)

-- `std::min` and `std::max` on `int`.
abbrev pub min_ℤ : ℤ → ℤ → ℤ
min_ℤ x y = if ltb_ℤ y x then y else x

abbrev pub max_ℤ : ℤ → ℤ → ℤ
max_ℤ x y = if ltb_ℤ x y then y else x
