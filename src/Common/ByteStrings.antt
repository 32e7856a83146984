-- ===== src/Common/ByteStrings.antt =====
-- Byte strings: lists of numbers below 256, with literals, equality and `trim`.
-- `trim` and its `isspace` (the C locale's) are common/string_utils.h.
use Prim.Native.Nat.{ℕ, ◌<◌}
use Prim.Native.Char.{code}
use Prim.Native.String.{String}
use mathlib.Core.Path.{◌≡◌}
use mathlib.Core.Logic.{◌↔◌}
use mathlib.Core.Bool.{Bool, true, false, ◌&&◌, ◌||◌}
use mathlib.Core.List.{List, [], ◌∷◌, reverse}
use native.Mathlib.Omega.{arith}
use turbo_ocr.Common.Tests.{◌==◌, leb, if◌then◌else◌}

abbrev pub Bytes : Type 0
Bytes = List ℕ

-- The code points of a literal; every literal of the development is ASCII.
abbrev pub codes : String → Bytes
codes String.[] = []
codes (String.◌∷◌ c s) = code c ∷ codes s

abbrev pub IsByte : ℕ → Type 0
IsByte b = b < 256

unfoldable pub bytes_eq : Bytes → Bytes → Bool
bytes_eq [] [] = true
bytes_eq (x ∷ xs) (y ∷ ys) = x == y && bytes_eq xs ys
bytes_eq _ _ = false

pub bytes_eq_iff : (xs ys : Bytes) → (bytes_eq xs ys ≡ true) ↔ (xs ≡ ys)
unfolding bytes_eq
bytes_eq_iff (x ∷ xs) (y ∷ ys) = ground (arith, bytes_eq_iff xs ys)
bytes_eq_iff _ _ = ground arith

pub bytes_eq_comm : (xs ys : Bytes) → bytes_eq xs ys ≡ bytes_eq ys xs
unfolding bytes_eq
bytes_eq_comm (x ∷ xs) (y ∷ ys) = ground (arith, bytes_eq_comm xs ys)
bytes_eq_comm [] [] = ground arith
bytes_eq_comm [] (y ∷ ys) = ground arith
bytes_eq_comm (x ∷ xs) [] = ground arith

abbrev pub is_empty {ℓ} : {A : Type ℓ} → List A → Bool
is_empty [] = true
is_empty (_ ∷ _) = false

-- `std::isspace` in the C locale.
unfoldable pub is_space : ℕ → Bool
is_space c = c == 32 || (leb 9 c && leb c 13)

unfoldable pub trim_left : Bytes → Bytes
trim_left [] = []
trim_left (c ∷ cs) = if is_space c then trim_left cs else c ∷ cs

unfoldable pub trim : Bytes → Bytes
unfolding trim_left is_space
trim s = reverse (trim_left (reverse (trim_left s)))
