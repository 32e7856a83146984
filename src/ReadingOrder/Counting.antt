-- ===== src/ReadingOrder/Counting.antt =====
-- How often a number stands in a list, and permutations by it.
use mathlib.Core.List.{Perm, perm_middle}
use mathlib.Core.List.Perm
use turbo_ocr.Common.{
  ℕ, zero, suc, ◌+◌, ◌<◌, ◌≤◌, ◌≡◌, refl, sym, ap, subst, List, [], ◌∷◌, ◌++◌, arith, ◌==◌, ==_iff,
  if◌then◌else◌, Bool-cases, inl, inr,
}

unfoldable pub count : ℕ → List ℕ → ℕ
count i [] = 0
count i (x ∷ xs) = (if x == i then 1 else 0) + count i xs

-- i, i + 1, … of length n: std::iota.
abbrev pub iota : ℕ → ℕ → List ℕ
iota zero i = []
iota (suc n) i = i ∷ iota n (suc i)

pub count-append : (i : ℕ) (xs ys : List ℕ) → count i (xs ++ ys) ≡ count i xs + count i ys
unfolding count
count-append i [] ys = omega arith
count-append i (x ∷ xs) ys = omega (arith, count-append i xs ys)

pub count-iota_below : (i n k : ℕ) → i < k → count i (iota n k) ≡ 0
unfolding count
count-iota_below i zero k h = refl
count-iota_below i (suc n) k h = ground (arith, count-iota_below i n (suc k) (omega arith))

pub count-iota_le : (i n k : ℕ) → count i (iota n k) ≤ 1
unfolding count
count-iota_le i zero k = omega arith
count-iota_le i (suc n) k = elim (Bool-cases (k == i)) [
  | inl e ↦ rw e (
      let same : k ≡ i = (==_iff k i).0 e in
      omega (arith, count-iota_below i n (suc k) (omega arith)))
  | inr e ↦ rw e (omega (arith, count-iota_le i n (suc k)))
]

-- The first copy of a number that stands in a list.
pub count-split :
    (i : ℕ) (ys : List ℕ)
    → 0 < count i ys
    → (front : List ℕ) × (back : List ℕ) × (ys ≡ front ++ (i ∷ back))
unfolding count
count-split i [] h = absurd (omega arith)
count-split i (y ∷ ys) h = elim (Bool-cases (y == i)) [
  | inl e ↦ ([], ys, rw ((==_iff y i).0 e) refl)
  | inr e ↦
      let found = count-split i ys (ground arith) in (y ∷ found.0, found.1, ap (◌∷◌ y) found.2)
]

count-zero-nil : (ys : List ℕ) → ((i : ℕ) → count i ys ≡ 0) → ys ≡ []
unfolding count
count-zero-nil [] h = refl
count-zero-nil (y ∷ ys) h = absurd (ground (arith, h y))

-- Lists with the same counts are permutations of each other.
pub Perm_of_count : (xs ys : List ℕ) → ((i : ℕ) → count i xs ≡ count i ys) → Perm xs ys
unfolding count
Perm_of_count [] ys h = subst (λ l. Perm [] l) (sym (count-zero-nil ys (λ i. sym (h i)))) Perm.rfl
Perm_of_count (x ∷ xs) ys h =
    let found = count-split x ys (ground (arith, h x)) in
    let front = found.0 in
    let back = found.1 in
    let same : (i : ℕ) → count i xs ≡ count i (front ++ back) = λ i. omega (
      arith,
      h i,
      ap (count i) found.2,
      count-append i front (x ∷ back),
      count-append i front back,
    ) in
    subst (λ l. Perm (x ∷ xs) l) (sym found.2)
      (Perm.trans (Perm.cons x (Perm_of_count xs (front ++ back) same))
        (Perm.symm (perm_middle front back)))
