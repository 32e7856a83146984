-- ===== src/ReadingOrder/Segments.antt =====
-- The segments of a profile do not overlap: a coordinate lies in one of them at most.
use mathlib.Core.List.{reverse, reverse_aux}
use native.Mathlib.Nat.{mul-le-mul_right}
use turbo_ocr.Common.{
  ℕ, suc, ◌+◌, ◌*◌, ◌<◌, ◌≤◌, ◌≡◌, sym, subst, true, false, List, [], ◌∷◌, ◌++◌, map, arith, ◌==◌,
  ==_iff, if◌then◌else◌, Bool-cases, inl, inr, ℤ, pos, ltb_ℤ, ◌-ℤ◌,
}
use turbo_ocr.ReadingOrder.Counting.{count}
use turbo_ocr.ReadingOrder.Projection.{ProjectionSegment, significant, split_from}
use turbo_ocr.ReadingOrder.XyCut.{in_segment, scale_segment}

-- The number of segments that a coordinate lies in.
unfoldable pub hits : ℤ → List ProjectionSegment → ℕ
hits z [] = 0
hits z (seg ∷ segs) = (if in_segment seg z then 1 else 0) + hits z segs

pub hits-append :
    (z : ℤ) (xs ys : List ProjectionSegment) → hits z (xs ++ ys) ≡ hits z xs + hits z ys
unfolding hits
hits-append z [] ys = omega arith
hits-append z (x ∷ xs) ys = omega (arith, hits-append z xs ys)

hits-reverse_aux :
    (z : ℤ) (xs ys : List ProjectionSegment) → hits z (reverse_aux xs ys) ≡ hits z xs + hits z ys
unfolding hits
hits-reverse_aux z [] ys = omega arith
hits-reverse_aux z (x ∷ xs) ys = omega (arith, hits-reverse_aux z xs (x ∷ ys))

pub hits-reverse : (z : ℤ) (xs : List ProjectionSegment) → hits z (reverse xs) ≡ hits z xs
unfolding hits
hits-reverse z xs = omega (arith, hits-reverse_aux z xs [])

-- Increasing from `prev` on.
abbrev pub Above : ℕ → List ℕ → Type 0
Above prev [] = Unit
Above prev (s ∷ sig) = (prev < s) × Above s sig

pub Above-weaken : (p q : ℕ) (sig : List ℕ) → p ≤ q → Above q sig → Above p sig
Above-weaken p q [] h a = a
Above-weaken p q (s ∷ sig) h a = (omega (arith, a.0), a.1)

pub significant-Above : (v : ℤ) (p i : ℕ) (bins : List ℕ) → p < i → Above p (significant v i bins)
significant-Above v p i [] h = tt
significant-Above v p i (b ∷ bins) h = elim (Bool-cases (ltb_ℤ v (pos b))) [
  | inl e ↦ rw e (h, significant-Above v i (suc i) bins (omega arith))
  | inr e ↦ rw e (significant-Above v p (suc i) bins (omega arith))
]

pub scale_le : (k a b : ℕ) → a ≤ b → a * k ≤ b * k
scale_le k a b h = mul-le-mul_right k h

abbrev bins_segment : ℕ → ℕ → ProjectionSegment
bins_segment a b = record { start = a; stop = b }

outside_below :
    (p a b k : ℕ) → p < a * k → in_segment (scale_segment k (bins_segment a b)) (pos p) ≡ false
outside_below p a b k h = ground arith

outside_above :
    (p a b k : ℕ) → b * k ≤ p → in_segment (scale_segment k (bins_segment a b)) (pos p) ≡ false
outside_above p a b k h = ground arith

inside :
    (p a b k : ℕ)
    → a * k ≤ p
    → p < b * k
    → in_segment (scale_segment k (bins_segment a b)) (pos p) ≡ true
inside p a b k h l = ground arith

-- Pixels of a scaled segment list that starts at `start`.
abbrev pub pixel_hits : ℕ → ℕ → ℤ → ℕ → ℕ → List ℕ → ℕ
pixel_hits p k gap start prev sig =
    hits (pos p) (map (scale_segment k) (split_from gap start prev sig))

-- No segment holds what lies before the first.
hits-below :
    (gap : ℤ) (k p start prev : ℕ) (sig : List ℕ)
    → Above prev sig
    → start ≤ prev
    → p < start * k
    → pixel_hits p k gap start prev sig ≡ 0
unfolding hits
hits-below gap k p start prev [] a le h = rw (outside_below p start (prev + 1) k h) (omega arith)
hits-below gap k p start prev (s ∷ sig) a le h =
    let mono = scale_le k start s (omega (arith, a.0)) in
    elim (Bool-cases (ltb_ℤ gap (pos s -ℤ pos prev))) [
      | inl e ↦ rw e (
          rw (outside_below p start (prev + 1) k h)
            (omega (arith, hits-below gap k p s s sig a.1 (omega arith) (omega (arith, mono)))))
      | inr e ↦ rw e (hits-below gap k p start s sig a.1 (omega (arith, a.0)) h)
    ]

-- What lies in the segment that is open is in that one only.
hits-open :
    (gap : ℤ) (k p start prev : ℕ) (sig : List ℕ)
    → Above prev sig
    → start * k ≤ p
    → p < (prev + 1) * k
    → pixel_hits p k gap start prev sig ≡ 1
unfolding hits
hits-open gap k p start prev [] a le h = rw (inside p start (prev + 1) k le h) (omega arith)
hits-open gap k p start prev (s ∷ sig) a le h =
    let near = scale_le k (prev + 1) s (omega (arith, a.0)) in
    let next = scale_le k (prev + 1) (s + 1) (omega (arith, a.0)) in
    elim (Bool-cases (ltb_ℤ gap (pos s -ℤ pos prev))) [
      | inl e ↦ rw e (
          rw (inside p start (prev + 1) k le h)
            (omega (arith, hits-below gap k p s s sig a.1 (omega arith) (omega (arith, near)))))
      | inr e ↦ rw e (hits-open gap k p start s sig a.1 le (omega (arith, next)))
    ]

-- No pixel lies in two segments.
pub hits-le_one :
    (gap : ℤ) (k p start prev : ℕ) (sig : List ℕ)
    → Above prev sig
    → start ≤ prev
    → pixel_hits p k gap start prev sig ≤ 1
unfolding hits
hits-le_one gap k p start prev [] a le = ground arith
hits-le_one gap k p start prev (s ∷ sig) a le = elim (Bool-cases (ltb_ℤ gap (pos s -ℤ pos prev))) [
  | inl e ↦
      rw e
        (elim (Bool-cases (in_segment (scale_segment k (bins_segment start (prev + 1))) (pos p))) [
          | inl here ↦ rw here (
              let near = scale_le k (prev + 1) s (omega (arith, a.0)) in
              let below_stop : p < (prev + 1) * k = ground arith in
              omega (arith, hits-below gap k p s s sig a.1 (omega arith) (omega (arith, near))))
          | inr out ↦ rw out (omega (arith, hits-le_one gap k p s s sig a.1 (omega arith)))
        ])
  | inr e ↦ rw e (hits-le_one gap k p start s sig a.1 (omega (arith, a.0)))
]

-- A number of an increasing list is above its bound.
count-Above : (i prev : ℕ) (sig : List ℕ) → Above prev sig → 0 < count i sig → prev < i
unfolding count
count-Above i prev [] a h = absurd (omega arith)
count-Above i prev (s ∷ sig) a h = elim (Bool-cases (s == i)) [
  | inl e ↦ omega (arith, a.0, (==_iff s i).0 e)
  | inr e ↦ omega (arith, a.0, count-Above i s sig a.1 (ground arith))
]

-- The same where the open segment has just taken up the pixel's bin.
pub hits-at :
    (gap : ℤ) (k p i start s : ℕ) (sig : List ℕ)
    → Above s sig
    → start ≤ s
    → i * k ≤ p
    → p < (i + 1) * k
    → s ≡ i
    → pixel_hits p k gap start s sig ≡ 1
hits-at gap k p i start s sig a le low high same =
    let first = scale_le k start i (omega (arith, le, same)) in
    hits-open gap k p start s sig a (omega (arith, first))
      (subst (λ n. p < (n + 1) * k) (sym same) high)

-- The pixels of a significant bin lie in one segment.
pub hits-later :
    (gap : ℤ) (k p i start prev : ℕ) (sig : List ℕ)
    → Above prev sig
    → start ≤ prev
    → i * k ≤ p
    → p < (i + 1) * k
    → 0 < count i sig
    → pixel_hits p k gap start prev sig ≡ 1
unfolding hits count
hits-later gap k p i start prev [] a le low high h = absurd (omega arith)
hits-later gap k p i start prev (s ∷ sig) a le low high h =
    let above = count-Above i prev (s ∷ sig) a h in
    let past = scale_le k (prev + 1) i (omega (arith, above)) in
    let first = scale_le k start i (omega (arith, above)) in
    let out = outside_above p start (prev + 1) k (omega (arith, past)) in
    let far = ltb_ℤ gap (pos s -ℤ pos prev) in
    let rest : (b : ℕ) → b ≤ s → pixel_hits p k gap b s sig ≡ 1 = λ b le_s.
      elim (Bool-cases (s == i)) [
        | inl e ↦ hits-at gap k p i b s sig a.1 le_s low high ((==_iff s i).0 e)
        | inr e ↦ hits-later gap k p i b s sig a.1 le_s low high (ground arith)
      ] in
    elim (Bool-cases far) [
      | inl e ↦ rw e (rw out (omega (arith, rest s (omega arith))))
      | inr e ↦ rw e (rest start (omega (arith, a.0)))
    ]
