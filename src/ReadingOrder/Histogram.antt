-- ===== src/ReadingOrder/Histogram.antt =====
-- What a projection profile counts.
use native.Mathlib.Nat.{le-div_iff_mul-le, div-lt_iff_lt-mul}
use turbo_ocr.Common.{
  ℕ, zero, suc, ◌+◌, ◌-◌, ◌*◌, ◌/◌, ◌<◌, ◌≤◌, ◌≡◌, refl, ap, ◌↔◌, Bool, true, false, ◌&&◌, List, [],
  ◌∷◌, arith, ltb, leb, ◌==◌, if◌then◌else◌, length, Bool-cases, inl, inr, ℤ, pos, negsuc, above,
  ltb_ℤ, leb_ℤ, min_ℤ, max_ℤ,
}
use turbo_ocr.Router.Types.{Rect}
use turbo_ocr.ReadingOrder.Projection.{
  extent_start, extent_end, bump, bump_bins, bins_up, clip_start, clip_end, add_rect,
}

-- The value of a bin, 0 beyond the end.
abbrev pub bin_at : List ℕ → ℕ → ℕ
bin_at [] i = 0
bin_at (v ∷ vs) zero = v
bin_at (v ∷ vs) (suc i) = bin_at vs i

-- The rectangle has a pixel in the bin: [s, e) meets [i * k, (i + 1) * k).
abbrev pub touches : ℕ → ℕ → ℕ → Rect → Bool
touches axis k i r =
    ltb_ℤ (max_ℤ (extent_start r axis) (pos (i * k)))
      (min_ℤ (extent_end r axis) (pos ((i + 1) * k)))

unfoldable pub touching : ℕ → ℕ → ℕ → List Rect → ℕ
touching axis k i [] = 0
touching axis k i (r ∷ rs) = (if touches axis k i r then 1 else 0) + touching axis k i rs

length-bump : (j : ℕ) (bins : List ℕ) → length (bump j bins) ≡ length bins
length-bump j [] = refl
length-bump zero (v ∷ vs) = refl
length-bump (suc j) (v ∷ vs) = ap suc (length-bump j vs)

bin_at-bump :
    (j i : ℕ) (bins : List ℕ)
    → bin_at (bump j bins) i ≡ bin_at bins i + (if j == i && ltb i (length bins) then 1 else 0)
bin_at-bump j i [] = ground arith
bin_at-bump zero zero (v ∷ vs) = ground arith
bin_at-bump zero (suc i) (v ∷ vs) = ground arith
bin_at-bump (suc j) zero (v ∷ vs) = ground arith
bin_at-bump (suc j) (suc i) (v ∷ vs) = ground (arith, bin_at-bump j i vs)

length-bump_bins : (n j : ℕ) (bins : List ℕ) → length (bump_bins n j bins) ≡ length bins
length-bump_bins zero j bins = refl
length-bump_bins (suc n) j bins =
    omega (arith, length-bump_bins n (suc j) (bump j bins), length-bump j bins)

bin_at-bump_bins :
    (n j i : ℕ) (bins : List ℕ)
    → bin_at (bump_bins n j bins) i
      ≡ bin_at bins i + (if (leb j i && ltb i (j + n)) && ltb i (length bins) then 1 else 0)
bin_at-bump_bins zero j i bins = ground arith
bin_at-bump_bins (suc n) j i bins =
    ground
      (arith, bin_at-bump_bins n (suc j) i (bump j bins), bin_at-bump j i bins, length-bump j bins)

pub next_bin : (i k : ℕ) → (i + 1) * k ≡ i * k + k
next_bin i k = omega arith

pub div-lt : (a k n : ℕ) → 0 < k → (a / k < n) ↔ (a < n * k)
div-lt a k n h = div-lt_iff_lt-mul h

le-div : (n b k : ℕ) → 0 < k → (n ≤ b / k) ↔ (n * k ≤ b)
le-div n b k h = le-div_iff_mul-le h

-- The bins of [a, b) start at the one of `a`, and stop behind the one of b - 1.
first_lem : (a k i : ℕ) → 0 < k → leb (a / k) i ≡ ltb a ((i + 1) * k)
first_lem a k i h = let e = div-lt a k (i + 1) h in ground (arith, e.0, e.1)

pub last_lem : (b k i : ℕ) → 0 < k → ltb i (bins_up b k) ≡ ltb (i * k) b
last_lem b k i h = let e = le-div (i + 1) (b + k - 1) k h in ground (arith, e.0, e.1, next_bin i k)

pub add_rect-length :
    (m : ℤ) (k axis : ℕ) (r : Rect) (bins : List ℕ)
    → length (add_rect m k axis r bins) ≡ length bins
unfolding add_rect
add_rect-length m k axis r bins =
    let a = above (clip_start r axis) / k in
    let b = bins_up (above (clip_end m r axis)) k in ground (arith, length-bump_bins (b - a) a bins)

clip_lem : (e m : ℤ) → leb_ℤ e m ≡ true → min_ℤ e m ≡ e
clip_lem e m h = ground arith

-- [s, e) meets [u, v), where s may be negative.
meets_lem :
    (s e : ℤ) (u v : ℕ)
    → u < v
    → leb_ℤ e (max_ℤ s (pos 0)) ≡ false
    → ltb_ℤ (max_ℤ s (pos u)) (min_ℤ e (pos v))
      ≡ (ltb (above (max_ℤ s (pos 0))) v && ltb u (above e))
meets_lem (pos s) (pos e) u v lt h = ground arith
meets_lem (pos s) (negsuc e) u v lt h = ground arith
meets_lem (negsuc s) (pos e) u v lt h = ground arith
meets_lem (negsuc s) (negsuc e) u v lt h = ground arith

misses_lem :
    (s e : ℤ) (u v : ℕ)
    → leb_ℤ e (max_ℤ s (pos 0)) ≡ true
    → ltb_ℤ (max_ℤ s (pos u)) (min_ℤ e (pos v)) ≡ false
misses_lem (pos s) (pos e) u v h = ground arith
misses_lem (pos s) (negsuc e) u v h = ground arith
misses_lem (negsuc s) (pos e) u v h = ground arith
misses_lem (negsuc s) (negsuc e) u v h = ground arith

-- One rectangle adds one to the bins that it touches.
pub add_rect-bin_at :
    (m : ℤ) (k axis i : ℕ) (r : Rect) (bins : List ℕ)
    → 0 < k
    → leb_ℤ (extent_end r axis) m ≡ true
    → bin_at (add_rect m k axis r bins) i
      ≡ bin_at bins i + (if touches axis k i r && ltb i (length bins) then 1 else 0)
unfolding add_rect
add_rect-bin_at m k axis i r bins h le =
    let s = extent_start r axis in
    let e = extent_end r axis in
    let a = above (clip_start r axis) in
    rw (clip_lem e m le) (elim (Bool-cases (leb_ℤ e (clip_start r axis))) [
      | inl out ↦ rw (out, misses_lem s e (i * k) ((i + 1) * k) out) (omega arith)
      | inr meets ↦
          rw (meets, meets_lem s e (i * k) ((i + 1) * k) (omega (arith, next_bin i k, h)) meets)
            (ground (
              arith,
              bin_at-bump_bins (bins_up (above e) k - a / k) (a / k) i bins,
              first_lem a k i h,
              last_lem (above e) k i h,
            ))
    ])
