-- ===== src/ReadingOrder/Profile.antt =====
-- The segments of a whole profile, in pixels: none shares a coordinate with another, and they hold
-- every significant bin.
use turbo_ocr.Common.{
  ℕ, suc, ◌+◌, ◌*◌, ◌<◌, ◌≤◌, ◌≡◌, refl, sym, subst, List, [], ◌∷◌, map, arith, ltb, ◌==◌, ==_iff,
  Bool-cases, inl, inr, ℤ, pos, negsuc, above, ltb_ℤ,
}
use turbo_ocr.Router.Types.{Rect}
use turbo_ocr.ReadingOrder.Counting.{count}
use turbo_ocr.ReadingOrder.Projection.{
  projection_scale_for, projection_by_bboxes_pmr, max_end_for, ProjectionSegment, significant,
  split_significant, split_projection_profile,
}
use turbo_ocr.ReadingOrder.XyCut.{scale_segment, lift_segments}
use turbo_ocr.ReadingOrder.Segments.{
  hits, Above, hits-le_one, hits-later, hits-at, significant-Above,
}

scale_one : (segs : List ProjectionSegment) → map (scale_segment 1) segs ≡ segs
scale_one [] = refl
scale_one (seg ∷ segs) = ground (arith, scale_one segs)

pub lift_segments-eq :
    (k : ℕ) (segs : List ProjectionSegment)
    → 0 < k
    → lift_segments k segs ≡ map (scale_segment k) segs
lift_segments-eq k segs h = elim (Bool-cases (ltb 1 k)) [
  | inl e ↦ rw e refl
  | inr e ↦
      let one : k ≡ 1 = ground arith in
      rw e (sym (subst (λ n. map (scale_segment n) segs ≡ segs) (sym one) (scale_one segs)))
]

hits-negative : (n : ℕ) (segs : List ProjectionSegment) → hits (negsuc n) segs ≡ 0
unfolding hits
hits-negative n [] = refl
hits-negative n (seg ∷ segs) = ground (arith, hits-negative n segs)

abbrev Increasing : List ℕ → Type 0
Increasing [] = Unit
Increasing (s ∷ sig) = Above s sig

significant-Increasing : (v : ℤ) (i : ℕ) (bins : List ℕ) → Increasing (significant v i bins)
significant-Increasing v i [] = tt
significant-Increasing v i (b ∷ bins) = elim (Bool-cases (ltb_ℤ v (pos b))) [
  | inl e ↦ rw e (significant-Above v i (suc i) bins (omega arith))
  | inr e ↦ rw e (significant-Increasing v (suc i) bins)
]

split_significant-le_one :
    (gap : ℤ) (k p : ℕ) (sig : List ℕ)
    → Increasing sig
    → hits (pos p) (map (scale_segment k) (split_significant gap sig)) ≤ 1
unfolding hits
split_significant-le_one gap k p [] a = omega arith
split_significant-le_one gap k p (s ∷ sig) a = hits-le_one gap k p s s sig a (omega arith)

-- In pixels, no coordinate lies in two segments of a profile.
pub profile-le_one :
    (bins : List ℕ) (v gap z : ℤ) (k : ℕ)
    → 0 < k
    → hits z (lift_segments k (split_projection_profile bins v gap)) ≤ 1
unfolding split_projection_profile
profile-le_one bins v gap (negsuc n) k h =
    omega (arith, hits-negative n (lift_segments k (split_projection_profile bins v gap)))
profile-le_one bins v gap (pos p) k h =
    rw (lift_segments-eq k (split_projection_profile bins v gap) h)
      (split_significant-le_one gap k p (significant v 0 bins) (significant-Increasing v 0 bins))

split_significant-one :
    (gap : ℤ) (k p i : ℕ) (sig : List ℕ)
    → Increasing sig
    → i * k ≤ p
    → p < (i + 1) * k
    → 0 < count i sig
    → hits (pos p) (map (scale_segment k) (split_significant gap sig)) ≡ 1
unfolding count
split_significant-one gap k p i [] a low high h = absurd (omega arith)
split_significant-one gap k p i (s ∷ sig) a low high h = elim (Bool-cases (s == i)) [
  | inl e ↦ hits-at gap k p i s s sig a (omega arith) low high ((==_iff s i).0 e)
  | inr e ↦ hits-later gap k p i s s sig a (omega arith) low high (ground arith)
]

-- The pixels of a significant bin lie in exactly one segment.
pub profile-one :
    (bins : List ℕ) (v gap : ℤ) (k p i : ℕ)
    → 0 < k
    → i * k ≤ p
    → p < (i + 1) * k
    → 0 < count i (significant v 0 bins)
    → hits (pos p) (lift_segments k (split_projection_profile bins v gap)) ≡ 1
unfolding split_projection_profile
profile-one bins v gap k p i h low high sig =
    rw (lift_segments-eq k (split_projection_profile bins v gap) h) (
      split_significant-one gap k p i (significant v 0 bins) (significant-Increasing v 0 bins) low
        high sig)

pub projection_scale_for-pos : (max_end : ℕ) → 0 < projection_scale_for max_end
unfolding projection_scale_for
projection_scale_for-pos max_end = ground arith

pub scale_pos : (rects : List Rect) (axis : ℕ) → 0 < (projection_by_bboxes_pmr rects axis).scale
unfolding projection_by_bboxes_pmr
scale_pos rects axis = ground (arith, projection_scale_for-pos (above (max_end_for rects axis)))
