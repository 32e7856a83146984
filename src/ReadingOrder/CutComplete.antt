-- ===== src/ReadingOrder/CutComplete.antt =====
-- Both segment lists hold each box of positive size on the page in one segment.
use native.Mathlib.Nat.{div-mul-le_self}
use turbo_ocr.Common.{
  ℕ, zero, suc, ◌+◌, ◌*◌, ◌/◌, ◌<◌, ◌≤◌, ◌≡◌, refl, ap, subst, true, List, [], ◌∷◌, arith, ℤ, pos,
  negsuc, above, below, ltb_ℤ, min_ℤ, max_ℤ, All,
}
use turbo_ocr.Router.Types.{Rect}
use turbo_ocr.ReadingOrder.Counting.{count}
use turbo_ocr.ReadingOrder.Projection.{
  ProjectionSegment, extent_start, extent_end, projection_by_bboxes_pmr, significant,
  split_projection_profile,
}
use turbo_ocr.ReadingOrder.Segments.{hits}
use turbo_ocr.ReadingOrder.Profile.{profile-one}
use turbo_ocr.ReadingOrder.Histogram.{bin_at, touches, touching, div-lt}
use turbo_ocr.ReadingOrder.HistogramLaws.{projection_by_bboxes-CountsPixels}
use turbo_ocr.ReadingOrder.CutLaws.{selected, selected-cons, selected-nil}
use turbo_ocr.ReadingOrder.XyCut.{
  IndexedRect, indices_of, rects_of, y_min, x_min_abs, x_segments, y_segments, gap_in_bins,
  lift_segments,
}

-- 0 <= start < end, along both axes.
abbrev pub HasExtent : ℤ → ℤ → Type 0
HasExtent s e = (below s ≡ 0) × (ltb_ℤ s e ≡ true)

abbrev pub HasArea : Rect → Type 0
HasArea r = HasExtent r.x0 r.x1 × HasExtent r.y0 r.y1

-- The bin of the first pixel.
first_pixel :
    (s e : ℤ) (k : ℕ)
    → 0 < k
    → HasExtent s e
    → let i = above s / k in (i * k ≤ above s) × (above s < (i + 1) * k)
first_pixel s e k h x =
    (div-mul-le_self (above s) k, (div-lt (above s) k (above s / k + 1) h).0 (omega arith))

touches_lem :
    (s e : ℤ) (u v : ℕ)
    → u ≤ above s
    → above s < v
    → HasExtent s e
    → ltb_ℤ (max_ℤ s (pos u)) (min_ℤ e (pos v)) ≡ true
touches_lem (pos s) (pos e) u v le lt x = ground arith
touches_lem (pos s) (negsuc e) u v le lt x = ground arith
touches_lem (negsuc s) e u v le lt x = ground arith

touches_first :
    (axis k : ℕ) (r : Rect)
    → 0 < k
    → HasExtent (extent_start r axis) (extent_end r axis)
    → touches axis k (above (extent_start r axis) / k) r ≡ true
touches_first axis k r h x =
    let i = above (extent_start r axis) / k in
    let b = first_pixel (extent_start r axis) (extent_end r axis) k h x in
    touches_lem (extent_start r axis) (extent_end r axis) (i * k) ((i + 1) * k) b.0 b.1 x

significant-bin :
    (bins : List ℕ) (from i at : ℕ)
    → at ≡ from + i
    → 0 < bin_at bins i
    → 0 < count at (significant (pos 0) from bins)
unfolding count
significant-bin [] from i at e h = absurd (omega arith)
significant-bin (v ∷ vs) from zero at e h = ground arith
significant-bin (v ∷ vs) from (suc i) at e h =
    ground (arith, significant-bin vs (suc from) i at (omega arith) h)

-- A touched pixel is in one segment of the profile.
profile-touched :
    (rects : List Rect) (axis : ℕ) (gap : ℤ) (r : Rect)
    → axis < 2
    → ((k i : ℕ) → touching axis k i (r ∷ []) ≤ touching axis k i rects)
    → HasExtent (extent_start r axis) (extent_end r axis)
    → let p = projection_by_bboxes_pmr rects axis in
      hits
        (pos (above (extent_start r axis)))
        (lift_segments p.scale (split_projection_profile p.bins (pos 0) gap))
      ≡ 1
unfolding touching
profile-touched rects axis gap r h sub x =
    let p = projection_by_bboxes_pmr rects axis in
    let c = projection_by_bboxes-CountsPixels rects axis h in
    let s = extent_start r axis in
    let i = above s / p.scale in
    let b = first_pixel s (extent_end r axis) p.scale c.2 x in
    let touched = touches_first axis p.scale r c.2 x in
    profile-one p.bins (pos 0) gap p.scale (above s) i c.2 b.0 b.1
      (significant-bin p.bins 0 i i (omega arith) (ground (arith, c.0 i, sub p.scale i, touched)))

-- Both segment lists hold each box of positive size in one segment.
abbrev pub Sized : IndexedRect → Type 0
Sized e = HasArea e.rect

pos_above : (z : ℤ) → below z ≡ 0 → pos (above z) ≡ z
pos_above (pos n) h = refl
pos_above (negsuc n) h = absurd (omega arith)

-- Every entry of the part touches no bin that the whole does not.
abbrev pub Within : ℕ → List IndexedRect → List IndexedRect → Type 0
Within axis part whole =
    (k i : ℕ) → touching axis k i (rects_of part) ≤ touching axis k i (rects_of whole)

Within-head :
    (axis : ℕ) (e : IndexedRect) (part whole : List IndexedRect)
    → Within axis (e ∷ part) whole
    → (k i : ℕ) → touching axis k i (e.rect ∷ []) ≤ touching axis k i (rects_of whole)
unfolding touching
Within-head axis e part whole sub k i = omega (arith, sub k i)

Within-tail :
    (axis : ℕ) (e : IndexedRect) (part whole : List IndexedRect)
    → Within axis (e ∷ part) whole
    → Within axis part whole
unfolding touching
Within-tail axis e part whole sub k i = omega (arith, sub k i)

x_one :
    (whole : List IndexedRect) (e : IndexedRect)
    → ((k i : ℕ) → touching 0 k i (e.rect ∷ []) ≤ touching 0 k i (rects_of whole))
    → HasExtent e.rect.x0 e.rect.x1
    → hits (x_min_abs e) (x_segments whole) ≡ 1
unfolding x_segments
x_one whole e sub x =
    let k = (projection_by_bboxes_pmr (rects_of whole) 0).scale in
    let abs_lem : pos (above e.rect.x0) ≡ x_min_abs e = ap pos (omega (arith, x.0)) in
    subst (λ z. hits z (x_segments whole) ≡ 1) abs_lem
      (profile-touched (rects_of whole) 0 (gap_in_bins (pos 1) k) e.rect (omega arith) sub x)

y_one :
    (gap : ℤ) (whole : List IndexedRect) (e : IndexedRect)
    → ((k i : ℕ) → touching 1 k i (e.rect ∷ []) ≤ touching 1 k i (rects_of whole))
    → HasExtent e.rect.y0 e.rect.y1
    → hits (y_min e) (y_segments gap whole) ≡ 1
unfolding y_segments
y_one gap whole e sub x =
    let k = (projection_by_bboxes_pmr (rects_of whole) 1).scale in
    subst (λ z. hits z (y_segments gap whole) ≡ 1) (pos_above e.rect.y0 x.0)
      (profile-touched (rects_of whole) 1 (gap_in_bins gap k) e.rect (omega arith) sub x)

pub x_hits :
    (whole part : List IndexedRect)
    → Within 0 part whole
    → All Sized part
    → All (λ e. hits (x_min_abs e) (x_segments whole) ≡ 1) part
x_hits whole [] sub sized = tt
x_hits whole (e ∷ part) sub sized = (
  x_one whole e (Within-head 0 e part whole sub) sized.0.0,
  x_hits whole part (Within-tail 0 e part whole sub) sized.1,
)

pub y_hits :
    (gap : ℤ) (whole part : List IndexedRect)
    → Within 1 part whole
    → All Sized part
    → All (λ e. hits (y_min e) (y_segments gap whole) ≡ 1) part
y_hits gap whole [] sub sized = tt
y_hits gap whole (e ∷ part) sub sized = (
  y_one gap whole e (Within-head 1 e part whole sub) sized.0.1,
  y_hits gap whole part (Within-tail 1 e part whole sub) sized.1,
)

-- Segments that hold each entry once select each once.
pub selected-all :
    (key : IndexedRect → ℤ) (i : ℕ) (segs : List ProjectionSegment) (es : List IndexedRect)
    → All (λ e. hits (key e) segs ≡ 1) es
    → selected key i segs es ≡ count i (indices_of es)
unfolding count
selected-all key i segs [] h = selected-nil key i segs
selected-all key i segs (e ∷ es) h =
    ground (arith, selected-cons key i segs e es, selected-all key i segs es h.1, h.0)
