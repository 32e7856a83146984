-- ===== src/ReadingOrder/XyCut.antt =====
-- `recursive_xy_cut` of src/layout/order/xy_cut.cpp. The parallel vectors of rectangles and indices
-- are one vector of entries, and the indices pushed to `res` are the result. The recursion is on what
-- is left of kMaxXyCutDepth, the source's own cap. An index out of range, which C++ leaves undefined,
-- reads the rectangle of zeros.
use turbo_ocr.Common.{
  ℕ, zero, suc, ◌+◌, ◌*◌, ◌/◌, Bool, false, ◌&&◌, Option, none, some, List, [], ◌∷◌, ◌++◌, map, ltb,
  leb, ◌==◌, if◌then◌else◌, is_empty, length, get_elem?, ℤ, pos, negsuc, above, below, diff, ltb_ℤ,
  leb_ℤ, max_ℤ,
}
use mathlib.Core.List.{reverse}
use turbo_ocr.Router.Types.{Rect}
use turbo_ocr.ReadingOrder.Projection.{
  ProjectionSegment, projection_by_bboxes_pmr, split_projection_profile,
}

pub record IndexedRect : Type 0 where
  pub rect : Rect
  pub index : ℕ

abbrev pub indices_of : List IndexedRect → List ℕ
indices_of = map (λ e. e.index)

abbrev pub rects_of : List IndexedRect → List Rect
rects_of = map (λ e. e.rect)

-- `std::stable_sort` by a coordinate: an entry goes before the later ones of the same coordinate.
unfoldable pub insert_by : (IndexedRect → ℤ) → IndexedRect → List IndexedRect → List IndexedRect
insert_by key e [] = e ∷ []
insert_by key e (f ∷ fs) = if ltb_ℤ (key f) (key e) then f ∷ insert_by key e fs else e ∷ f ∷ fs

unfoldable pub stable_sort : (IndexedRect → ℤ) → List IndexedRect → List IndexedRect
stable_sort key [] = []
stable_sort key (e ∷ es) = insert_by key e (stable_sort key es)

abbrev pub or_zeros : Option Rect → Rect
or_zeros (some r) = r
or_zeros none = record { x0 = pos 0; y0 = pos 0; x1 = pos 0; y1 = pos 0 }

abbrev pub rect_at : List Rect → ℕ → Rect
rect_at rects i = or_zeros (get_elem? rects i)

abbrev pub entries_at : List Rect → List ℕ → List IndexedRect
entries_at rects = map (λ i. record { rect = rect_at rects i; index = i })

abbrev pub x_min : IndexedRect → ℤ
x_min e = e.rect.x0

abbrev pub y_min : IndexedRect → ℤ
y_min e = e.rect.y0

-- `std::abs` of the left edge.
abbrev pub x_min_abs : IndexedRect → ℤ
x_min_abs e = pos (above e.rect.x0 + below e.rect.x0)

abbrev pub in_segment : ProjectionSegment → ℤ → Bool
in_segment seg z = leb_ℤ (pos seg.start) z && ltb_ℤ z (pos seg.stop)

unfoldable pub select_segment :
    (IndexedRect → ℤ) → ProjectionSegment → List IndexedRect → List IndexedRect
select_segment key seg [] = []
select_segment key seg (e ∷ es) =
    let later = select_segment key seg es in if in_segment seg (key e) then e ∷ later else later

abbrev pub scale_segment : ℕ → ProjectionSegment → ProjectionSegment
scale_segment k seg = record { start = seg.start * k; stop = seg.stop * k }

-- Segments of bins in pixels.
abbrev pub lift_segments : ℕ → List ProjectionSegment → List ProjectionSegment
lift_segments k segs = if ltb 1 k then map (scale_segment k) segs else segs

-- `min_gap / y_scale`, rounded to zero.
abbrev pub quotient : ℤ → ℕ → ℤ
quotient (pos n) k = pos (n / k)
quotient (negsuc n) k = diff 0 (suc n / k)

abbrev pub gap_in_bins : ℤ → ℕ → ℤ
gap_in_bins min_gap k = if ltb 1 k then max_ℤ (pos 1) (quotient min_gap k) else min_gap

-- The columns of entries sorted by their left edges; the gap is one pixel, and they run from right
-- to left when the first edge is negative.
unfoldable pub x_segments : List IndexedRect → List ProjectionSegment
x_segments sorted =
    let p = projection_by_bboxes_pmr (rects_of sorted) 0 in
    lift_segments p.scale (split_projection_profile p.bins (pos 0) (gap_in_bins (pos 1) p.scale))

abbrev pub is_mirrored : List IndexedRect → Bool
is_mirrored [] = false
is_mirrored (e ∷ es) = ltb_ℤ (x_min e) (pos 0)

abbrev pub directed_segments : List IndexedRect → List ProjectionSegment
directed_segments sorted =
    if is_mirrored sorted then reverse (x_segments sorted) else x_segments sorted

-- The rows of a column sorted by their upper edges.
unfoldable pub y_segments : ℤ → List IndexedRect → List ProjectionSegment
y_segments min_gap sorted =
    let p = projection_by_bboxes_pmr (rects_of sorted) 1 in
    lift_segments p.scale (split_projection_profile p.bins (pos 0) (gap_in_bins min_gap p.scale))

-- One row, with the number of entries of its column and the recursive call.
unfoldable pub order_row : (List ℕ → List ℕ) → ℕ → List ℕ → List ℕ
order_row again size row =
    if is_empty row then [] else if length row == size then row else again row

unfoldable pub order_rows : (List ℕ → List ℕ) → List IndexedRect → List ProjectionSegment → List ℕ
order_rows again sorted [] = []
order_rows again sorted (seg ∷ segs) =
    order_row again (length sorted) (indices_of (select_segment y_min seg sorted))
    ++ order_rows again sorted segs

abbrev pub order_sorted_column : (List ℕ → List ℕ) → ℤ → List IndexedRect → List ℕ
order_sorted_column again min_gap sorted =
    let segs = y_segments min_gap sorted in
    if leb (length segs) 1 then indices_of sorted else order_rows again sorted segs

unfoldable pub order_column : (List ℕ → List ℕ) → ℤ → List IndexedRect → List ℕ
order_column again min_gap column =
    if is_empty column then [] else order_sorted_column again min_gap (stable_sort y_min column)

unfoldable pub order_columns :
    (List ℕ → List ℕ) → ℤ → List IndexedRect → List ProjectionSegment → List ℕ
order_columns again min_gap sorted [] = []
order_columns again min_gap sorted (seg ∷ segs) =
    order_column again min_gap (select_segment x_min_abs seg sorted)
    ++ order_columns again min_gap sorted segs

abbrev pub cut_sorted : (List ℕ → List ℕ) → ℤ → List IndexedRect → List ℕ
cut_sorted again min_gap sorted =
    if is_empty (x_segments sorted)
    then indices_of sorted
    else order_columns again min_gap sorted (directed_segments sorted)

unfoldable pub recursive_xy_cut_impl : ℕ → List Rect → ℤ → List ℕ → List ℕ
recursive_xy_cut_impl depth_left rects min_gap [] = []
recursive_xy_cut_impl depth_left rects min_gap (i ∷ []) = i ∷ []
recursive_xy_cut_impl zero rects min_gap (i ∷ j ∷ is) = i ∷ j ∷ is
recursive_xy_cut_impl (suc depth_left) rects min_gap (i ∷ j ∷ is) =
    cut_sorted (recursive_xy_cut_impl depth_left rects min_gap) min_gap
      (stable_sort x_min (entries_at rects (i ∷ j ∷ is)))

-- kMaxXyCutDepth
abbrev pub max_xy_cut_depth : ℕ
max_xy_cut_depth = 64

unfoldable pub recursive_xy_cut : List Rect → List ℕ → ℤ → List ℕ
recursive_xy_cut rects indices min_gap =
    recursive_xy_cut_impl max_xy_cut_depth rects min_gap indices
