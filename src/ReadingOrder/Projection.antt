-- ===== src/ReadingOrder/Projection.antt =====
-- The projection profiles of src/layout/order/xy_cut.cpp. The arena that the vectors are taken from
-- (`mr`) is not modelled. An `int` is an integer without a bound, and an axis a number.
use turbo_ocr.Common.{
  ℕ, zero, suc, ◌+◌, ◌-◌, ◌/◌, ◌||◌, List, [], ◌∷◌, ltb, leb, ◌==◌, if◌then◌else◌, is_empty,
  replicate, ℤ, pos, above, ◌-ℤ◌, ltb_ℤ, leb_ℤ, min_ℤ, max_ℤ,
}
use turbo_ocr.Router.Types.{Rect}

-- kProjectionMaxBins
abbrev pub max_bins : ℕ
max_bins = 4096

-- `rect_extent(r, axis).first` and `.second`.
abbrev pub extent_start : Rect → ℕ → ℤ
extent_start r axis = if axis == 0 then r.x0 else r.y0

abbrev pub extent_end : Rect → ℕ → ℤ
extent_end r axis = if axis == 0 then r.x1 else r.y1

unfoldable pub projection_scale_for : ℕ → ℕ
projection_scale_for max_end =
    if leb max_end max_bins then 1 else (max_end + max_bins - 1) / max_bins

abbrev pub max_end_from : ℤ → List Rect → ℕ → ℤ
max_end_from m [] axis = m
max_end_from m (r ∷ rs) axis = max_end_from (max_ℤ m (extent_end r axis)) rs axis

abbrev pub max_end_for : List Rect → ℕ → ℤ
max_end_for rects axis = max_end_from (pos 0) rects axis

-- `projection[i] += 1`
abbrev pub bump : ℕ → List ℕ → List ℕ
bump i [] = []
bump zero (v ∷ vs) = (v + 1) ∷ vs
bump (suc i) (v ∷ vs) = v ∷ bump i vs

-- The loop over the `n` bins from `i` on.
abbrev pub bump_bins : ℕ → ℕ → List ℕ → List ℕ
bump_bins zero i bins = bins
bump_bins (suc n) i bins = bump_bins n (suc i) (bump i bins)

-- Round up to a whole bin.
abbrev pub bins_up : ℕ → ℕ → ℕ
bins_up p scale = (p + scale - 1) / scale

abbrev pub clip_start : Rect → ℕ → ℤ
clip_start r axis = max_ℤ (extent_start r axis) (pos 0)

abbrev pub clip_end : ℤ → Rect → ℕ → ℤ
clip_end max_end r axis = min_ℤ (extent_end r axis) max_end

-- One round of the loop over the rectangles.
unfoldable pub add_rect : ℤ → ℕ → ℕ → Rect → List ℕ → List ℕ
add_rect max_end scale axis r bins =
    let a = clip_start r axis in
    let b = clip_end max_end r axis in
    let first = above a / scale in
    if leb_ℤ b a then bins else bump_bins (bins_up (above b) scale - first) first bins

abbrev pub add_rects : ℤ → ℕ → ℕ → List Rect → List ℕ → List ℕ
add_rects max_end scale axis [] bins = bins
add_rects max_end scale axis (r ∷ rs) bins =
    add_rects max_end scale axis rs (add_rect max_end scale axis r bins)

-- The profile, and the out-parameter `scale`.
pub record Projection : Type 0 where
  pub bins : List ℕ
  pub scale : ℕ

abbrev pub no_projection : Projection
no_projection = record { bins = []; scale = 1 }

abbrev pub n_bins_for : ℕ → ℕ → ℕ
n_bins_for max_end scale = if scale == 1 then max_end else bins_up max_end scale

abbrev pub project_to : ℤ → List Rect → ℕ → Projection
project_to max_end rects axis =
    let scale = projection_scale_for (above max_end) in
    let empty = replicate (n_bins_for (above max_end) scale) 0 in
    if leb_ℤ max_end (pos 0)
    then no_projection
    else record { bins = add_rects max_end scale axis rects empty; scale = scale }

unfoldable pub projection_by_bboxes_pmr : List Rect → ℕ → Projection
projection_by_bboxes_pmr rects axis =
    if is_empty rects || ltb 1 axis
    then no_projection
    else project_to (max_end_for rects axis) rects axis

-- The public variant, which does not tell the scale.
unfoldable pub projection_by_bboxes : List Rect → ℕ → List ℕ
projection_by_bboxes rects axis = (projection_by_bboxes_pmr rects axis).bins

-- A half-open range.
pub record ProjectionSegment : Type 0 where
  pub start : ℕ
  pub stop : ℕ

-- `sig`: the bins from `i` on whose value exceeds `min_value`.
abbrev pub significant : ℤ → ℕ → List ℕ → List ℕ
significant min_value i [] = []
significant min_value i (v ∷ vs) =
    let later = significant min_value (suc i) vs in
    if ltb_ℤ min_value (pos v) then i ∷ later else later

-- The loop over `sig`, with `seg_start` and `sig[i - 1]`; the last push stands at its end.
abbrev pub split_from : ℤ → ℕ → ℕ → List ℕ → List ProjectionSegment
split_from min_gap seg_start prev [] = record { start = seg_start; stop = prev + 1 } ∷ []
split_from min_gap seg_start prev (s ∷ sig) =
    let far = ltb_ℤ min_gap (pos s -ℤ pos prev) in
    let later = split_from min_gap (if far then s else seg_start) s sig in
    if far then record { start = seg_start; stop = prev + 1 } ∷ later else later

abbrev pub split_significant : ℤ → List ℕ → List ProjectionSegment
split_significant min_gap [] = []
split_significant min_gap (s ∷ sig) = split_from min_gap s s sig

unfoldable pub split_projection_profile : List ℕ → ℤ → ℤ → List ProjectionSegment
unfolding ◌-ℤ◌
split_projection_profile projection min_value min_gap =
    split_significant min_gap (significant min_value 0 projection)
