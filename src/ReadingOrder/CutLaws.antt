-- ===== src/ReadingOrder/CutLaws.antt =====
-- `recursive_xy_cut` never emits an index more often than it was given.
use turbo_ocr.Common.{
  ℕ, zero, suc, ◌+◌, ◌≤◌, ◌≡◌, refl, ap, List, [], ◌∷◌, arith, ◌==◌, if◌then◌else◌, ℤ, length,
}
use turbo_ocr.Router.Types.{Rect}
use turbo_ocr.ReadingOrder.Counting.{count, count-append}
use turbo_ocr.ReadingOrder.Projection.{ProjectionSegment}
use turbo_ocr.ReadingOrder.Segments.{hits, hits-reverse}
use turbo_ocr.ReadingOrder.Profile.{profile-le_one, scale_pos}
use turbo_ocr.ReadingOrder.XyCut.{
  IndexedRect, indices_of, rects_of, insert_by, stable_sort, select_segment, entries_at, x_min,
  y_min, x_min_abs, x_segments, y_segments, directed_segments, order_row, order_rows,
  order_sorted_column, order_column, order_columns, cut_sorted, recursive_xy_cut_impl,
  recursive_xy_cut, max_xy_cut_depth,
}

pub insert_by-count :
    (key : IndexedRect → ℤ) (i : ℕ) (e : IndexedRect) (es : List IndexedRect)
    → count i (indices_of (insert_by key e es)) ≡ count i (indices_of (e ∷ es))
unfolding insert_by count
insert_by-count key i e [] = refl
insert_by-count key i e (f ∷ fs) = ground (arith, insert_by-count key i e fs)

pub stable_sort-count :
    (key : IndexedRect → ℤ) (i : ℕ) (es : List IndexedRect)
    → count i (indices_of (stable_sort key es)) ≡ count i (indices_of es)
unfolding stable_sort count
stable_sort-count key i [] = refl
stable_sort-count key i (e ∷ es) =
    omega (arith, insert_by-count key i e (stable_sort key es), stable_sort-count key i es)

pub entries_at-indices : (rects : List Rect) (is : List ℕ) → indices_of (entries_at rects is) ≡ is
entries_at-indices rects [] = refl
entries_at-indices rects (i ∷ is) = ap (◌∷◌ i) (entries_at-indices rects is)

-- The copies of an index in all the selections together.
unfoldable pub selected : (IndexedRect → ℤ) → ℕ → List ProjectionSegment → List IndexedRect → ℕ
selected key i [] es = 0
selected key i (seg ∷ segs) es =
    count i (indices_of (select_segment key seg es)) + selected key i segs es

pub selected-cons :
    (key : IndexedRect → ℤ) (i : ℕ) (segs : List ProjectionSegment) (e : IndexedRect)
    (es : List IndexedRect)
    → selected key i segs (e ∷ es)
      ≡ (if e.index == i then hits (key e) segs else 0) + selected key i segs es
unfolding selected select_segment hits count
selected-cons key i [] e es = ground arith
selected-cons key i (seg ∷ segs) e es = ground (arith, selected-cons key i segs e es)

pub selected-nil :
    (key : IndexedRect → ℤ) (i : ℕ) (segs : List ProjectionSegment) → selected key i segs [] ≡ 0
unfolding selected select_segment count
selected-nil key i [] = refl
selected-nil key i (seg ∷ segs) = omega (arith, selected-nil key i segs)

-- Segments that share no coordinate select no entry twice.
pub selected-le :
    (key : IndexedRect → ℤ) (i : ℕ) (segs : List ProjectionSegment) (es : List IndexedRect)
    → ((z : ℤ) → hits z segs ≤ 1)
    → selected key i segs es ≤ count i (indices_of es)
unfolding count
selected-le key i segs [] apart = omega (arith, selected-nil key i segs)
selected-le key i segs (e ∷ es) apart =
    ground (arith, selected-cons key i segs e es, selected-le key i segs es apart, apart (key e))

x_segments-apart : (es : List IndexedRect) (z : ℤ) → hits z (x_segments es) ≤ 1
unfolding x_segments
x_segments-apart es z = profile-le_one _ _ _ z _ (scale_pos (rects_of es) 0)

y_segments-apart : (gap : ℤ) (es : List IndexedRect) (z : ℤ) → hits z (y_segments gap es) ≤ 1
unfolding y_segments
y_segments-apart gap es z = profile-le_one _ _ _ z _ (scale_pos (rects_of es) 1)

directed_segments-apart : (es : List IndexedRect) (z : ℤ) → hits z (directed_segments es) ≤ 1
directed_segments-apart es z = ground (arith, x_segments-apart es z, hits-reverse z (x_segments es))

-- The recursive calls do not emit an index more often than they are given it.
abbrev Careful : (List ℕ → List ℕ) → Type 0
Careful again = (i : ℕ) (is : List ℕ) → count i (again is) ≤ count i is

order_row-Careful :
    (again : List ℕ → List ℕ)
    → Careful again
    → (i size : ℕ) (row : List ℕ) → count i (order_row again size row) ≤ count i row
unfolding order_row count
order_row-Careful again careful i size row = ground (arith, careful i row)

order_rows-Careful :
    (again : List ℕ → List ℕ)
    → Careful again
    → (i : ℕ) (es : List IndexedRect) (segs : List ProjectionSegment)
    → count i (order_rows again es segs) ≤ selected y_min i segs es
unfolding order_rows selected count
order_rows-Careful again careful i es [] = omega arith
order_rows-Careful again careful i es (seg ∷ segs) =
    let row = indices_of (select_segment y_min seg es) in
    omega (
      arith,
      count-append i (order_row again (length es) row) (order_rows again es segs),
      order_row-Careful again careful i (length es) row,
      order_rows-Careful again careful i es segs,
    )

order_sorted_column-Careful :
    (again : List ℕ → List ℕ)
    → Careful again
    → (gap : ℤ) (i : ℕ) (es : List IndexedRect)
    → count i (order_sorted_column again gap es) ≤ count i (indices_of es)
order_sorted_column-Careful again careful gap i es = ground (
  arith,
  order_rows-Careful again careful i es (y_segments gap es),
  selected-le y_min i (y_segments gap es) es (y_segments-apart gap es),
)

order_column-Careful :
    (again : List ℕ → List ℕ)
    → Careful again
    → (gap : ℤ) (i : ℕ) (es : List IndexedRect)
    → count i (order_column again gap es) ≤ count i (indices_of es)
unfolding order_column count
order_column-Careful again careful gap i [] = omega arith
order_column-Careful again careful gap i (e ∷ es) = omega (
  arith,
  order_sorted_column-Careful again careful gap i (stable_sort y_min (e ∷ es)),
  stable_sort-count y_min i (e ∷ es),
)

order_columns-Careful :
    (again : List ℕ → List ℕ)
    → Careful again
    → (gap : ℤ) (i : ℕ) (es : List IndexedRect) (segs : List ProjectionSegment)
    → count i (order_columns again gap es segs) ≤ selected x_min_abs i segs es
unfolding order_columns selected count
order_columns-Careful again careful gap i es [] = omega arith
order_columns-Careful again careful gap i es (seg ∷ segs) =
    let column = select_segment x_min_abs seg es in
    omega (
      arith,
      count-append i (order_column again gap column) (order_columns again gap es segs),
      order_column-Careful again careful gap i column,
      order_columns-Careful again careful gap i es segs,
    )

cut_sorted-Careful :
    (again : List ℕ → List ℕ)
    → Careful again
    → (gap : ℤ) (i : ℕ) (es : List IndexedRect)
    → count i (cut_sorted again gap es) ≤ count i (indices_of es)
cut_sorted-Careful again careful gap i es = ground (
  arith,
  order_columns-Careful again careful gap i es (directed_segments es),
  selected-le x_min_abs i (directed_segments es) es (directed_segments-apart es),
)

impl-Careful :
    (depth_left : ℕ) (rects : List Rect) (gap : ℤ)
    → Careful (recursive_xy_cut_impl depth_left rects gap)
unfolding recursive_xy_cut_impl
impl-Careful d rects gap i [] = omega arith
impl-Careful d rects gap i (j ∷ []) = omega arith
impl-Careful zero rects gap i (j ∷ k ∷ is) = omega arith
impl-Careful (suc d) rects gap i (j ∷ k ∷ is) =
    let es = entries_at rects (j ∷ k ∷ is) in
    omega (
      arith,
      cut_sorted-Careful (recursive_xy_cut_impl d rects gap) (impl-Careful d rects gap) gap i
          (stable_sort x_min es),
      stable_sort-count x_min i es,
      ap (count i) (entries_at-indices rects (j ∷ k ∷ is)),
    )

-- The cut emits no index more often than it was given, whatever the rectangles.
pub recursive_xy_cut-count :
    (rects : List Rect) (is : List ℕ) (gap : ℤ) (i : ℕ)
    → count i (recursive_xy_cut rects is gap) ≤ count i is
unfolding recursive_xy_cut
recursive_xy_cut-count rects is gap i = impl-Careful max_xy_cut_depth rects gap i is
