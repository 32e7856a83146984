-- ===== src/ReadingOrder/CutPerm.antt =====
-- On boxes of positive size on the page the cut alone is a permutation.
use mathlib.Core.List.{Perm}
use turbo_ocr.Common.{
  ℕ, zero, suc, ◌≡◌, refl, ap, List, [], ◌∷◌, arith, Bool-cases, inl, inr, ℤ, ltb_ℤ, length, All,
}
use turbo_ocr.Router.Types.{Rect}
use turbo_ocr.ReadingOrder.Counting.{count, count-append, Perm_of_count}
use turbo_ocr.ReadingOrder.Projection.{ProjectionSegment}
use turbo_ocr.ReadingOrder.Segments.{hits, hits-reverse}
use turbo_ocr.ReadingOrder.CutLaws.{selected, stable_sort-count, entries_at-indices}
use turbo_ocr.ReadingOrder.CutComplete.{HasArea, Sized, x_hits, y_hits, selected-all}
use turbo_ocr.ReadingOrder.XyCut.{
  IndexedRect, indices_of, rect_at, insert_by, stable_sort, in_segment, select_segment, entries_at,
  x_min, y_min, x_min_abs, x_segments, y_segments, directed_segments, order_row, order_rows,
  order_sorted_column, order_column, order_columns, cut_sorted, recursive_xy_cut_impl,
  recursive_xy_cut, max_xy_cut_depth,
}

-- Boxes of positive size, on the page, at these indices.
abbrev pub AllHaveArea : List Rect → List ℕ → Type 0
AllHaveArea rects = All (λ i. HasArea (rect_at rects i))

-- The box of an entry is of positive size, and is the one at its index.
abbrev Placed : List Rect → IndexedRect → Type 0
Placed rects e = Sized e × HasArea (rect_at rects e.index)

module _ (P : IndexedRect → Type 0) where
  All-insert_by :
      (key : IndexedRect → ℤ) (e : IndexedRect) (es : List IndexedRect)
      → P e
      → All P es
      → All P (insert_by key e es)
  unfolding insert_by
  All-insert_by key e [] p ps = (p, tt)
  All-insert_by key e (f ∷ fs) p ps = elim (Bool-cases (ltb_ℤ (key f) (key e))) [
    | inl b ↦ rw b (ps.0, All-insert_by key e fs p ps.1)
    | inr b ↦ rw b (p, ps)
  ]

  All-stable_sort :
      (key : IndexedRect → ℤ) (es : List IndexedRect) → All P es → All P (stable_sort key es)
  unfolding stable_sort
  All-stable_sort key [] ps = tt
  All-stable_sort key (e ∷ es) ps =
      All-insert_by key e (stable_sort key es) ps.0 (All-stable_sort key es ps.1)

  All-select :
      (key : IndexedRect → ℤ) (seg : ProjectionSegment) (es : List IndexedRect)
      → All P es
      → All P (select_segment key seg es)
  unfolding select_segment
  All-select key seg [] ps = tt
  All-select key seg (e ∷ es) ps = elim (Bool-cases (in_segment seg (key e))) [
    | inl b ↦ rw b (ps.0, All-select key seg es ps.1)
    | inr b ↦ rw b (All-select key seg es ps.1)
  ]

Placed-Sized : (rects : List Rect) (es : List IndexedRect) → All (Placed rects) es → All Sized es
Placed-Sized rects [] ps = tt
Placed-Sized rects (e ∷ es) ps = (ps.0.0, Placed-Sized rects es ps.1)

Placed-indices :
    (rects : List Rect) (es : List IndexedRect)
    → All (Placed rects) es
    → AllHaveArea rects (indices_of es)
Placed-indices rects [] ps = tt
Placed-indices rects (e ∷ es) ps = (ps.0.1, Placed-indices rects es ps.1)

entries_at-Placed :
    (rects : List Rect) (is : List ℕ)
    → AllHaveArea rects is
    → All (Placed rects) (entries_at rects is)
entries_at-Placed rects [] h = tt
entries_at-Placed rects (i ∷ is) h = ((h.0, h.0), entries_at-Placed rects is h.1)

-- Mirroring the columns changes no entry's column.
directed_hits :
    (whole part : List IndexedRect)
    → All (λ e. hits (x_min_abs e) (x_segments whole) ≡ 1) part
    → All (λ e. hits (x_min_abs e) (directed_segments whole) ≡ 1) part
directed_hits whole [] h = tt
directed_hits whole (e ∷ part) h = (
  ground (arith, hits-reverse (x_min_abs e) (x_segments whole), h.0),
  directed_hits whole part h.1,
)

-- The recursive calls emit each index as often as they are given it.
abbrev Complete : List Rect → (List ℕ → List ℕ) → Type 0
Complete rects again =
    (i : ℕ) (is : List ℕ) → AllHaveArea rects is → count i (again is) ≡ count i is

module _ (rects : List Rect) (again : List ℕ → List ℕ) (complete : Complete rects again) where
  order_row-Complete :
      (i size : ℕ) (row : List ℕ)
      → AllHaveArea rects row
      → count i (order_row again size row) ≡ count i row
  unfolding order_row count
  order_row-Complete i size [] h = refl
  order_row-Complete i size (j ∷ row) h = ground (arith, complete i (j ∷ row) h)

  order_rows-Complete :
      (i : ℕ) (es : List IndexedRect) (segs : List ProjectionSegment)
      → All (Placed rects) es
      → count i (order_rows again es segs) ≡ selected y_min i segs es
  unfolding order_rows selected count
  order_rows-Complete i es [] p = refl
  order_rows-Complete i es (seg ∷ segs) p =
      let row = select_segment y_min seg es in
      let is = indices_of row in
      omega (
        arith,
        count-append i (order_row again (length es) is) (order_rows again es segs),
        order_row-Complete i (length es) is
            (Placed-indices rects row (All-select (Placed rects) y_min seg es p)),
        order_rows-Complete i es segs p,
      )

  order_sorted_column-Complete :
      (gap : ℤ) (i : ℕ) (es : List IndexedRect)
      → All (Placed rects) es
      → count i (order_sorted_column again gap es) ≡ count i (indices_of es)
  order_sorted_column-Complete gap i es p = ground (
    arith,
    order_rows-Complete i es (y_segments gap es) p,
    selected-all y_min i (y_segments gap es) es
        (y_hits gap es es (λ k j. omega arith) (Placed-Sized rects es p)),
  )

  order_column-Complete :
      (gap : ℤ) (i : ℕ) (es : List IndexedRect)
      → All (Placed rects) es
      → count i (order_column again gap es) ≡ count i (indices_of es)
  unfolding order_column count
  order_column-Complete gap i [] p = refl
  order_column-Complete gap i (e ∷ es) p =
      let sorted = stable_sort y_min (e ∷ es) in
      omega (
        arith,
        order_sorted_column-Complete gap i sorted (All-stable_sort (Placed rects) y_min (e ∷ es) p),
        stable_sort-count y_min i (e ∷ es),
      )

  order_columns-Complete :
      (gap : ℤ) (i : ℕ) (es : List IndexedRect) (segs : List ProjectionSegment)
      → All (Placed rects) es
      → count i (order_columns again gap es segs) ≡ selected x_min_abs i segs es
  unfolding order_columns selected count
  order_columns-Complete gap i es [] p = refl
  order_columns-Complete gap i es (seg ∷ segs) p =
      let column = select_segment x_min_abs seg es in
      omega (
        arith,
        count-append i (order_column again gap column) (order_columns again gap es segs),
        order_column-Complete gap i column (All-select (Placed rects) x_min_abs seg es p),
        order_columns-Complete gap i es segs p,
      )

  cut_sorted-Complete :
      (gap : ℤ) (i : ℕ) (es : List IndexedRect)
      → All (Placed rects) es
      → count i (cut_sorted again gap es) ≡ count i (indices_of es)
  cut_sorted-Complete gap i es p =
      let segs = directed_segments es in
      let hit = directed_hits es es (x_hits es es (λ k j. omega arith) (Placed-Sized rects es p)) in
      ground (arith, order_columns-Complete gap i es segs p, selected-all x_min_abs i segs es hit)

impl-Complete :
    (depth_left : ℕ) (rects : List Rect) (gap : ℤ)
    → Complete rects (recursive_xy_cut_impl depth_left rects gap)
unfolding recursive_xy_cut_impl
impl-Complete d rects gap i [] h = refl
impl-Complete d rects gap i (j ∷ []) h = refl
impl-Complete zero rects gap i (j ∷ k ∷ is) h = refl
impl-Complete (suc d) rects gap i (j ∷ k ∷ is) h =
    let es = entries_at rects (j ∷ k ∷ is) in
    let placed = All-stable_sort (Placed rects) x_min es (entries_at-Placed rects (j ∷ k ∷ is) h) in
    omega (
      arith,
      cut_sorted-Complete rects (recursive_xy_cut_impl d rects gap) (impl-Complete d rects gap) gap
          i (stable_sort x_min es) placed,
      stable_sort-count x_min i es,
      ap (count i) (entries_at-indices rects (j ∷ k ∷ is)),
    )

-- On boxes with 0 <= x0 < x1 and 0 <= y0 < y1 the cut emits each index that it is given, as often.
pub recursive_xy_cut-Perm :
    (rects : List Rect) (indices : List ℕ) (min_gap : ℤ)
    → AllHaveArea rects indices
    → Perm (recursive_xy_cut rects indices min_gap) indices
unfolding recursive_xy_cut
recursive_xy_cut-Perm rects is gap h =
    Perm_of_count _ _ (λ i. impl-Complete max_xy_cut_depth rects gap i is h)
