-- ===== src/ReadingOrder/Tests.antt =====
-- A page of two columns with a header and a footer, and the theorems about reading order at it.
use mathlib.Core.List.{Perm}
use turbo_ocr.Common.{
  ◌++◌, All, Floats, ℕ, ◌≡◌, refl, ◌+◌, ◌-◌, ◌*◌, ◌/◌, List, [], ◌∷◌, arith, ltb, leb, pos, above,
  diff, ◌-ℤ◌,
}
use turbo_ocr.Router.Types.{Rect, Box, LayoutBox}
use turbo_ocr.Router.Geometry.{aabb}
use turbo_ocr.ReadingOrder.Counting.{iota}
use turbo_ocr.ReadingOrder.Projection.{
  projection_scale_for, add_rect, projection_by_bboxes_pmr, split_projection_profile,
}
use turbo_ocr.ReadingOrder.XyCut.{
  insert_by, stable_sort, select_segment, x_segments, y_segments, order_row, order_rows,
  order_column, order_columns, recursive_xy_cut_impl, recursive_xy_cut,
}
use turbo_ocr.ReadingOrder.Assign.{
  reading_priority_bucket, complete_order, xy_cut_subset, fill_buckets, order_buckets,
  assign_reading_order,
}
use turbo_ocr.ReadingOrder.AssignLaws.{assign_reading_order-Perm}
use turbo_ocr.ReadingOrder.Priority.{
  ClassAt, IsTop, IsBody, IsBottom, assign_reading_order-IsSectioned,
}
use turbo_ocr.ReadingOrder.HistogramLaws.{CountsPixels, projection_by_bboxes-CountsPixels}
use turbo_ocr.ReadingOrder.CutPerm.{AllHaveArea, recursive_xy_cut-Perm}

-- Whole numbers for floats.
abbrev whole : Floats
whole = record {
  F = ℕ;
  of_int = above;
  ratio = λ n d. n / d;
  add = λ a b. a + b;
  sub = λ a b. a - b;
  mul = λ a b. a * b;
  div = λ a b. a / b;
  fabs = λ a. a;
  log1p = λ a. a;
  lt = ltb;
  le = leb;
}

abbrev box_at : ℕ → ℕ → ℕ → ℕ → Box
box_at x0 y0 x1 y1 = record {
  tl = record { x = pos x0; y = pos y0 };
  tr = record { x = pos x1; y = pos y0 };
  br = record { x = pos x1; y = pos y1 };
  bl = record { x = pos x0; y = pos y1 };
}

abbrev region : ℕ → Box → LayoutBox whole
region c b = record { class_id = pos c; score = 1; box = b; id = pos 0; read_order = pos 0 }

-- A footer, the right column, a header, and the left column in two blocks.
abbrev page : List (LayoutBox whole)
page =
    region 8 (box_at 0 90 20 95)
    ∷ region 22 (box_at 12 10 20 80)
    ∷ region 12 (box_at 0 0 20 5)
    ∷ region 22 (box_at 0 50 8 80)
    ∷ region 22 (box_at 0 10 8 40)
    ∷ []

assign_page : assign_reading_order whole page (pos 1) ≡ 2 ∷ 4 ∷ 3 ∷ 1 ∷ 0 ∷ []
unfolding assign_reading_order order_buckets fill_buckets xy_cut_subset complete_order
    reading_priority_bucket recursive_xy_cut recursive_xy_cut_impl order_columns order_column
    order_rows order_row x_segments y_segments select_segment stable_sort insert_by
    split_projection_profile projection_by_bboxes_pmr add_rect projection_scale_for aabb diff ◌-ℤ◌
assign_page = refl

abbrev rect_of_sides : ℕ → ℕ → ℕ → ℕ → Rect
rect_of_sides a b c d = record { x0 = pos a; y0 = pos b; x1 = pos c; y1 = pos d }

abbrev columns : List Rect
columns = rect_of_sides 12 10 20 80 ∷ rect_of_sides 0 50 8 80 ∷ rect_of_sides 0 10 8 40 ∷ []

abbrev all_three : List ℕ
all_three = 0 ∷ 1 ∷ 2 ∷ []

-- A box of no width stands in no column, and the cut alone drops it.
dropped : recursive_xy_cut (rect_of_sides 30 0 30 9 ∷ columns) (0 ∷ 1 ∷ []) (pos 1) ≡ 1 ∷ []
unfolding recursive_xy_cut recursive_xy_cut_impl order_columns order_column order_rows order_row
    x_segments y_segments select_segment stable_sort insert_by split_projection_profile
    projection_by_bboxes_pmr add_rect projection_scale_for diff ◌-ℤ◌
dropped = refl

assign_reading_order-Perm_example : Perm (assign_reading_order whole page (pos 1)) (iota 5 0)
assign_reading_order-Perm_example = assign_reading_order-Perm whole page (pos 1)

assign_reading_order-IsSectioned_example :
    (top : List ℕ) × (body : List ℕ) × (bottom : List ℕ) × (assign_reading_order whole page (pos 1)
      ≡ top ++ (body ++ bottom))
    × All (ClassAt whole IsTop page) top
    × All (ClassAt whole IsBody page) body
    × All (ClassAt whole IsBottom page) bottom
assign_reading_order-IsSectioned_example = assign_reading_order-IsSectioned whole page (pos 1)

projection_by_bboxes-CountsPixels_example :
    CountsPixels columns 0 (projection_by_bboxes_pmr columns 0)
projection_by_bboxes-CountsPixels_example =
    projection_by_bboxes-CountsPixels columns 0 (omega arith)

columns_area : AllHaveArea columns all_three
columns_area = (
  ((refl, refl), (refl, refl)),
  (((refl, refl), (refl, refl)), (((refl, refl), (refl, refl)), tt)),
)

recursive_xy_cut-Perm_example : Perm (recursive_xy_cut columns all_three (pos 1)) all_three
recursive_xy_cut-Perm_example = recursive_xy_cut-Perm columns all_three (pos 1) columns_area
