-- ===== src/LayoutFilter/Tests.antt =====
-- Boxes of one page, and the theorem about cleaning them up.
use turbo_ocr.Common.{
  Floats, ℕ, ◌≡◌, refl, ◌+◌, ◌-◌, ◌*◌, ◌/◌, List, [], ◌∷◌, ltb, leb, pos, above, diff, ◌+ℤ◌, ◌-ℤ◌,
  ◌*ℤ◌,
}
use turbo_ocr.Router.Types.{LayoutBox}
use turbo_ocr.LayoutFilter.Postfilter.{
  keep_all, keep_outer, keep_inner, is_formula_class, compute_iou, overlaps_beyond, suppress_by,
  suppression, non_maximum_suppression, is_oversized_image, without_oversized, inside, nests,
  mark_nested, nested_in, find_nesting, keep_merged, reconcile, postfilter_layout_boxes,
}
use turbo_ocr.LayoutFilter.FilterLaws.{greedy, Separated, Fits, postfilter_layout_boxes_lem}

-- Thousandths, from 0 on.
abbrev milli : Floats
milli = record {
  F = ℕ;
  of_int = λ z. 1000 * above z;
  ratio = λ n d. 1000 * n / d;
  add = λ a b. a + b;
  sub = λ a b. a - b;
  mul = λ a b. a * b / 1000;
  div = λ a b. a * 1000 / b;
  fabs = λ a. a;
  log1p = λ a. a;
  lt = ltb;
  le = leb;
}

abbrev region : ℕ → ℕ → ℕ → ℕ → ℕ → LayoutBox milli
region c x0 y0 x1 y1 = record {
  class_id = pos c;
  score = 900;
  box = record {
    tl = record { x = pos x0; y = pos y0 };
    tr = record { x = pos x1; y = pos y0 };
    br = record { x = pos x1; y = pos y1 };
    bl = record { x = pos x0; y = pos y1 };
  };
  id = pos 0;
  read_order = pos 0;
}

-- A text, a second detection of it, an image of the whole page, and a title in the text.
abbrev boxes : List (LayoutBox milli)
boxes =
    region 22 0 0 100 100
    ∷ region 22 0 0 100 90
    ∷ region 14 0 0 400 300
    ∷ region 17 10 10 90 20
    ∷ []

cleaned_all :
    postfilter_layout_boxes milli (λ bs. bs) keep_all boxes (pos 300) (pos 400)
    ≡ region 22 0 0 100 100 ∷ region 17 10 10 90 20 ∷ []
unfolding postfilter_layout_boxes reconcile without_oversized is_oversized_image
    non_maximum_suppression suppression suppress_by overlaps_beyond compute_iou diff ◌+ℤ◌ ◌-ℤ◌ ◌*ℤ◌
cleaned_all = refl

cleaned_outer :
    postfilter_layout_boxes milli (λ bs. bs) keep_outer boxes (pos 300) (pos 400)
    ≡ region 22 0 0 100 100 ∷ []
unfolding postfilter_layout_boxes reconcile keep_merged find_nesting nested_in mark_nested nests
    inside is_formula_class without_oversized is_oversized_image non_maximum_suppression suppression
    suppress_by overlaps_beyond compute_iou diff ◌+ℤ◌ ◌-ℤ◌ ◌*ℤ◌
cleaned_outer = refl

-- A table and a text of nearly one extent are each inside the other, and "outer" drops both.
abbrev twins : List (LayoutBox milli)
twins = region 21 0 0 100 100 ∷ region 22 0 0 100 97 ∷ []

twins_lost : postfilter_layout_boxes milli (λ bs. bs) keep_outer twins (pos 300) (pos 400) ≡ []
unfolding postfilter_layout_boxes reconcile keep_merged find_nesting nested_in mark_nested nests
    inside is_formula_class without_oversized is_oversized_image non_maximum_suppression suppression
    suppress_by overlaps_beyond compute_iou diff ◌+ℤ◌ ◌-ℤ◌ ◌*ℤ◌
twins_lost = refl

postfilter_layout_boxes_lem_example :
    let out = postfilter_layout_boxes milli (λ bs. bs) keep_inner boxes (pos 300) (pos 400) in
    (out
      ≡ reconcile milli keep_inner
          (without_oversized milli (pos 300) (pos 400) (greedy milli [] boxes)))
    × Separated milli out
    × Fits milli (pos 300) (pos 400) out
postfilter_layout_boxes_lem_example =
    postfilter_layout_boxes_lem milli (λ bs. bs) keep_inner boxes (pos 300) (pos 400)
