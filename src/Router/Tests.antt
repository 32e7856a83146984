-- ===== src/Router/Tests.antt =====
-- A page routed with fixed-point numbers for floats, and the theorems about routing at it.
use turbo_ocr.Common.{
  Floats, ℕ, ◌≡◌, refl, ◌+◌, ◌-◌, ◌*◌, ◌/◌, false, List, [], ◌∷◌, All, ltb, leb, ℤ, pos, negsuc,
  ◌-ℤ◌, ◌+ℤ◌, ◌*ℤ◌, diff,
}
use turbo_ocr.Router.Overlap.{
  region_symbol_density_hint, det_area, det_aspect, count_det, count_dets, finish_stats,
  build_overlap_stats,
}
use turbo_ocr.Router.Types.{Box, fallback, RouterDecision, LayoutBox, RouterConfig, PageStats}
use turbo_ocr.Router.Geometry.{aabb, aabb_area, aabb_intersect_area, centroid_in_aabb}
use turbo_ocr.Router.Rules.{
  default_config, destination_for, class_priority, formula_wrap_for, tier_for,
}
use turbo_ocr.Router.Route.{
  tier_policy, is_formula_salvage_candidate, class_decision, image_gate, salvage, route,
  should_invoke, apply_verify_result,
}
use turbo_ocr.Router.TieBreak.{
  demote, update, apply_verdict, score_loser, iou_loser, overlap_loser, pair_verdict, against,
  tie_rounds, resolve_tie_breakers, Cell,
}
use turbo_ocr.Router.Classify.{
  bucket_decision, bucket_decisions, bucket_det, all_text, gate_overlap_pass, has_confident_formula,
  route_all, decisions_for, owner_from, bucket_dets, classify,
}
use turbo_ocr.Router.RouteLaws.{IsCoherent, KeepsText, route-fallback}
use turbo_ocr.Router.TieLaws.{decisions_for-IsCoherent}
use turbo_ocr.Router.ClassifyLaws.{IsSplit, classify-IsSplit}

-- Thousandths, from 0 on.
abbrev milli : ℤ → ℕ
milli (pos n) = 1000 * n
milli (negsuc n) = 0

abbrev fixed : Floats
fixed = record {
  F = ℕ;
  of_int = milli;
  ratio = λ n d. 1000 * n / d;
  add = λ a b. a + b;
  sub = λ a b. a - b;
  mul = λ a b. a * b / 1000;
  div = λ a b. a * 1000 / b;
  fabs = λ a. a;
  log1p = λ a. a;
  lt = ltb;
  le = leb;
}

abbrev box_at : ℕ → ℕ → ℕ → ℕ → Box
box_at x0 y0 x1 y1 = record {
  tl = record { x = pos x0; y = pos y0 };
  tr = record { x = pos x1; y = pos y0 };
  br = record { x = pos x1; y = pos y1 };
  bl = record { x = pos x0; y = pos y1 };
}

abbrev cell_at : ℕ → ℕ → Box → LayoutBox fixed
cell_at c s b = record {
  class_id = pos c;
  score = s;
  box = b;
  id = negsuc 0;
  read_order = negsuc 0;
}

abbrev config : RouterConfig fixed
config = default_config fixed

-- A table, a paragraph inside it and a formula below.
abbrev table_cell : LayoutBox fixed
table_cell = cell_at 21 900 (box_at 0 0 100 100)

abbrev text_cell : LayoutBox fixed
text_cell = cell_at 22 900 (box_at 10 10 50 40)

abbrev page : List (LayoutBox fixed)
page = text_cell ∷ table_cell ∷ cell_at 5 200 (box_at 0 200 100 220) ∷ []

abbrev dets : List Box
dets = box_at 60 60 90 70 ∷ box_at 300 300 310 310 ∷ []

abbrev quiet : PageStats fixed
quiet = record {
  has_confident_formula = false;
  median_text_line_height = pos 0;
  median_text_line_area = 0;
}

classify-IsSplit_example :
    IsSplit fixed page
      (decisions_for fixed config dets page)
      0
      dets
      (classify fixed config dets page).rec_suppress
      (classify fixed config dets page).text_indices
      (classify fixed config dets page).text_to_layout_id
classify-IsSplit_example = classify-IsSplit fixed config dets page

decisions_for-IsCoherent_example : All IsCoherent (decisions_for fixed config dets page)
decisions_for-IsCoherent_example = decisions_for-IsCoherent fixed config dets page

abbrev faint_table : LayoutBox fixed
faint_table = cell_at 21 100 (box_at 0 0 100 100)

faint : tier_for fixed faint_table.class_id faint_table.score config ≡ fallback
unfolding tier_for
faint = refl

route-fallback_example : KeepsText (route fixed (pos 0) faint_table [] quiet config)
route-fallback_example = route-fallback fixed (pos 0) faint_table [] quiet config faint

abbrev cell_with_rect : LayoutBox fixed → Cell fixed
cell_with_rect lb = (lb, aabb lb.box)

abbrev decided : List RouterDecision
decided =
    route fixed (pos 0) text_cell [] quiet config
    ∷ route fixed (pos 1) table_cell [] quiet config
    ∷ []

-- The table is decided as such and masks the box inside it; the other box has no owner.
page_plan :
    ((classify fixed config dets page).rec_suppress ≡ 1 ∷ 0 ∷ [])
    × ((classify fixed config dets page).text_to_layout_id ≡ negsuc 0 ∷ [])
    × ((classify fixed config dets page).table_layout_ids ≡ pos 1 ∷ [])
unfolding aabb aabb_area aabb_intersect_area centroid_in_aabb destination_for class_priority
    formula_wrap_for tier_policy tier_for is_formula_salvage_candidate class_decision image_gate
    salvage route should_invoke apply_verify_result demote update apply_verdict score_loser
    iou_loser overlap_loser pair_verdict against tie_rounds resolve_tie_breakers
    region_symbol_density_hint det_area det_aspect count_det count_dets finish_stats
    build_overlap_stats bucket_decision bucket_decisions bucket_det all_text gate_overlap_pass
    has_confident_formula route_all decisions_for owner_from bucket_dets classify ◌-ℤ◌ ◌+ℤ◌ ◌*ℤ◌
    diff
page_plan = (refl, refl, refl)
