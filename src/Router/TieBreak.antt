-- ===== src/Router/TieBreak.antt =====
-- `resolve_tie_breakers` of src/router/cua_router_rules.cpp.
use turbo_ocr.Common.{
  Floats, ℕ, suc, ltb, Bool, not, ◌&&◌, ◌||◌, none, some, List, [], ◌∷◌, if◌then◌else◌, get_elem?,
  set, ℤ, pos, ◌+ℤ◌, ◌-ℤ◌, eq_ℤ, ltb_ℤ,
}
use turbo_ocr.Router.Types.{
  Rect, text, no_wrap, RouterReason, containment_loser, iou_overlap_loser, RouterDecision,
  LayoutBox,
}
use turbo_ocr.Router.Geometry.{aabb_area, aabb_intersect_area}
use turbo_ocr.Router.Rules.{class_priority, is_class, is_text}

-- Which of two overlapping cells goes to Text, and why.
pub data Verdict : Type 0 where
  both_stay : Verdict
  first_loses : RouterReason → Verdict
  second_loses : RouterReason → Verdict

-- A demoted cell goes to Text; one that is Text already keeps its reason.
unfoldable pub demote : RouterReason → RouterDecision → RouterDecision
demote r d = if is_text d.dest then d else record d { dest = text; wrap = no_wrap; reason = r }

-- The loser of a test that the first cell wins or loses.
abbrev pub loser_by : Bool → Verdict
loser_by first_wins =
    if first_wins then second_loses iou_overlap_loser else first_loses iou_overlap_loser

-- decisions[i] = f(decisions[i]).
unfoldable pub update :
    (RouterDecision → RouterDecision) → List RouterDecision → ℕ → List RouterDecision
update f ds i = elim (get_elem? ds i) [ none ↦ ds | some d ↦ set ds i (f d) ]

unfoldable pub apply_verdict : ℕ → ℕ → Verdict → List RouterDecision → List RouterDecision
apply_verdict i j both_stay ds = ds
apply_verdict i j (first_loses r) ds = update (demote r) ds i
apply_verdict i j (second_loses r) ds = update (demote r) ds j

module _ (fl : Floats) where
  -- Equal priority: the higher score, from a difference of 0.01 on, then the larger box, then the id.
  unfoldable pub score_loser : LayoutBox fl → LayoutBox fl → ℤ → ℤ → Verdict
  score_loser a b aa ab =
      if fl.lt (fl.ratio 1 100) (fl.fabs (fl.sub a.score b.score))
      then loser_by (fl.lt b.score a.score)
      else if not (eq_ℤ aa ab)
      then loser_by (ltb_ℤ ab aa)
      else loser_by (ltb_ℤ a.id b.id)

  unfoldable pub iou_loser : LayoutBox fl → LayoutBox fl → ℤ → ℤ → Verdict
  iou_loser a b aa ab =
      if ltb (class_priority b.class_id) (class_priority a.class_id)
      then second_loses iou_overlap_loser
      else if ltb (class_priority a.class_id) (class_priority b.class_id)
      then first_loses iou_overlap_loser
      else score_loser a b aa ab

  -- inter / area >= 0.80f.
  abbrev pub contained : ℤ → ℤ → Bool
  contained inter area = fl.le (fl.ratio 80 100) (fl.div (fl.of_int inter) (fl.of_int area))

  -- iou < 0.30f || iou > 0.80f.
  abbrev pub outside_band : fl.F → Bool
  outside_band iou = fl.lt iou (fl.ratio 30 100) || fl.lt (fl.ratio 80 100) iou

  -- A table encloses other cells, so containment never demotes it.
  abbrev pub unless_table : ℤ → Verdict → Verdict
  unless_table c v = if is_class c 21 then both_stay else v

  unfoldable pub overlap_loser : LayoutBox fl → LayoutBox fl → ℤ → ℤ → ℤ → Verdict
  unfolding ◌+ℤ◌ ◌-ℤ◌
  overlap_loser a b inter aa ab =
      if contained inter ab && ltb_ℤ ab aa
      then unless_table a.class_id (first_loses containment_loser)
      else if contained inter aa && ltb_ℤ aa ab
      then unless_table b.class_id (second_loses containment_loser)
      else if outside_band (fl.div (fl.of_int inter) (fl.of_int (aa +ℤ ab -ℤ inter)))
      then both_stay
      else iou_loser a b aa ab

  -- The body of the two loops for the cells a and b and their rectangles.
  unfoldable pub pair_verdict : LayoutBox fl → LayoutBox fl → Rect → Rect → Verdict
  pair_verdict a b ra rb =
      if eq_ℤ (aabb_intersect_area ra rb) (pos 0)
      then both_stay
      else if eq_ℤ (aabb_area ra) (pos 0) || eq_ℤ (aabb_area rb) (pos 0)
      then both_stay
      else overlap_loser a b (aabb_intersect_area ra rb) (aabb_area ra) (aabb_area rb)

  -- A cell of the page with its rectangle.
  abbrev pub Cell : Type 0
  Cell = LayoutBox fl × Rect

  -- The inner loop, over the cells from j on.
  unfoldable pub against : ℕ → Cell → ℕ → List Cell → List RouterDecision → List RouterDecision
  against i a j [] ds = ds
  against i a j (b ∷ rest) ds =
      against i a (suc j) rest (apply_verdict i j (pair_verdict a.0 b.0 a.1 b.1) ds)

  -- The outer loop, over the cells from i on.
  unfoldable pub tie_rounds : ℕ → List Cell → List RouterDecision → List RouterDecision
  tie_rounds i [] ds = ds
  tie_rounds i (a ∷ rest) ds = tie_rounds (suc i) rest (against i a (suc i) rest ds)

  -- `layout` and `layout_aabbs` have the length of `decisions`, so the loops run over their pairs.
  -- With fewer than two cells no pair is visited, as with the early return.
  unfoldable pub resolve_tie_breakers : List RouterDecision → List Cell → List RouterDecision
  resolve_tie_breakers ds cells = tie_rounds 0 cells ds
