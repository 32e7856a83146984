-- ===== src/Router/Route.antt =====
-- `route` of src/router/cua_router_rules.cpp, which puts the rules together, and what the check of a
-- table changes of its decision.
use turbo_ocr.Common.{
  Floats, Bool, true, false, not, ◌&&◌, ◌||◌, Option, none, some, leb, if◌then◌else◌, get_elem?, ℤ,
  pos, negsuc, eq_ℤ,
}
use turbo_ocr.Router.Types.{
  Destination, text, table, formula, skip, no_wrap, inline, ConfidenceTier, trust, verify, fallback,
  RouterReason, class_default, formula_salvage, table_verify_demoted, table_fallback,
  formula_fallback, skip_with_det_passthrough, supplementary_region, RouterDecision,
  TableClsVerdict, LayoutBox, RouterConfig, CellStats, OverlapStats, PageStats,
}
use turbo_ocr.Router.Geometry.{aabb, aabb_area}
use turbo_ocr.Router.Rules.{
  is_class, supplementary_region_class_id, destination_for, default_destination, formula_wrap_for,
  is_text, tier_for,
}

abbrev pub to_text : RouterReason → RouterDecision → RouterDecision
to_text r d = record d { dest = text; reason = r }

-- What the lowest tier makes of a destination.
abbrev pub demote_fallback : Destination → RouterDecision → RouterDecision
demote_fallback table d = to_text table_fallback d
demote_fallback formula d = record d { dest = text; wrap = no_wrap; reason = formula_fallback }
demote_fallback skip d = to_text skip_with_det_passthrough d
demote_fallback text d = d

abbrev pub tier_policy_at : ConfidenceTier → RouterDecision → RouterDecision
tier_policy_at trust d = d
tier_policy_at verify d = d
tier_policy_at fallback d = demote_fallback d.dest d

unfoldable pub tier_policy : RouterDecision → RouterDecision
tier_policy d = tier_policy_at d.tier d

module _ (fl : Floats) where
  -- ov.empty(), and an index out of range, have no entry.
  abbrev pub stats_at : OverlapStats fl → ℤ → Option (CellStats fl)
  stats_at ov (pos i) = get_elem? ov i
  stats_at ov (negsuc i) = none

  abbrev pub zero_f : fl.F
  zero_f = fl.of_int (pos 0)

  abbrev pub flat_or_thin : fl.F → Bool
  flat_or_thin ar =
      fl.le (fl.ratio 6 1) ar || fl.lt zero_f ar && fl.le ar (fl.div (fl.ratio 1 1) (fl.ratio 6 1))

  abbrev pub small_area : LayoutBox fl → PageStats fl → Bool
  small_area lb page =
      fl.lt zero_f page.median_text_line_area
      && fl.lt (fl.of_int (aabb_area (aabb lb.box)))
          (fl.mul (fl.ratio 15 10) page.median_text_line_area)

  abbrev pub formula_shaped : LayoutBox fl → PageStats fl → CellStats fl → Bool
  formula_shaped lb page st =
      leb st.det_count 3
      && (flat_or_thin st.mean_aspect_ratio || small_area lb page)
      && fl.lt (fl.ratio 4 10) st.symbol_density_hint

  unfoldable pub is_formula_salvage_candidate :
      LayoutBox fl → ℤ → OverlapStats fl → PageStats fl → RouterConfig fl → Bool
  is_formula_salvage_candidate lb layout_idx ov page cfg =
      cfg.enable_formula_salvage
      && page.has_confident_formula
      && is_class lb.class_id 22
      && elim (stats_at ov layout_idx) [ none ↦ false | some st ↦ formula_shaped lb page st ]

  -- The decision from the class alone.
  unfoldable pub class_decision : ℤ → LayoutBox fl → RouterConfig fl → RouterDecision
  unfolding destination_for formula_wrap_for
  class_decision layout_idx lb cfg = record {
    layout_idx = layout_idx;
    dest = default_destination lb.class_id;
    wrap = formula_wrap_for lb.class_id;
    tier = tier_for fl lb.class_id lb.score cfg;
    reason =
        if eq_ℤ lb.class_id supplementary_region_class_id
        then supplementary_region
        else class_default;
    wired_hint = none;
    also_text = false;
  }

  abbrev pub passes_text : LayoutBox fl → CellStats fl → Bool
  passes_text lb st =
      is_class lb.class_id 3 && leb 2 st.det_count
      || is_class lb.class_id 14 && leb 3 st.det_count && fl.le (fl.ratio 15 100) st.det_coverage

  -- The gates of charts and images over enough text.
  unfoldable pub image_gate :
      LayoutBox fl → OverlapStats fl → RouterConfig fl → RouterDecision → RouterDecision
  image_gate lb ov cfg d = elim (stats_at ov d.layout_idx) [
    | none ↦ d
    | some st ↦
        if cfg.image_text_fallback && passes_text lb st
        then to_text skip_with_det_passthrough d
        else d
  ]

  unfoldable pub salvage :
      LayoutBox fl
      → OverlapStats fl
      → PageStats fl
      → RouterConfig fl
      → RouterDecision
      → RouterDecision
  salvage lb ov page cfg d =
      if is_text d.dest && is_formula_salvage_candidate lb d.layout_idx ov page cfg
      then record d { dest = formula; wrap = inline; reason = formula_salvage; also_text = true }
      else d

  unfoldable pub route :
      ℤ → LayoutBox fl → OverlapStats fl → PageStats fl → RouterConfig fl → RouterDecision
  route layout_idx lb ov page cfg =
      salvage lb ov page cfg (tier_policy (image_gate lb ov cfg (class_decision layout_idx lb cfg)))

abbrev pub is_table_dest : Destination → Bool
is_table_dest table = true
is_table_dest _ = false

abbrev pub is_verify : ConfidenceTier → Bool
is_verify verify = true
is_verify _ = false

unfoldable pub should_invoke : RouterDecision → Bool
should_invoke d = is_table_dest d.dest && is_verify d.tier

unfoldable pub apply_verify_result :
    (fl : Floats) → RouterDecision → TableClsVerdict fl → RouterDecision
apply_verify_result fl d v =
    if not v.is_table
    then record d { dest = text; wrap = no_wrap; reason = table_verify_demoted; wired_hint = none }
    else record d { wired_hint = some v.cls }
