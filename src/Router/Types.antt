-- ===== src/Router/Types.antt =====
-- include/turbo_ocr/router/router_types.h, routing_plan.h and the boxes the router reads.
use turbo_ocr.Common.{Floats, ℕ, Bool, Option, List, ℤ}

-- std::array<int, 4>, an axis-aligned rectangle.
pub record Rect : Type 0 where
  pub x0 : ℤ
  pub y0 : ℤ
  pub x1 : ℤ
  pub y1 : ℤ

pub record Point : Type 0 where
  pub x : ℤ
  pub y : ℤ

pub record Box : Type 0 where
  pub tl : Point
  pub tr : Point
  pub br : Point
  pub bl : Point

pub data Destination : Type 0 where
  text : Destination
  table : Destination
  formula : Destination
  skip : Destination

pub data FormulaWrap : Type 0 where
  no_wrap : FormulaWrap
  inline : FormulaWrap
  display : FormulaWrap

pub data ConfidenceTier : Type 0 where
  trust : ConfidenceTier
  verify : ConfidenceTier
  fallback : ConfidenceTier

pub data TableClass : Type 0 where
  wired : TableClass
  wireless : TableClass

pub data RouterReason : Type 0 where
  class_default : RouterReason
  formula_salvage : RouterReason
  table_verify_demoted : RouterReason
  formula_verify_demoted : RouterReason
  containment_loser : RouterReason
  iou_overlap_loser : RouterReason
  table_fallback : RouterReason
  formula_fallback : RouterReason
  skip_with_det_passthrough : RouterReason
  supplementary_region : RouterReason

pub record RouterDecision : Type 0 where
  pub layout_idx : ℤ
  pub dest : Destination
  pub wrap : FormulaWrap
  pub tier : ConfidenceTier
  pub reason : RouterReason
  pub wired_hint : Option TableClass
  pub also_text : Bool

pub record TableClsVerdict (fl : Floats) : Type 0 where
  pub is_table : Bool
  pub cls : TableClass
  pub max_score : fl.F

pub record LayoutBox (fl : Floats) : Type 0 where
  pub class_id : ℤ
  pub score : fl.F
  pub box : Box
  pub id : ℤ
  pub read_order : ℤ

-- The per-class cutoffs are arrays of 25, indexed by the class.
pub record RouterConfig (fl : Floats) : Type 0 where
  pub tau_trust : ℕ → fl.F
  pub tau_verify : ℕ → fl.F
  pub enable_formula_salvage : Bool
  pub enable_table_verification : Bool
  pub image_text_fallback : Bool

-- One entry for each layout cell; the four vectors of the source stand side by side.
pub record CellStats (fl : Floats) : Type 0 where
  pub det_count : ℕ
  pub det_coverage : fl.F
  pub mean_aspect_ratio : fl.F
  pub symbol_density_hint : fl.F

abbrev pub OverlapStats : Floats → Type 0
OverlapStats fl = List (CellStats fl)

pub record PageStats (fl : Floats) : Type 0 where
  pub has_confident_formula : Bool
  pub median_text_line_height : ℤ
  pub median_text_line_area : fl.F

pub record RoutingPlan : Type 0 where
  pub text_indices : List ℤ
  pub table_layout_ids : List ℤ
  pub formula_layout_ids : List ℤ
  pub skip_layout_ids : List ℤ
  pub text_to_layout_id : List ℤ
  pub rec_suppress : List ℕ
