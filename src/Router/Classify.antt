-- ===== src/Router/Classify.antt =====
-- `CuaRouter::classify` of src/router/cua_router.cpp. The scratch vectors of the router are cleared
-- on entry, so they are values of one call here.
use turbo_ocr.Common.{
  Floats, ℕ, suc, Bool, true, false, not, ◌&&◌, ◌||◌, Option, none, some, List, [], ◌∷◌, ◌++◌, map,
  if◌then◌else◌, get_elem?, set, length, replicate, is_empty, ℤ, pos, negsuc,
}
use turbo_ocr.Router.Types.{
  Box, Destination, text, table, formula, skip, RouterDecision, LayoutBox, RouterConfig,
  OverlapStats, PageStats, RoutingPlan,
}
use turbo_ocr.Router.Geometry.{aabb, centroid_in_aabb}
use turbo_ocr.Router.Rules.{is_class}
use turbo_ocr.Router.Route.{route}
use turbo_ocr.Router.TieBreak.{Cell, resolve_tie_breakers}
use turbo_ocr.Router.Overlap.{build_overlap_stats}

abbrev pub empty_plan : RoutingPlan
empty_plan = record {
  text_indices = [];
  table_layout_ids = [];
  formula_layout_ids = [];
  skip_layout_ids = [];
  text_to_layout_id = [];
  rec_suppress = [];
}

-- One push_back for each destination but Text.
unfoldable pub bucket_decision : RouterDecision → Destination → RoutingPlan → RoutingPlan
bucket_decision d table p = record p { table_layout_ids = p.table_layout_ids ++ d.layout_idx ∷ [] }
bucket_decision d formula p = record p {
  formula_layout_ids = p.formula_layout_ids ++ d.layout_idx ∷ [];
}
bucket_decision d skip p = record p { skip_layout_ids = p.skip_layout_ids ++ d.layout_idx ∷ [] }
bucket_decision d text p = p

unfoldable pub bucket_decisions : List RouterDecision → RoutingPlan → RoutingPlan
bucket_decisions [] p = p
bucket_decisions (d ∷ ds) p = bucket_decisions ds (bucket_decision d d.dest p)

-- A table or a formula reads its own text, unless the text path is asked for it too.
abbrev pub reads_own_text : Destination → Bool
reads_own_text table = true
reads_own_text formula = true
reads_own_text _ = false

abbrev pub suppresses : List RouterDecision → Option ℕ → Bool
suppresses ds none = false
suppresses ds (some o) = elim (get_elem? ds o) [
  | none ↦ false
  | some d ↦ reads_own_text d.dest && not d.also_text
]

-- -1 for an orphan.
abbrev pub owner_id : Option ℕ → ℤ
owner_id none = negsuc 0
owner_id (some o) = pos o

abbrev pub push_text : ℕ → Option ℕ → RoutingPlan → RoutingPlan
push_text i o p = record p {
  text_indices = p.text_indices ++ pos i ∷ [];
  text_to_layout_id = p.text_to_layout_id ++ owner_id o ∷ [];
}

abbrev pub suppress_det : ℕ → RoutingPlan → RoutingPlan
suppress_det i p = record p { rec_suppress = set p.rec_suppress i 1 }

unfoldable pub bucket_det : List RouterDecision → ℕ → Option ℕ → RoutingPlan → RoutingPlan
bucket_det ds i o p = if suppresses ds o then suppress_det i p else push_text i o p

-- The path of a page without layout.
unfoldable pub all_text : ℕ → List Box → RoutingPlan → RoutingPlan
all_text i [] p = p
all_text i (b ∷ bs) p = all_text (suc i) bs (push_text i none p)

module _ (fl : Floats) where
  unfoldable pub gate_overlap_pass : List (LayoutBox fl) → Bool
  gate_overlap_pass [] = false
  gate_overlap_pass (lb ∷ lbs) =
      is_class lb.class_id 3
      || is_class lb.class_id 5
      || is_class lb.class_id 14
      || is_class lb.class_id 15
      || is_class lb.class_id 21
      || gate_overlap_pass lbs

  abbrev pub is_confident_formula : RouterConfig fl → LayoutBox fl → Bool
  is_confident_formula cfg lb =
      is_class lb.class_id 5 && fl.le (cfg.tau_trust 5) lb.score
      || is_class lb.class_id 15 && fl.le (cfg.tau_trust 15) lb.score

  unfoldable pub has_confident_formula : RouterConfig fl → List (LayoutBox fl) → Bool
  has_confident_formula cfg [] = false
  has_confident_formula cfg (lb ∷ lbs) =
      is_confident_formula cfg lb || has_confident_formula cfg lbs

  abbrev pub page_stats : RouterConfig fl → List (LayoutBox fl) → PageStats fl
  page_stats cfg layout = record {
    has_confident_formula = has_confident_formula cfg layout;
    median_text_line_height = pos 0;
    median_text_line_area = fl.of_int (pos 0);
  }

  abbrev pub cells_of : List (LayoutBox fl) → List (Cell fl)
  cells_of layout = map (λ lb. (lb, aabb lb.box)) layout

  abbrev pub overlap_of : List Box → List (LayoutBox fl) → OverlapStats fl
  overlap_of dets layout =
      if gate_overlap_pass layout
      then build_overlap_stats fl dets (map (λ lb. aabb lb.box) layout)
      else []

  unfoldable pub route_all :
      ℕ
      → List (LayoutBox fl)
      → OverlapStats fl
      → PageStats fl
      → RouterConfig fl
      → List RouterDecision
  route_all i [] ov page cfg = []
  route_all i (lb ∷ lbs) ov page cfg =
      route fl (pos i) lb ov page cfg ∷ route_all (suc i) lbs ov page cfg

  -- `last_decisions()` after the call.
  unfoldable pub decisions_for :
      RouterConfig fl → List Box → List (LayoutBox fl) → List RouterDecision
  decisions_for cfg dets layout =
      resolve_tie_breakers fl
        (route_all 0 layout (overlap_of dets layout) (page_stats cfg layout) cfg) (cells_of layout)

  -- The first cell, from place i on, that holds the centroid.
  unfoldable pub owner_from : Box → ℕ → List (LayoutBox fl) → Option ℕ
  owner_from b i [] = none
  owner_from b i (lb ∷ lbs) =
      if centroid_in_aabb fl b (aabb lb.box) then some i else owner_from b (suc i) lbs

  unfoldable pub bucket_dets :
      List (LayoutBox fl) → List RouterDecision → ℕ → List Box → RoutingPlan → RoutingPlan
  bucket_dets layout ds i [] p = p
  bucket_dets layout ds i (b ∷ bs) p =
      bucket_dets layout ds (suc i) bs (bucket_det ds i (owner_from b 0 layout) p)

  abbrev pub fresh_plan : List Box → RoutingPlan
  fresh_plan dets = record empty_plan { rec_suppress = replicate (length dets) 0 }

  unfoldable pub classify : RouterConfig fl → List Box → List (LayoutBox fl) → RoutingPlan
  classify cfg dets layout =
      if is_empty layout
      then all_text 0 dets (fresh_plan dets)
      else bucket_dets layout (decisions_for cfg dets layout) 0 dets
          (bucket_decisions (decisions_for cfg dets layout) (fresh_plan dets))
