-- ===== src/Router/Overlap.antt =====
-- `build_overlap_stats` of src/router/cua_router_rules.cpp and the density hint of
-- src/router/region_features.cpp. One entry stands for the place i of the four vectors.
use turbo_ocr.Common.{
  Floats, ℕ, suc, ◌&&◌, List, [], ◌∷◌, map, if◌then◌else◌, ltb, ℤ, pos, ◌-ℤ◌, max_ℤ,
}
use turbo_ocr.Router.Types.{Rect, Box, CellStats, OverlapStats}
use turbo_ocr.Router.Geometry.{aabb, aabb_area, centroid_in_aabb}

module _ (fl : Floats) where
  -- `std::min`, `std::max` and `std::clamp` on floats.
  abbrev pub min_f : fl.F → fl.F → fl.F
  min_f a b = if fl.lt b a then b else a

  abbrev pub max_f : fl.F → fl.F → fl.F
  max_f a b = if fl.lt a b then b else a

  abbrev pub clamp_f : fl.F → fl.F → fl.F → fl.F
  clamp_f v lo hi = if fl.lt v lo then lo else if fl.lt hi v then hi else v

  abbrev pub side : ℤ → ℤ → fl.F
  side from to = fl.of_int (max_ℤ (pos 0) (to -ℤ from))

  unfoldable pub region_symbol_density_hint : Rect → ℕ → fl.F
  unfolding ◌-ℤ◌
  region_symbol_density_hint r n =
      clamp_f
        (fl.div (fl.of_int (pos n))
          (fl.log1p (max_f (fl.of_int (pos 1)) (fl.mul (side r.x0 r.x1) (side r.y0 r.y1)))))
        (fl.of_int (pos 0)) (fl.of_int (pos 1))

  -- A cell's running sums: its count, its covered area and its aspect ratios.
  pub record CellSums : Type 0 where
    pub rect : Rect
    pub count : ℕ
    pub covered : fl.F
    pub aspect_sum : fl.F

  unfoldable pub det_area : Rect → fl.F
  unfolding ◌-ℤ◌
  det_area r = fl.mul (side r.x0 r.x1) (side r.y0 r.y1)

  -- w / h of a box that has both.
  unfoldable pub det_aspect : Rect → fl.F
  unfolding ◌-ℤ◌
  det_aspect r =
      if fl.lt (fl.of_int (pos 0)) (side r.y0 r.y1) && fl.lt (fl.of_int (pos 0)) (side r.x0 r.x1)
      then fl.div (side r.x0 r.x1) (side r.y0 r.y1)
      else fl.of_int (pos 0)

  abbrev pub add_det : fl.F → fl.F → CellSums → CellSums
  add_det area ar c = record c {
    count = suc c.count;
    covered = fl.add c.covered area;
    aspect_sum = if fl.lt (fl.of_int (pos 0)) ar then fl.add c.aspect_sum ar else c.aspect_sum;
  }

  -- The first cell that holds the centroid takes the box.
  unfoldable pub count_det : Box → List CellSums → List CellSums
  count_det b [] = []
  count_det b (c ∷ cs) =
      if centroid_in_aabb fl b c.rect
      then add_det (det_area (aabb b)) (det_aspect (aabb b)) c ∷ cs
      else c ∷ count_det b cs

  unfoldable pub count_dets : List Box → List CellSums → List CellSums
  count_dets [] cs = cs
  count_dets (b ∷ bs) cs = count_dets bs (count_det b cs)

  abbrev pub no_dets : Rect → CellSums
  no_dets r = record {
    rect = r;
    count = 0;
    covered = fl.of_int (pos 0);
    aspect_sum = fl.of_int (pos 0);
  }

  -- The last loop, for one cell.
  unfoldable pub finish_stats : CellSums → CellStats fl
  finish_stats c = record {
    det_count = c.count;
    det_coverage =
        if fl.lt (fl.of_int (pos 0)) (fl.of_int (aabb_area c.rect))
        then min_f (fl.of_int (pos 1)) (fl.div c.covered (fl.of_int (aabb_area c.rect)))
        else fl.of_int (pos 0);
    mean_aspect_ratio =
        if ltb 0 c.count then fl.div c.aspect_sum (fl.of_int (pos c.count)) else fl.of_int (pos 0);
    symbol_density_hint = region_symbol_density_hint c.rect c.count;
  }

  unfoldable pub build_overlap_stats : List Box → List Rect → OverlapStats fl
  build_overlap_stats dets aabbs = map finish_stats (count_dets dets (map no_dets aabbs))
