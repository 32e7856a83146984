-- ===== src/Router/Geometry.antt =====
-- The rectangles of include/turbo_ocr/common/geometry/box.h and src/router/cua_router_rules.cpp.
-- Coordinates are integers without a bound: a sum or a difference that leaves the 32-bit range,
-- which C++ leaves undefined, is not modelled.
use turbo_ocr.Common.{
  Floats, Bool, ◌&&◌, ◌||◌, if◌then◌else◌, ℤ, pos, ◌-ℤ◌, ◌*ℤ◌, leb_ℤ, min_ℤ, max_ℤ,
}
use turbo_ocr.Router.Types.{Rect, Box}

unfoldable pub aabb : Box → Rect
aabb b = record {
  x0 = min_ℤ (min_ℤ (min_ℤ b.tl.x b.tr.x) b.br.x) b.bl.x;
  y0 = min_ℤ (min_ℤ (min_ℤ b.tl.y b.tr.y) b.br.y) b.bl.y;
  x1 = max_ℤ (max_ℤ (max_ℤ b.tl.x b.tr.x) b.br.x) b.bl.x;
  y1 = max_ℤ (max_ℤ (max_ℤ b.tl.y b.tr.y) b.br.y) b.bl.y;
}

unfoldable pub aabb_area : Rect → ℤ
unfolding ◌-ℤ◌ ◌*ℤ◌
aabb_area r = max_ℤ (pos 0) (r.x1 -ℤ r.x0) *ℤ max_ℤ (pos 0) (r.y1 -ℤ r.y0)

-- The area of the rectangle from (x0, y0) to (x1, y1), 0 when it is empty.
abbrev pub area_between : ℤ → ℤ → ℤ → ℤ → ℤ
area_between x0 y0 x1 y1 = if leb_ℤ x1 x0 || leb_ℤ y1 y0 then pos 0 else (x1 -ℤ x0) *ℤ (y1 -ℤ y0)

unfoldable pub aabb_intersect_area : Rect → Rect → ℤ
unfolding ◌-ℤ◌ ◌*ℤ◌
aabb_intersect_area a b =
    area_between (max_ℤ a.x0 b.x0) (max_ℤ a.y0 b.y0) (min_ℤ a.x1 b.x1) (min_ℤ a.y1 b.y1)

module _ (fl : Floats) where
  -- The sum of four coordinates from 0.0f, times 0.25f.
  abbrev pub centre : ℤ → ℤ → ℤ → ℤ → fl.F
  centre a b c d =
      fl.mul
        (fl.add
          (fl.add (fl.add (fl.add (fl.of_int (pos 0)) (fl.of_int a)) (fl.of_int b)) (fl.of_int c))
          (fl.of_int d))
        (fl.ratio 25 100)

  abbrev pub quad_centroid_x : Box → fl.F
  quad_centroid_x b = centre b.tl.x b.tr.x b.br.x b.bl.x

  abbrev pub quad_centroid_y : Box → fl.F
  quad_centroid_y b = centre b.tl.y b.tr.y b.br.y b.bl.y

  unfoldable pub centroid_in_aabb : Box → Rect → Bool
  centroid_in_aabb b r =
      fl.le (fl.of_int r.x0) (quad_centroid_x b)
      && fl.le (quad_centroid_x b) (fl.of_int r.x1)
      && fl.le (fl.of_int r.y0) (quad_centroid_y b)
      && fl.le (quad_centroid_y b) (fl.of_int r.y1)
