-- ===== src/ReadingOrder/Assign.antt =====
-- `reading_priority_bucket` of include/turbo_ocr/layout/layout_types.h, and `xy_cut_subset` and
-- `assign_reading_order` of src/layout/order/reading_order.cpp. What a function pushes to its
-- out-parameter is its result.
use turbo_ocr.Common.{
  Floats, ℕ, suc, Bool, true, false, ◌||◌, Option, none, some, List, [], ◌∷◌, ◌++◌, map, ◌==◌,
  if◌then◌else◌, length, get_elem?, set, replicate, ℤ, pos, eq_ℤ,
}
use turbo_ocr.Router.Types.{Rect, Box, LayoutBox}
use turbo_ocr.Router.Geometry.{aabb}
use turbo_ocr.ReadingOrder.Counting.{iota}
use turbo_ocr.ReadingOrder.XyCut.{recursive_xy_cut}

abbrev is_header : ℤ → Bool
is_header c = eq_ℤ c (pos 12) || eq_ℤ c (pos 13)

abbrev is_footer : ℤ → Bool
is_footer c =
    eq_ℤ c (pos 8)
    || eq_ℤ c (pos 9)
    || eq_ℤ c (pos 10)
    || eq_ℤ c (pos 18)
    || eq_ℤ c (pos 19)
    || eq_ℤ c (pos 24)

-- 0 is read first, then 1, then 2.
unfoldable pub reading_priority_bucket : ℤ → ℕ
reading_priority_bucket class_id =
    if is_header class_id then 0 else if is_footer class_id then 2 else 1

-- `seen[li] = 1`, when it is in range.
abbrev pub mark_seen : List ℕ → List Bool → List Bool
mark_seen [] seen = seen
mark_seen (li ∷ order) seen = mark_seen order (set seen li true)

-- The positions from `k` on that are not seen.
abbrev pub missed : ℕ → List Bool → List ℕ
missed k [] = []
missed k (seen ∷ rest) = let later = missed (suc k) rest in if seen then later else k ∷ later

-- The "defense in depth" of `xy_cut_subset` on the cut of `n` rectangles.
unfoldable pub complete_order : ℕ → List ℕ → List ℕ
complete_order n order = order ++ missed 0 (mark_seen order (replicate n false))

abbrev pub or_zero : Option ℕ → ℕ
or_zero (some i) = i
or_zero none = 0

-- `subset[li]`
abbrev pub entry_of : List ℕ → ℕ → ℕ
entry_of subset li = or_zero (get_elem? subset li)

abbrev pub empty_box : Box
empty_box = record {
  tl = record { x = pos 0; y = pos 0 };
  tr = record { x = pos 0; y = pos 0 };
  br = record { x = pos 0; y = pos 0 };
  bl = record { x = pos 0; y = pos 0 };
}

abbrev pub Buckets : Type 0
Buckets = List ℕ × List ℕ × List ℕ

-- `buckets[b].push_back(i)`
abbrev pub push_bucket : ℕ → ℕ → Buckets → Buckets
push_bucket b i (first, body, last) =
    if b == 0
    then (first ++ i ∷ [], body, last)
    else if b == 1
    then (first, body ++ i ∷ [], last)
    else (first, body, last ++ i ∷ [])

module _ (fl : Floats) where
  abbrev pub box_of : Option (LayoutBox fl) → Box
  box_of (some lb) = lb.box
  box_of none = empty_box

  abbrev pub rect_of : List (LayoutBox fl) → ℕ → Rect
  rect_of layout idx = aabb (box_of (get_elem? layout idx))

  unfoldable pub xy_cut_subset : List (LayoutBox fl) → List ℕ → ℤ → List ℕ
  xy_cut_subset layout [] min_gap = []
  xy_cut_subset layout (i ∷ is) min_gap =
      let n = length (i ∷ is) in
      let rects = map (rect_of layout) (i ∷ is) in
      map (entry_of (i ∷ is)) (complete_order n (recursive_xy_cut rects (iota n 0) min_gap))

  unfoldable pub fill_buckets : ℕ → List (LayoutBox fl) → Buckets → Buckets
  fill_buckets i [] buckets = buckets
  fill_buckets i (lb ∷ layout) buckets =
      fill_buckets (suc i) layout (push_bucket (reading_priority_bucket lb.class_id) i buckets)

  unfoldable pub order_buckets : List (LayoutBox fl) → ℤ → Buckets → List ℕ
  order_buckets layout min_gap (first, body, last) =
      xy_cut_subset layout first min_gap
      ++ (xy_cut_subset layout body min_gap ++ xy_cut_subset layout last min_gap)

  unfoldable pub assign_reading_order : List (LayoutBox fl) → ℤ → List ℕ
  assign_reading_order layout min_gap =
      order_buckets layout min_gap (fill_buckets 0 layout ([], [], []))
