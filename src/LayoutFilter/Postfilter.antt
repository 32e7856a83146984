-- ===== src/LayoutFilter/Postfilter.antt =====
-- `postfilter_layout_boxes`. std::sort by descending score is a parameter, and so is the merge mode
-- that the environment names. Floats are a parameter; an `int` product is of integers without a bound.
use turbo_ocr.Common.{
  Floats, ℕ, suc, Bool, true, false, not, ◌&&◌, ◌||◌, Option, none, some, List, [], ◌∷◌, ◌==◌,
  if◌then◌else◌, length, get_elem?, set, replicate, Bytes, codes, bytes_eq, ℤ, pos, ◌+ℤ◌, ◌-ℤ◌,
  ◌*ℤ◌, eq_ℤ, ltb_ℤ, min_ℤ, max_ℤ,
}
use turbo_ocr.Router.Types.{LayoutBox}

pub data MergeMode : Type 0 where
  keep_all : MergeMode
  keep_outer : MergeMode
  keep_inner : MergeMode

abbrev pub or_all : Option Bytes → Bytes
or_all none = codes "all"
or_all (some v) = v

-- On the value of LAYOUT_MERGE_MODE.
unfoldable pub layout_merge_mode : Option Bytes → MergeMode
layout_merge_mode v =
    let s = or_all v in
    if bytes_eq s (codes "outer") || bytes_eq s (codes "large")
    then keep_outer
    else if bytes_eq s (codes "inner") || bytes_eq s (codes "small")
    then keep_inner
    else keep_all

unfoldable pub is_formula_class : ℤ → Bool
is_formula_class c = eq_ℤ c (pos 5) || eq_ℤ c (pos 15)

-- The width of the intersection along one axis, with `extra` for inclusive pixels, 0 when apart.
abbrev pub common_extent : ℤ → ℤ → ℤ → ℤ → ℤ → ℤ
common_extent extra a0 a1 b0 b1 = max_ℤ (pos 0) ((min_ℤ a1 b1 -ℤ max_ℤ a0 b0) +ℤ extra)

-- kImageClassId
abbrev pub image_class_id : ℤ
image_class_id = pos 14

-- A flag that is out of range is off.
abbrev pub flag_at : Option Bool → Bool
flag_at none = false
flag_at (some b) = b

-- inside_other and contains_other.
pub record Nesting : Type 0 where
  pub inside_other : List Bool
  pub contains_other : List Bool

-- `keep`
abbrev pub keeps : MergeMode → Bool → Bool → Bool
keeps keep_outer inside contains = not inside
keeps _ inside contains = not contains || inside

module _ (fl : Floats) where
  abbrev pub zero_f : fl.F
  zero_f = fl.of_int (pos 0)

  unfoldable pub compute_iou : LayoutBox fl → LayoutBox fl → fl.F
  compute_iou a b =
      let p = a.box in
      let q = b.box in
      let inter = fl.of_int (
        common_extent (pos 1) p.tl.x p.br.x q.tl.x q.br.x
        *ℤ common_extent (pos 1) p.tl.y p.br.y q.tl.y q.br.y) in
      let area_a =
        fl.mul (fl.of_int ((p.br.x -ℤ p.tl.x) +ℤ pos 1))
          (fl.of_int ((p.br.y -ℤ p.tl.y) +ℤ pos 1)) in
      let area_b =
        fl.mul (fl.of_int ((q.br.x -ℤ q.tl.x) +ℤ pos 1))
          (fl.of_int ((q.br.y -ℤ q.tl.y) +ℤ pos 1)) in
      let union_area = fl.sub (fl.add area_a area_b) inter in
      if fl.lt zero_f union_area then fl.div inter union_area else zero_f

  -- kIoUSame and kIoUDiff.
  abbrev pub iou_threshold : LayoutBox fl → LayoutBox fl → fl.F
  iou_threshold a b = if eq_ℤ a.class_id b.class_id then fl.ratio 6 10 else fl.ratio 98 100

  -- `compute_iou(...) >= thresh`
  unfoldable pub overlaps_beyond : LayoutBox fl → LayoutBox fl → Bool
  overlaps_beyond a b = fl.le (iou_threshold a b) (compute_iou a b)

  -- The inner loop of the suppression by `a`, on the later boxes and their flags.
  unfoldable pub suppress_by : LayoutBox fl → List (LayoutBox fl) → List Bool → List Bool
  suppress_by a [] flags = flags
  suppress_by a (b ∷ bs) [] = []
  suppress_by a (b ∷ bs) (flag ∷ flags) =
      let later = suppress_by a bs flags in (if flag then true else overlaps_beyond a b) ∷ later

  -- The outer loop.
  unfoldable pub suppression : List (LayoutBox fl) → List Bool → List (LayoutBox fl)
  suppression [] flags = []
  suppression (b ∷ bs) [] = []
  suppression (b ∷ bs) (flag ∷ flags) =
      let rest = suppression bs (if flag then flags else suppress_by b bs flags) in
      if flag then rest else b ∷ rest

  unfoldable pub non_maximum_suppression : List (LayoutBox fl) → List (LayoutBox fl)
  non_maximum_suppression boxes = suppression boxes (replicate (length boxes) false)

  -- An "image" that covers most of the page.
  unfoldable pub is_oversized_image : ℤ → ℤ → LayoutBox fl → Bool
  is_oversized_image orig_h orig_w b =
      let p = b.box in
      let img_area = fl.mul (fl.of_int orig_w) (fl.of_int orig_h) in
      let area_thresh = if ltb_ℤ orig_w orig_h then fl.ratio 82 100 else fl.ratio 93 100 in
      let box_area = fl.mul (fl.of_int (p.br.x -ℤ p.tl.x)) (fl.of_int (p.br.y -ℤ p.tl.y)) in
      eq_ℤ b.class_id image_class_id && fl.lt (fl.mul area_thresh img_area) box_area

  -- `std::erase_if`
  unfoldable pub without_oversized : ℤ → ℤ → List (LayoutBox fl) → List (LayoutBox fl)
  without_oversized orig_h orig_w [] = []
  without_oversized orig_h orig_w (b ∷ bs) =
      let rest = without_oversized orig_h orig_w bs in
      if is_oversized_image orig_h orig_w b then rest else b ∷ rest

  unfoldable pub inside : LayoutBox fl → LayoutBox fl → Bool
  inside a b =
      let p = a.box in
      let q = b.box in
      let inter = fl.of_int (
        common_extent (pos 0) p.tl.x p.br.x q.tl.x q.br.x
        *ℤ common_extent (pos 0) p.tl.y p.br.y q.tl.y q.br.y) in
      let area_a = fl.mul (fl.of_int (p.br.x -ℤ p.tl.x)) (fl.of_int (p.br.y -ℤ p.tl.y)) in
      fl.lt zero_f area_a && fl.le (fl.ratio 9 10) (fl.div inter area_a)

  -- The tests of one pair of different boxes.
  unfoldable pub nests : LayoutBox fl → LayoutBox fl → Bool
  nests a b = not (is_formula_class a.class_id && not (is_formula_class b.class_id)) && inside a b

  -- One pair (i, j) of the double loop.
  unfoldable pub mark_nested : ℕ → LayoutBox fl → ℕ → LayoutBox fl → Nesting → Nesting
  mark_nested i a j b n =
      if i == j
      then n
      else if nests a b
      then record {
        inside_other = set n.inside_other i true;
        contains_other = set n.contains_other j true;
      }
      else n

  unfoldable pub nested_in : ℕ → LayoutBox fl → ℕ → List (LayoutBox fl) → Nesting → Nesting
  nested_in i a j [] n = n
  nested_in i a j (b ∷ bs) n = nested_in i a (suc j) bs (mark_nested i a j b n)

  unfoldable pub find_nesting : ℕ → List (LayoutBox fl) → List (LayoutBox fl) → Nesting → Nesting
  find_nesting i [] all n = n
  find_nesting i (a ∷ bs) all n = find_nesting (suc i) bs all (nested_in i a 0 all n)

  abbrev pub no_nesting : List (LayoutBox fl) → Nesting
  no_nesting all = record {
    inside_other = replicate (length all) false;
    contains_other = replicate (length all) false;
  }

  -- The loop that builds `merged`.
  unfoldable pub keep_merged : MergeMode → Nesting → ℕ → List (LayoutBox fl) → List (LayoutBox fl)
  keep_merged mode n i [] = []
  keep_merged mode n i (b ∷ bs) =
      let rest = keep_merged mode n (suc i) bs in
      if keeps mode (flag_at (get_elem? n.inside_other i)) (flag_at (get_elem? n.contains_other i))
      then b ∷ rest
      else rest

  unfoldable pub reconcile : MergeMode → List (LayoutBox fl) → List (LayoutBox fl)
  reconcile keep_all boxes = boxes
  reconcile keep_outer boxes =
      keep_merged keep_outer (find_nesting 0 boxes boxes (no_nesting boxes)) 0 boxes
  reconcile keep_inner boxes =
      keep_merged keep_inner (find_nesting 0 boxes boxes (no_nesting boxes)) 0 boxes

  unfoldable pub postfilter_layout_boxes :
      (List (LayoutBox fl) → List (LayoutBox fl))
      → MergeMode
      → List (LayoutBox fl)
      → ℤ
      → ℤ
      → List (LayoutBox fl)
  postfilter_layout_boxes sort mode boxes orig_h orig_w =
      reconcile mode (without_oversized orig_h orig_w (non_maximum_suppression (sort boxes)))
