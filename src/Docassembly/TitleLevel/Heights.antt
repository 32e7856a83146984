-- ===== src/Docassembly/TitleLevel/Heights.antt =====
-- The font sizes of headings: `get_title_height` and `cluster_global_heights` of
-- src/docassembly/title_level.cpp. The operations on `double`, `std::lround` and `std::sort` are
-- parameters.
use turbo_ocr.Common.{
  Floats, ℕ, zero, suc, ◌+◌, ◌-◌, ◌/◌, Bool, false, ◌||◌, Option, none, some, List, [], ◌∷◌, map,
  ◌==◌, if◌then◌else◌, length, get_elem?, set, replicate, Bytes, trim, min, ℤ, pos, negsuc, ◌-ℤ◌,
  leb_ℤ, ltb_ℤ, eq_ℤ,
}
use turbo_ocr.Docassembly.TableMerge.Match.{ParsingBlock}

unfoldable pub count_newlines : Bytes → ℕ
count_newlines [] = 0
count_newlines (c ∷ cs) = let rest = count_newlines cs in if c == 10 then suc rest else rest

-- Division of `int`s, which rounds towards zero.
unfoldable pub div_int : ℤ → ℕ → ℤ
div_int (pos a) n = pos (a / n)
div_int (negsuc a) n = pos 0 -ℤ pos (suc a / n)

abbrev pub at_least_one : ℤ → ℤ
at_least_one h = if leb_ℤ h (pos 0) then pos 1 else h

-- A sorted list without repetition, as `std::set` holds it.
unfoldable pub insert_height : ℤ → List ℤ → List ℤ
insert_height h [] = h ∷ []
insert_height h (x ∷ xs) =
    let later = x ∷ insert_height h xs in
    if ltb_ℤ h x then h ∷ x ∷ xs else if ltb_ℤ x h then later else x ∷ xs

unfoldable pub unique_heights : List ℤ → List ℤ
unique_heights [] = []
unique_heights (h ∷ hs) = insert_height h (unique_heights hs)

abbrev pub height_or_zero : Option ℤ → ℤ
height_or_zero none = pos 0
height_or_zero (some h) = h

-- The first place of an index in the order of the centers, counted from `rank`; 0 when it is not there.
unfoldable pub rank_of_center : ℕ → ℕ → List ℕ → ℕ
rank_of_center best rank [] = 0
rank_of_center best rank (j ∷ js) =
    let later = rank_of_center best (suc rank) js in if j == best then rank else later

abbrev pub count_up : ℕ → ℕ → List ℕ
count_up zero j = []
count_up (suc n) j = j ∷ count_up n (suc j)

-- The level that a height is mapped to, or 1.
unfoldable pub level_of_height : ℤ → List (ℤ × ℕ) → ℕ
level_of_height h [] = 1
level_of_height h ((x, level) ∷ rest) =
    let later = level_of_height h rest in if eq_ℤ h x then level else later

module _ (fl : Floats) where
  unfoldable pub get_title_height : ParsingBlock → ℤ
  unfolding count_newlines div_int
  get_title_height b =
      let h = at_least_one (b.bbox.y1 -ℤ b.bbox.y0) in
      let w = b.bbox.x1 -ℤ b.bbox.x0 in
      let lines = count_newlines (trim b.content) + 1 in
      if fl.le (fl.ratio 1 1) (fl.div (fl.of_int w) (fl.of_int h))
      then div_int h lines
      else div_int w lines

  abbrev pub center_distance : ℤ → fl.F → fl.F
  center_distance h c = fl.fabs (fl.sub (fl.of_int h) c)

  -- The loop over the centers from `j` on, with the best so far and its distance.
  unfoldable pub nearest_from : ℤ → ℕ → ℕ → fl.F → List fl.F → ℕ
  nearest_from h j best bd [] = best
  nearest_from h j best bd (c ∷ cs) =
      let d = center_distance h c in
      nearest_from h (suc j) (if fl.lt d bd then j else best) (if fl.lt d bd then d else bd) cs

  unfoldable pub nearest : ℤ → List fl.F → ℕ
  unfolding nearest_from
  nearest h [] = 0
  nearest h (c ∷ cs) = nearest_from h 1 0 (center_distance h c) cs

  -- `sum` and `cnt`, side by side.
  abbrev pub Cluster : Type 0
  Cluster = fl.F × ℕ

  abbrev pub add_height : ℤ → Option Cluster → Cluster
  add_height h none = (fl.of_int h, 1)
  add_height h (some (sum, cnt)) = (fl.add sum (fl.of_int h), cnt + 1)

  unfoldable pub collect : List fl.F → List ℤ → List Cluster → List Cluster
  collect centers [] clusters = clusters
  collect centers (h ∷ hs) clusters =
      let best = nearest h centers in
      collect centers hs (set clusters best (add_height h (get_elem? clusters best)))

  abbrev pub mean : Cluster → fl.F → fl.F
  mean (sum, cnt) c = if cnt == 0 then c else fl.div sum (fl.of_int (pos cnt))

  abbrev pub has_moved : Cluster → fl.F → Bool
  has_moved (sum, cnt) c =
      if cnt == 0
      then false
      else fl.lt (fl.ratio 1 1000000000) (fl.fabs (fl.sub (fl.div sum (fl.of_int (pos cnt))) c))

  unfoldable pub move_centers : List Cluster → List fl.F → List fl.F × Bool
  move_centers (k ∷ ks) (c ∷ cs) =
      let (rest, moved) = move_centers ks cs in (mean k c ∷ rest, has_moved k c || moved)
  move_centers _ _ = ([], false)

  -- At most `rounds` rounds.
  unfoldable pub iterate : ℕ → List ℤ → List fl.F → List fl.F
  iterate zero heights centers = centers
  iterate (suc rounds) heights centers =
      let empty = replicate (length centers) (fl.of_int (pos 0), 0) in
      let (centers', moved) = move_centers (collect centers heights empty) centers in
      let rest = iterate rounds heights centers' in if moved then rest else centers'

  abbrev pub center_or_zero : Option fl.F → fl.F
  center_or_zero none = fl.of_int (pos 0)
  center_or_zero (some c) = c

  module _ (lround : fl.F → ℕ) (sort : (ℕ → ℕ → Bool) → List ℕ → List ℕ) where
    -- The quantile for center `j` of `k`.
    abbrev pub first_center : List ℤ → ℕ → ℕ → fl.F
    first_center uniq k j =
        if k == 1
        then fl.of_int (height_or_zero (get_elem? uniq 0))
        else fl.of_int (
            height_or_zero (
              get_elem? uniq (
                lround (
                  fl.div (fl.mul (fl.of_int (pos j)) (fl.of_int (pos (length uniq - 1))))
                    (fl.of_int (pos (k - 1)))))))

    unfoldable pub cluster_global_heights : List ℤ → List (ℤ × ℕ)
    unfolding unique_heights insert_height nearest collect move_centers iterate rank_of_center
    cluster_global_heights heights =
        let uniq = unique_heights heights in
        let k = min 4 (length uniq) in
        let centers = iterate 100 heights (map (first_center uniq k) (count_up k 0)) in
        let order =
          sort
            (λ a b.
              fl.lt (center_or_zero (get_elem? centers b)) (center_or_zero (get_elem? centers a)))
            (count_up k 0) in
        map (λ h. (h, rank_of_center (nearest h centers) 1 order)) uniq
