-- ===== src/Docassembly/TableMerge/Match.antt =====
-- When two tables are one: the second half of the helpers of src/docassembly/table_merge.cpp, with the
-- record of include/turbo_ocr/docassembly/parsing_block.h. The `double` operations are a parameter.
use turbo_ocr.Common.{
  Floats, ℕ, zero, suc, ◌+◌, ◌-◌, Bool, true, false, not, ◌&&◌, ◌||◌, Option, none, some, List, [],
  ◌∷◌, ◌++◌, ltb, leb, ◌==◌, if◌then◌else◌, is_empty, length, get_elem?, set, take, drop, replicate,
  Bytes, codes, bytes_eq, ℤ, pos, ◌-ℤ◌, ltb_ℤ, eq_ℤ, min_ℤ, min, max,
}
use turbo_ocr.Router.Types.{Rect}
use turbo_ocr.TableHtml.Texts.{ascii_lower}
use turbo_ocr.TableHtml.Reconstruct.{holds}
use turbo_ocr.Docassembly.TableMerge.Rows.{
  HtmlRow, ifind, irfind, extract_tr_raw, parse_rows, norm_text,
}

-- `title_level` is not -1 for a heading.
pub record ParsingBlock : Type 0 where
  pub label : Bytes
  pub bbox : Rect
  pub content : Bytes
  pub page_index : ℤ
  pub global_block_id : ℕ
  pub global_group_id : ℕ
  pub title_level : ℤ

abbrev pub max_grid_columns : ℕ
max_grid_columns = 4096

-- How many columns from a column on are still taken in `row`; the list is `blocked_until` from there.
unfoldable pub blocked_run : ℕ → List ℕ → ℕ
blocked_run row [] = 0
blocked_run row (b ∷ bs) = let rest = suc (blocked_run row bs) in if ltb row b then rest else 0

abbrev pub resize : ℕ → List ℕ → List ℕ
resize n xs = xs ++ replicate (n - length xs) 0

-- `n` columns from `c` on are taken up to `free_row`.
unfoldable pub block_columns : ℕ → ℕ → ℕ → List ℕ → List ℕ
block_columns zero c free_row blocked = blocked
block_columns (suc n) c free_row blocked = block_columns n (suc c) free_row (set blocked c free_row)

-- The cells of one row, from column `col` on: `blocked_until` and `max_cols`, which is the cap when the
-- function returns early.
unfoldable pub add_cells : ℕ → ℕ → HtmlRow → List ℕ × ℕ → List ℕ × ℕ
add_cells row col [] grid = grid
add_cells row col (cell ∷ cells) (blocked, max_cols) =
    let start = col + blocked_run row (drop col blocked) in
    let end = min (start + cell.colspan) max_grid_columns in
    let blocked' = block_columns (end - start) start (row + cell.rowspan) (resize end blocked) in
    let max_cols' = max max_cols end in
    let rest = add_cells row end cells (blocked', max_cols') in
    if leb max_grid_columns max_cols' then (blocked', max_grid_columns) else rest

unfoldable pub add_rows : ℕ → List HtmlRow → List ℕ × ℕ → ℕ
add_rows r [] (blocked, max_cols) = max_cols
add_rows r (cells ∷ rows) grid =
    let grid' = add_cells r 0 cells grid in
    let rest = add_rows (suc r) rows grid' in
    if leb max_grid_columns grid'.1 then max_grid_columns else rest

unfoldable pub calc_total_columns : List HtmlRow → ℕ
unfolding add_rows add_cells block_columns blocked_run
calc_total_columns rows = add_rows 0 rows ([], 0)

unfoldable pub calc_row_columns : HtmlRow → ℕ
calc_row_columns [] = 0
calc_row_columns (c ∷ cells) = c.colspan + calc_row_columns cells

-- HtmlCell by cell, one row repeats the other.
unfoldable pub same_cells : HtmlRow → HtmlRow → Bool
same_cells [] [] = true
same_cells (c ∷ cs) (d ∷ ds) =
    c.colspan == d.colspan && (bytes_eq (norm_text c.text) (norm_text d.text) && same_cells cs ds)
same_cells _ _ = false

-- At most `most` rows.
unfoldable pub count_rows : ℕ → List HtmlRow → List HtmlRow → ℕ
count_rows (suc most) (r ∷ rs) (s ∷ ss) =
    let more = suc (count_rows most rs ss) in if same_cells r s then more else 0
count_rows _ _ _ = 0

unfoldable pub count_header_rows : List HtmlRow → List HtmlRow → ℕ
unfolding count_rows same_cells norm_text
count_header_rows r1 r2 = count_rows 5 r1 r2

abbrev pub row_or_none : Option HtmlRow → HtmlRow
row_or_none none = []
row_or_none (some r) = r

abbrev pub last_row : List HtmlRow → HtmlRow
last_row [] = []
last_row (r ∷ []) = r
last_row (r ∷ s ∷ rows) = last_row (s ∷ rows)

unfoldable pub check_rows_match : List HtmlRow → List HtmlRow → Bool
unfolding count_header_rows calc_row_columns
check_rows_match r1 r2 =
    let header_count = count_header_rows r1 r2 in
    let last = last_row r1 in
    let first_data = row_or_none (get_elem? r2 header_count) in
    not (is_empty r1 || is_empty r2)
    && (ltb header_count (length r2)
        && (calc_row_columns last == calc_row_columns first_data
            || length last == length first_data))

unfoldable pub label_in : Bytes → List Bytes → Bool
label_in label [] = false
label_in label (l ∷ labels) = bytes_eq label l || label_in label labels

abbrev pub follow_ok : List Bytes
follow_ok =
    codes "footer"
    ∷ codes "vision_footnote"
    ∷ codes "number"
    ∷ codes "footnote"
    ∷ codes "footer_image"
    ∷ codes "seal"
    ∷ []

abbrev pub before_ok : List Bytes
before_ok = codes "header" ∷ codes "header_image" ∷ codes "number" ∷ codes "seal" ∷ []

-- The bytes of the Chinese word come last.
abbrev pub continue_words : List Bytes
continue_words =
    codes "continue" ∷ codes "continued" ∷ codes "cont'd" ∷ (0xE7 ∷ 0xBB ∷ 0xAD ∷ []) ∷ []

unfoldable pub holds_one : List Bytes → Bytes → Bool
holds_one [] s = false
holds_one (k ∷ ks) s = holds k s || holds_one ks s

unfoldable pub is_skippable : ParsingBlock → List Bytes → Bool
unfolding label_in holds_one
is_skippable block allowed_labels =
    label_in block.label allowed_labels || holds_one continue_words (ascii_lower block.content)

unfoldable pub all_furniture : List ParsingBlock → Bool
all_furniture [] = true
all_furniture (b ∷ bs) = label_in b.label follow_ok && all_furniture bs

unfoldable pub all_skippable : List ParsingBlock → Bool
all_skippable [] = true
all_skippable (b ∷ bs) = is_skippable b before_ok && all_skippable bs

abbrev pub box_width : ParsingBlock → ℤ
box_width b = b.bbox.x1 -ℤ b.bbox.x0

abbrev pub abs_ℤ : ℤ → ℤ
abs_ℤ x = if ltb_ℤ x (pos 0) then pos 0 -ℤ x else x

module _ (fl : Floats) where
  abbrev pub widths_differ : ℤ → ℤ → Bool
  widths_differ pw cw =
      fl.le (fl.ratio 1 10) (fl.div (fl.of_int (abs_ℤ (cw -ℤ pw))) (fl.of_int (min_ℤ cw pw)))

  unfoldable pub can_merge_tables :
      List ParsingBlock → ℕ → ParsingBlock → List ParsingBlock → ℕ → ParsingBlock → Bool
  can_merge_tables prev_page prev_idx prev curr_page curr_idx curr =
      let pw = box_width prev in
      let cw = box_width curr in
      let rows_prev = parse_rows prev.content in
      let rows_curr = parse_rows curr.content in
      not (eq_ℤ pw (pos 0) || eq_ℤ cw (pos 0))
      && (not (widths_differ pw cw)
          && (all_furniture (drop (suc prev_idx) prev_page)
              && (all_skippable (take curr_idx curr_page)
                  && (not (is_empty prev.content || is_empty curr.content)
                      && (calc_total_columns rows_prev == calc_total_columns rows_curr
                          || check_rows_match rows_prev rows_curr)))))

unfoldable pub join_all : List Bytes → Bytes
join_all [] = []
join_all (s ∷ ss) = s ++ join_all ss

-- The place in the first table behind its last row, or before its end.
abbrev pub insert_at : Option ℕ → Option ℕ → Option ℕ
insert_at (some i) close = some (i + 5)
insert_at none close = close

abbrev pub insert_rows : Option ℕ → Bytes → Bytes → Bytes
insert_rows none appended html = html ++ appended
insert_rows (some i) appended html = take i html ++ (appended ++ drop i html)

unfoldable pub perform_table_merge : Bytes → Bytes → Bytes
perform_table_merge prev_html curr_html =
    let header_count = count_header_rows (parse_rows prev_html) (parse_rows curr_html) in
    let appended = join_all (drop header_count (extract_tr_raw 0 curr_html)) in
    if is_empty appended
    then prev_html
    else insert_rows
        (insert_at (irfind (codes "</tr>") 0 prev_html) (ifind (codes "</table>") 0 prev_html))
        appended prev_html
