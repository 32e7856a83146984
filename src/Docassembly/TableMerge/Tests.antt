-- ===== src/Docassembly/TableMerge/Tests.antt =====
-- A table over three pages, and the theorem about merging at it.
use turbo_ocr.Common.{
  Floats, ℕ, ◌≡◌, refl, ◌+◌, ◌-◌, ◌*◌, ◌/◌, List, [], ◌∷◌, ltb, leb, pos, above, map, diff, ◌-ℤ◌,
  Bytes, codes, bytes_eq,
}
use turbo_ocr.TableHtml.Texts.{ascii_lower, starts_with}
use turbo_ocr.TableHtml.Reconstruct.{holds}
use turbo_ocr.Docassembly.TableMerge.Rows.{
  ieq_at, ifind, irfind, attr_int, extract_tr_raw, parse_rows, full_to_half, norm_text,
}
use turbo_ocr.Docassembly.TableMerge.Match.{
  ParsingBlock, calc_total_columns, count_header_rows, check_rows_match, is_skippable,
  all_furniture, all_skippable, can_merge_tables, join_all, perform_table_merge,
}
use turbo_ocr.Docassembly.TableMerge.Pages.{
  Page, all_blocks, number_page, number_pages, first_table, last_table, merge_at, merge_pages,
  resolve_page, resolve_pages, merge_tables_across_pages,
}
use turbo_ocr.Docassembly.TableMerge.Blocks.{KeepsPages}
use turbo_ocr.Docassembly.TableMerge.Resolving.{IsSettled, merge_tables_across_pages-IsSettled}

-- Thousandths, from 0 on.
abbrev thousandths : Floats
thousandths = record {
  F = ℕ;
  of_int = λ z. 1000 * above z;
  ratio = λ n d. 1000 * n / d;
  add = λ a b. a + b;
  sub = λ a b. a - b;
  mul = λ a b. a * b / 1000;
  div = λ a b. a * 1000 / b;
  fabs = λ a. a;
  log1p = λ a. a;
  lt = ltb;
  le = leb;
}

abbrev block : Bytes → Bytes → ParsingBlock
block label content = record {
  label = label;
  bbox = record { x0 = pos 0; y0 = pos 0; x1 = pos 100; y1 = pos 50 };
  content = content;
  page_index = pos 0;
  global_block_id = 0;
  global_group_id = 0;
  title_level = pos 0;
}

abbrev three_pages : List Page
three_pages =
    (block (codes "table") (codes "<table><tr><td>A</td></tr><tr><td>1</td></tr></table>") ∷ [])
    ∷ (block (codes "header") []
        ∷ block (codes "table") (codes "<table><TR><td> A</td></tr><tr><td>2</td></TR></table>")
        ∷ [])
    ∷ (block (codes "table") (codes "<table><tr><td>3</td></tr></table>") ∷ [])
    ∷ []

abbrev summary : List ParsingBlock → List (ℕ × Bytes)
summary bs = map (λ (b : ParsingBlock). (b.global_group_id, b.content)) bs

merged :
    summary (all_blocks (merge_tables_across_pages thousandths three_pages))
    ≡ (
      0,
      codes
          "<table><tr><td>A</td></tr><tr><td>1</td></tr><tr><td>2</td></TR><tr><td>3</td></tr></table>",
    )
      ∷ (1, [])
      ∷ (0, [])
      ∷ (0, [])
      ∷ []
unfolding merge_tables_across_pages resolve_pages resolve_page merge_pages merge_at first_table
    last_table number_pages number_page can_merge_tables all_furniture all_skippable is_skippable
    calc_total_columns check_rows_match perform_table_merge join_all count_header_rows parse_rows
    extract_tr_raw norm_text ifind irfind ieq_at starts_with ascii_lower bytes_eq holds diff ◌-ℤ◌
merged = refl

wide_span : attr_int (codes "<td colspan='9999999999'") (codes "colspan") 1 ≡ 512
unfolding attr_int starts_with
wide_span = refl

full_width :
    full_to_half (0xEF ∷ 0xBC ∷ 0xA1 ∷ 0xE7 ∷ 0xBB ∷ 0xAD ∷ []) ≡ 65 ∷ 0xE7 ∷ 0xBB ∷ 0xAD ∷ []
unfolding full_to_half
full_width = refl

merge_tables_across_pages-IsSettled_example :
    let out = merge_tables_across_pages thousandths three_pages in
    KeepsPages three_pages out × IsSettled (all_blocks out)
merge_tables_across_pages-IsSettled_example =
    merge_tables_across_pages-IsSettled thousandths three_pages
