-- ===== src/Docassembly/TableMerge/Pages.antt =====
-- `merge_tables_across_pages` of src/docassembly/table_merge.cpp.
use turbo_ocr.Common.{
  Floats, ℕ, suc, ◌+◌, Bool, true, false, Option, none, some, List, [], ◌∷◌, ◌++◌, ◌==◌,
  if◌then◌else◌, get_elem?, set, length, codes, bytes_eq,
}
use turbo_ocr.Docassembly.TableMerge.Match.{ParsingBlock, can_merge_tables, perform_table_merge}

abbrev pub Page : Type 0
Page = List ParsingBlock

-- The blocks in flattened order.
abbrev pub all_blocks : List Page → Page
all_blocks [] = []
all_blocks (page ∷ pages) = page ++ all_blocks pages

-- Ids from `gid` on.
unfoldable pub number_page : ℕ → Page → Page
number_page gid [] = []
number_page gid (b ∷ bs) =
    record b { global_block_id = gid; global_group_id = gid } ∷ number_page (suc gid) bs

unfoldable pub number_pages : ℕ → List Page → List Page
number_pages gid [] = []
number_pages gid (page ∷ pages) = number_page gid page ∷ number_pages (gid + length page) pages

abbrev pub is_table_block : ParsingBlock → Bool
is_table_block b = bytes_eq b.label (codes "table")

abbrev pub or_later :
    Option (ℕ × ParsingBlock) → Option (ℕ × ParsingBlock) → Option (ℕ × ParsingBlock)
or_later (some found) later = some found
or_later none later = later

abbrev pub here_if : Bool → ℕ → ParsingBlock → Option (ℕ × ParsingBlock)
here_if true j b = some (j, b)
here_if false j b = none

-- The first table of a page, and the last, with their places counted from `j`.
unfoldable pub first_table : ℕ → Page → Option (ℕ × ParsingBlock)
first_table j [] = none
first_table j (b ∷ bs) = or_later (here_if (is_table_block b) j b) (first_table (suc j) bs)

unfoldable pub last_table : ℕ → Page → Option (ℕ × ParsingBlock)
last_table j [] = none
last_table j (b ∷ bs) = or_later (last_table (suc j) bs) (here_if (is_table_block b) j b)

-- The host of a merge, and the block that is folded into it.
abbrev pub host : ParsingBlock → ParsingBlock → ParsingBlock
host prev curr = record prev { content = perform_table_merge prev.content curr.content }

abbrev pub folded : ParsingBlock → ParsingBlock → ParsingBlock
folded prev curr = record curr { content = []; global_group_id = prev.global_block_id }

module _ (fl : Floats) where
  unfoldable pub merge_at :
      Page → Option (ℕ × ParsingBlock) → Page → Option (ℕ × ParsingBlock) → Page × Page
  merge_at prev_page (some (i, prev)) curr_page (some (j, curr)) =
      if can_merge_tables fl prev_page i prev curr_page j curr
      then (set prev_page i (host prev curr), set curr_page j (folded prev curr))
      else (prev_page, curr_page)
  merge_at prev_page none curr_page _ = (prev_page, curr_page)
  merge_at prev_page (some found) curr_page none = (prev_page, curr_page)

  abbrev pub merge_pair : Page → Page → Page × Page
  merge_pair prev_page curr_page =
      merge_at prev_page (last_table 0 prev_page) curr_page (first_table 0 curr_page)

  -- A page in front of the pages behind it, which are done.
  abbrev pub merge_front : Page → List Page → List Page
  merge_front page [] = page ∷ []
  merge_front page (next_page ∷ pages) =
      let (page', next') = merge_pair page next_page in page' ∷ next' ∷ pages

  -- The loop over the pairs of pages, from the last.
  unfoldable pub merge_pages : List Page → List Page
  merge_pages [] = []
  merge_pages (page ∷ pages) = merge_front page (merge_pages pages)

abbrev pub group_of : Option ParsingBlock → ℕ
group_of none = 0
group_of (some b) = b.global_group_id

-- One hop to the group of the host.
abbrev pub resolve_block : Page → ParsingBlock → ParsingBlock
resolve_block blocks b = record b {
  global_group_id =
      if b.global_block_id == b.global_group_id
      then b.global_group_id
      else group_of (get_elem? blocks b.global_group_id);
}

-- The loop over the blocks of a page, with those before and behind them.
unfoldable pub resolve_page : Page → Page → Page → Page
resolve_page seen [] later = []
resolve_page seen (b ∷ bs) later =
    let b' = resolve_block (seen ++ b ∷ (bs ++ later)) b in
    b' ∷ resolve_page (seen ++ b' ∷ []) bs later

unfoldable pub resolve_pages : Page → List Page → List Page
resolve_pages seen [] = []
resolve_pages seen (page ∷ pages) =
    let page' = resolve_page seen page (all_blocks pages) in
    page' ∷ resolve_pages (seen ++ page') pages

unfoldable pub merge_tables_across_pages : Floats → List Page → List Page
merge_tables_across_pages fl pages = resolve_pages [] (merge_pages fl (number_pages 0 pages))
