-- ===== src/Docassembly/TitleLevel/Levels.antt =====
-- `assign_title_levels` of src/docassembly/title_level.cpp.
use turbo_ocr.Common.{
  Floats, ℕ, suc, ◌+◌, Bool, true, false, not, ◌||◌, ◌&&◌, List, [], ◌∷◌, ◌++◌, map, ltb,
  if◌then◌else◌, Bytes, codes, bytes_eq, ℤ, pos, ◌+ℤ◌, ◌-ℤ◌, leb_ℤ, ltb_ℤ, eq_ℤ,
}
use turbo_ocr.Docassembly.TableMerge.Match.{ParsingBlock}
use turbo_ocr.Docassembly.TableMerge.Pages.{Page, all_blocks}
use turbo_ocr.Docassembly.TitleLevel.Symbols.{get_symbol_and_level}
use turbo_ocr.Docassembly.TitleLevel.Keywords.{is_special}
use turbo_ocr.Docassembly.TitleLevel.Heights.{
  get_title_height, level_of_height, cluster_global_heights,
}

pub record Entry : Type 0 where
  pub content : Bytes
  pub height : ℤ
  pub symbol : Bytes
  pub level : ℤ

abbrev pub is_title : ParsingBlock → Bool
is_title b = bytes_eq b.label (codes "paragraph_title")

-- `block.page_index = pi`
unfoldable pub index_page : ℕ → Page → Page
index_page pi [] = []
index_page pi (b ∷ bs) = record b { page_index = pos pi } ∷ index_page pi bs

unfoldable pub index_pages : ℕ → List Page → List Page
index_pages pi [] = []
index_pages pi (page ∷ pages) = index_page pi page ∷ index_pages (suc pi) pages

-- The place of a style in the order in which styles come up, from 1 on; 0 where it does not.
unfoldable pub global_seq : ℕ → List Bytes → Bytes → ℕ
global_seq counter [] symbol = 0
global_seq counter (s ∷ seen) symbol =
    let later = global_seq (suc counter) seen symbol in if bytes_eq s symbol then counter else later

unfoldable pub is_known : Bytes → List Bytes → Bool
is_known symbol [] = false
is_known symbol (s ∷ seen) = bytes_eq s symbol || is_known symbol seen

-- The styles of numbered headings, each once, as they come up.
unfoldable pub styles : List Bytes → List Entry → List Bytes
styles seen [] = seen
styles seen (e ∷ es) =
    styles (if leb_ℤ e.level (pos 0) || is_known e.symbol seen then seen else seen ++ e.symbol ∷ [])
      es

-- `tally[v]` of the three votes.
abbrev pub tally : ℤ → ℤ → ℤ → ℤ → ℕ
tally v a b c =
    (if eq_ℤ a v then 1 else 0) + ((if eq_ℤ b v then 1 else 0) + (if eq_ℤ c v then 1 else 0))

-- One vote against the mode so far.
abbrev pub better_mode : ℤ → ℕ → ℤ × ℕ → ℤ × ℕ
better_mode v cnt (mode, mode_cnt) = if ltb mode_cnt cnt then (v, cnt) else (mode, mode_cnt)

unfoldable pub vote : ℤ → ℤ → ℤ → ℤ
vote semantic relative cluster =
    let count = λ (v : ℤ). tally v semantic relative cluster in
    let (mode, mode_cnt) =
      better_mode cluster (count cluster) (
        better_mode relative (count relative) (better_mode semantic (count semantic) (pos 0, 0))) in
    if ltb 1 mode_cnt then mode else relative

abbrev pub is_num_list : Entry → Bool
is_num_list e = bytes_eq e.symbol (codes "NUM_LIST")

-- `relative_order_level`, by the level of the first plain number (0: none yet).
abbrev pub relative_order_level : List Bytes → ℤ → Entry → ℤ
relative_order_level seen first e =
    let seq = pos (global_seq 1 seen e.symbol) in
    if is_num_list e && not (eq_ℤ first (pos 0)) then seq +ℤ (e.level -ℤ first) else seq

abbrev pub next_first : ℤ → Entry → ℤ
next_first first e =
    if not (leb_ℤ e.level (pos 0)) && (is_num_list e && eq_ℤ first (pos 0)) then e.level else first

abbrev pub clamp_level : ℤ → ℤ
clamp_level level =
    if ltb_ℤ level (pos 1) then pos 1 else if ltb_ℤ (pos 6) level then pos 6 else level

-- The level of one heading, and the level that it gets.
unfoldable pub level_by_bucket : List Bytes → List (ℤ × ℕ) → ℤ → Entry → ℤ
level_by_bucket seen clusters first e =
    let cluster_level = pos (level_of_height e.height clusters) in
    if leb_ℤ e.level (pos 0)
    then if is_special e.content then pos 1 else cluster_level
    else vote e.level (relative_order_level seen first e) cluster_level

unfoldable pub final_level : List Bytes → List (ℤ × ℕ) → ℤ → Entry → ℤ
final_level seen clusters first e = clamp_level (level_by_bucket seen clusters first e)

-- The loop over the headings.
unfoldable pub final_levels : List Bytes → List (ℤ × ℕ) → ℤ → List Entry → List ℤ
final_levels seen clusters first [] = []
final_levels seen clusters first (e ∷ es) =
    final_level seen clusters first e ∷ final_levels seen clusters (next_first first e) es

-- `e.block->title_level`: the headings of a page take their levels in order; the levels left are the
-- result too.
abbrev pub write_level : Bool → ParsingBlock → List ℤ → ParsingBlock × List ℤ
write_level true b (level ∷ levels) = (record b { title_level = level }, levels)
write_level true b [] = (b, [])
write_level false b levels = (b, levels)

unfoldable pub write_page : Page → List ℤ → Page × List ℤ
write_page [] levels = ([], levels)
write_page (b ∷ bs) levels =
    let (b', left) = write_level (is_title b) b levels in
    let (bs', rest) = write_page bs left in (b' ∷ bs', rest)

unfoldable pub write_pages : List Page → List ℤ → List Page
write_pages [] levels = []
write_pages (page ∷ pages) levels =
    let (page', left) = write_page page levels in page' ∷ write_pages pages left

module _ (fl : Floats) where
  abbrev pub entry_of_block : ParsingBlock → Entry
  entry_of_block b = record {
    content = b.content;
    height = get_title_height fl b;
    symbol = (get_symbol_and_level b.content).symbol;
    level = (get_symbol_and_level b.content).level;
  }

  unfoldable pub entries : Page → List Entry
  entries [] = []
  entries (b ∷ bs) = let rest = entries bs in if is_title b then entry_of_block b ∷ rest else rest

module _ (fl : Floats) (lround : fl.F → ℕ) (sort : (ℕ → ℕ → Bool) → List ℕ → List ℕ) where
  abbrev pub levels_of : List Entry → List ℤ
  levels_of es =
      final_levels (styles [] es)
        (cluster_global_heights fl lround sort (map (λ (e : Entry). e.height) es)) (pos 0) es

  unfoldable pub assign_title_levels : List Page → List Page
  assign_title_levels blocks_by_page =
      let pages = index_pages 0 blocks_by_page in
      write_pages pages (levels_of (entries fl (all_blocks pages)))
