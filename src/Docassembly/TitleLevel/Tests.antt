-- ===== src/Docassembly/TitleLevel/Tests.antt =====
-- The headings of a small document, and the theorem about their levels at it.
use turbo_ocr.Common.{
  Floats, ℕ, ◌≡◌, refl, ◌+◌, ◌-◌, ◌*◌, ◌/◌, Bool, List, [], ◌∷◌, ltb, leb, pos, above, map, diff,
  ◌-ℤ◌, ◌+ℤ◌, Bytes, codes, bytes_eq, is_space, trim, if◌then◌else◌,
}
use turbo_ocr.Docassembly.TableMerge.Match.{ParsingBlock}
use turbo_ocr.Docassembly.TableMerge.Pages.{Page, all_blocks}
use turbo_ocr.Docassembly.TitleLevel.Symbols.{no_symbol, get_symbol_and_level}
use turbo_ocr.Docassembly.TitleLevel.Keywords.{is_special}
use turbo_ocr.Docassembly.TitleLevel.Heights.{
  get_title_height, cluster_global_heights, level_of_height,
}
use turbo_ocr.Docassembly.TitleLevel.Levels.{
  global_seq, is_known, styles, vote, level_by_bucket, final_level, final_levels, index_page,
  index_pages, write_page, write_pages, entries, assign_title_levels,
}
use turbo_ocr.Docassembly.TitleLevel.LevelLaws.{AreLeveled, assign_title_levels-AreLeveled}

bracketed :
    get_symbol_and_level (codes " (2.1) Scope")
    ≡ record { symbol = codes "NUM_LIST_BRACKET"; level = pos 4 }
unfolding get_symbol_and_level trim is_space
bracketed = refl

roman :
    get_symbol_and_level (codes "IV. Results") ≡ record { symbol = codes "ROMAN"; level = pos 1 }
unfolding get_symbol_and_level trim is_space
roman = refl

numbered :
    get_symbol_and_level (codes "1.2.3 Setup") ≡ record { symbol = codes "NUM_LIST"; level = pos 3 }
unfolding get_symbol_and_level trim is_space
numbered = refl

-- A byte of 0 is read as a Roman numeral.
zero_byte : get_symbol_and_level (0 ∷ codes ".") ≡ record { symbol = codes "ROMAN"; level = pos 1 }
unfolding get_symbol_and_level trim is_space
zero_byte = refl

plain : get_symbol_and_level (codes "Introduction") ≡ no_symbol
unfolding get_symbol_and_level trim is_space
plain = refl

-- Two of three votes agree, or none does.
majority : vote (pos 2) (pos 3) (pos 2) ≡ pos 2
unfolding vote
majority = refl

no_majority : vote (pos 2) (pos 3) (pos 1) ≡ pos 3
unfolding vote
no_majority = refl

-- Whole numbers.
abbrev whole_numbers : Floats
whole_numbers = record {
  F = ℕ;
  of_int = above;
  ratio = λ n d. n / d;
  add = λ a b. a + b;
  sub = λ a b. (a - b) + (b - a);
  mul = λ a b. a * b;
  div = λ a b. a / b;
  fabs = λ a. a;
  log1p = λ a. a;
  lt = ltb;
  le = leb;
}

insert_sorted : (ℕ → ℕ → Bool) → ℕ → List ℕ → List ℕ
insert_sorted before x [] = x ∷ []
insert_sorted before x (y ∷ ys) =
    let later = y ∷ insert_sorted before x ys in if before x y then x ∷ y ∷ ys else later

sort_by : (ℕ → ℕ → Bool) → List ℕ → List ℕ
unfolding insert_sorted
sort_by before [] = []
sort_by before (x ∷ xs) = insert_sorted before x (sort_by before xs)

abbrev titled : ℕ → Bytes → ParsingBlock
titled height content = record {
  label = codes "paragraph_title";
  bbox = record { x0 = pos 0; y0 = pos 0; x1 = pos 200; y1 = pos height };
  content = content;
  page_index = pos 0;
  global_block_id = 0;
  global_group_id = 0;
  title_level = pos 0;
}

abbrev document : List Page
document =
    (titled 40 (codes "1 Theory") ∷ titled 20 (codes "1.1 Terms") ∷ [])
    ∷ (titled 40 (codes "2 Practice")
        ∷ titled 20 (codes "Aside")
        ∷ titled 20 (codes "References: ")
        ∷ [])
    ∷ []

leveled :
    map
      (λ (b : ParsingBlock). b.title_level)
      (all_blocks (assign_title_levels whole_numbers (λ n. n) sort_by document))
    ≡ pos 1 ∷ pos 2 ∷ pos 1 ∷ pos 2 ∷ pos 1 ∷ []
unfolding assign_title_levels write_pages write_page index_pages index_page entries final_levels
    final_level level_by_bucket vote styles is_known global_seq level_of_height
    cluster_global_heights get_title_height get_symbol_and_level is_special trim is_space bytes_eq
    diff ◌-ℤ◌ ◌+ℤ◌ sort_by
leveled = refl

assign_title_levels-AreLeveled_example :
    AreLeveled 0 document (assign_title_levels whole_numbers (λ n. n) sort_by document)
assign_title_levels-AreLeveled_example =
    assign_title_levels-AreLeveled whole_numbers (λ n. n) sort_by document
