-- ===== src/Docassembly/TitleLevel/LevelLaws.antt =====
-- What the depth of a heading can be, and that every heading gets its own.
use turbo_ocr.Common.{
  Floats, ℕ, suc, ◌≤◌, ◌≡◌, refl, sym, ap, subst, Bool, true, false, List, [], ◌∷◌, ◌++◌, arith,
  ltb, Bytes, ℤ, pos, negsuc, leb_ℤ, Bool-cases, inl, inr,
}
use turbo_ocr.Docassembly.TableMerge.Match.{ParsingBlock}
use turbo_ocr.Docassembly.TableMerge.Pages.{Page, all_blocks}
use turbo_ocr.Docassembly.TitleLevel.Symbols.{get_symbol_and_level}
use turbo_ocr.Docassembly.TitleLevel.Keywords.{is_special}
use turbo_ocr.Docassembly.TitleLevel.Levels.{
  Entry, is_title, index_page, index_pages, next_first, clamp_level, level_by_bucket, final_level,
  final_levels, write_page, write_pages, entry_of_block, entries, assign_title_levels,
}

-- Neither numbered nor not a keyword.
abbrev pub IsUnnumberedKeyword : Bytes → Type 0
IsUnnumberedKeyword content =
    (leb_ℤ (get_symbol_and_level content).level (pos 0) ≡ true) × (is_special content ≡ true)

-- A depth that Markdown has, and 1 for a keyword without a number.
abbrev pub IsDepth : Bytes → ℤ → Type 0
IsDepth content level =
    ((n : ℕ) × (level ≡ pos n) × (1 ≤ n) × (n ≤ 6)) × (IsUnnumberedKeyword content → level ≡ pos 1)

-- What becomes of a block of page `n`.
abbrev pub IsLeveled : ℕ → ParsingBlock → ParsingBlock → Type 0
IsLeveled n b c =
    (c.label ≡ b.label)
    × (c.bbox ≡ b.bbox)
    × (c.content ≡ b.content)
    × (c.global_block_id ≡ b.global_block_id)
    × (c.global_group_id ≡ b.global_group_id)
    × (c.page_index ≡ pos n)
    × (is_title b ≡ true → IsDepth b.content c.title_level)
    × (is_title b ≡ false → c.title_level ≡ b.title_level)

abbrev pub IsLeveledPage : ℕ → Page → Page → Type 0
IsLeveledPage n [] [] = Unit {0}
IsLeveledPage n (b ∷ bs) (c ∷ cs) = IsLeveled n b c × IsLeveledPage n bs cs
IsLeveledPage n _ _ = ⊥

abbrev pub AreLeveled : ℕ → List Page → List Page → Type 0
AreLeveled n [] [] = Unit {0}
AreLeveled n (p ∷ ps) (q ∷ qs) = IsLeveledPage n p q × AreLeveled (suc n) ps qs
AreLeveled n _ _ = ⊥

clamp_level_range : (z : ℤ) → (n : ℕ) × (clamp_level z ≡ pos n) × (1 ≤ n) × (n ≤ 6)
clamp_level_range (negsuc a) = (1, ground arith, omega arith, omega arith)
clamp_level_range (pos a) = elim (Bool-cases (ltb a 1)) [
  | inl low ↦ (1, ground (arith, low), omega arith, omega arith)
  | inr up ↦ elim (Bool-cases (ltb 6 a)) [
    | inl high ↦ (6, ground (arith, up, high), omega arith, omega arith)
    | inr within ↦ (a, ground (arith, up, within), ground (arith, up), ground (arith, within))
  ]
]

keyword-level :
    (seen : List Bytes) (clusters : List (ℤ × ℕ)) (first : ℤ) (e : Entry)
    → leb_ℤ e.level (pos 0) ≡ true
    → is_special e.content ≡ true
    → level_by_bucket seen clusters first e ≡ pos 1
unfolding level_by_bucket
keyword-level seen clusters first e unnumbered special = rw (unnumbered, special)

final_level-IsDepth :
    (seen : List Bytes) (clusters : List (ℤ × ℕ)) (first : ℤ) (e : Entry)
    → e.level ≡ (get_symbol_and_level e.content).level
    → IsDepth e.content (final_level seen clusters first e)
unfolding final_level
final_level-IsDepth seen clusters first e same = (
  clamp_level_range (level_by_bucket seen clusters first e),
  λ keyword. ap clamp_level (
      keyword-level seen clusters first e (subst (λ l. leb_ℤ l (pos 0) ≡ true) (sym same) keyword.0)
        keyword.1),
)

-- The levels that are left for the headings of some blocks.
data LevelsFor : Page → List ℤ → Type 0 where
  no_block : LevelsFor [] []
  heading :
      {b : ParsingBlock} {bs : Page} {level : ℤ} {levels : List ℤ}
      → is_title b ≡ true
      → IsDepth b.content level
      → LevelsFor bs levels
      → LevelsFor (b ∷ bs) (level ∷ levels)
  other :
      {b : ParsingBlock} {bs : Page} {levels : List ℤ}
      → is_title b ≡ false
      → LevelsFor bs levels
      → LevelsFor (b ∷ bs) levels

-- A block before and after its level is written.
abbrev IsWritten : ParsingBlock → ParsingBlock → Type 0
IsWritten b c = (n : ℕ) → b.page_index ≡ pos n → IsLeveled n b c

abbrev IsWrittenPage : Page → Page → Type 0
IsWrittenPage [] [] = Unit {0}
IsWrittenPage (b ∷ bs) (c ∷ cs) = IsWritten b c × IsWrittenPage bs cs
IsWrittenPage _ _ = ⊥

write_page-IsWritten :
    (page later : Page) (levels : List ℤ)
    → LevelsFor (page ++ later) levels
    → IsWrittenPage page (write_page page levels).0 × LevelsFor later (write_page page levels).1
unfolding write_page
write_page-IsWritten [] later levels h = (tt, h)
write_page-IsWritten (b ∷ bs) later (level ∷ levels) (heading title depth h) =
    let (written, left) = write_page-IsWritten bs later levels h in
    rw title (
      (
        λ n page. (refl, refl, refl, refl, refl, page, (λ _. depth), (λ no_title. absurd (cc))),
        written,
      ),
      left,
    )
write_page-IsWritten (b ∷ bs) later levels (other plain h) =
    let (written, left) = write_page-IsWritten bs later levels h in
    rw plain (
      (
        λ n page. (refl, refl, refl, refl, refl, page, (λ title. absurd (cc)), (λ _. refl)),
        written,
      ),
      left,
    )

indexed_page :
    (n : ℕ) (page page' : Page)
    → IsWrittenPage (index_page n page) page'
    → IsLeveledPage n page page'
unfolding index_page
indexed_page n [] [] h = tt
indexed_page n [] (c ∷ cs) h = absurd h
indexed_page n (b ∷ bs) [] h = absurd h
indexed_page n (b ∷ bs) (c ∷ cs) (h, hs) = (h n refl, indexed_page n bs cs hs)

write_pages-IsWritten :
    (n : ℕ) (pages : List Page) (levels : List ℤ)
    → LevelsFor (all_blocks (index_pages n pages)) levels
    → AreLeveled n pages (write_pages (index_pages n pages) levels)
unfolding write_pages index_pages
write_pages-IsWritten n [] levels h = tt
write_pages-IsWritten n (page ∷ pages) levels h =
    let later = all_blocks (index_pages (suc n) pages) in
    let (written, left) = write_page-IsWritten (index_page n page) later levels h in
    (
      indexed_page n page (write_page (index_page n page) levels).0 written,
      write_pages-IsWritten (suc n) pages (write_page (index_page n page) levels).1 left,
    )

module _ (fl : Floats) (lround : fl.F → ℕ) (sort : (ℕ → ℕ → Bool) → List ℕ → List ℕ) where
  final_levels-LevelsFor :
      (seen : List Bytes) (clusters : List (ℤ × ℕ)) (first : ℤ) (bs : Page)
      → LevelsFor bs (final_levels seen clusters first (entries fl bs))
  unfolding final_levels entries
  final_levels-LevelsFor seen clusters first [] = no_block
  final_levels-LevelsFor seen clusters first (b ∷ bs) = elim (Bool-cases (is_title b)) [
    | inl title ↦ rw title (
        heading title (final_level-IsDepth seen clusters first (entry_of_block fl b) refl)
          (final_levels-LevelsFor seen clusters (next_first first (entry_of_block fl b)) bs))
    | inr plain ↦ rw plain (other plain (final_levels-LevelsFor seen clusters first bs))
  ]

  -- However floats round and `std::sort` sorts: no block is lost or moved, and of a block only its page
  -- index, which becomes the number of its page, and its title level change; a heading gets a level from
  -- 1 to 6, which is 1 when its text is a keyword and has no number, and any other block keeps its own.
  pub assign_title_levels-AreLeveled :
      (pages : List Page) → AreLeveled 0 pages (assign_title_levels fl lround sort pages)
  unfolding assign_title_levels
  assign_title_levels-AreLeveled pages =
      write_pages-IsWritten 0 pages _
        (final_levels-LevelsFor _ _ (pos 0) (all_blocks (index_pages 0 pages)))
