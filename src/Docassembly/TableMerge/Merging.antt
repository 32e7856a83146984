-- ===== src/Docassembly/TableMerge/Merging.antt =====
-- Numbering the blocks, and merging tables page by page, keep ids and groups in order.
use turbo_ocr.Common.{
  Floats, ℕ, suc, ◌+◌, ◌≡◌, refl, ap, subst, Option, none, some, List, [], ◌∷◌, arith, length,
  length-set, get_elem?, All, All-get, codes, bytes_eq_iff, Bool-cases, inl, inr,
}
use turbo_ocr.Docassembly.TableMerge.Match.{ParsingBlock, can_merge_tables}
use turbo_ocr.Docassembly.TableMerge.Pages.{
  Page, number_page, number_pages, is_table_block, or_later, here_if, first_table, last_table, host,
  folded, merge_at, merge_pair, merge_front, merge_pages,
}
use turbo_ocr.Docassembly.TableMerge.Blocks.{
  KeepsPage, KeepsPages, KeepsPage-refl, KeepsPage-trans, KeepsPages-trans, set-KeepsPage, Numbered,
  NumberedPages, Grouped, Numbered-get, set-Numbered, set-All,
}

-- Where a table was found.
abbrev IsTableAt : Page → ℕ → ParsingBlock → Type 0
IsTableAt page i b = (get_elem? page i ≡ some b) × (b.label ≡ codes "table")

abbrev IsFound : ℕ → Page → Option (ℕ × ParsingBlock) → Type 0
IsFound j page none = Unit {0}
IsFound j page (some (i, b)) = (k : ℕ) × (i ≡ j + k) × IsTableAt page k b

IsFound-behind :
    (j : ℕ) (x : ParsingBlock) (page : Page) (o : Option (ℕ × ParsingBlock))
    → IsFound (suc j) page o
    → IsFound j (x ∷ page) o
IsFound-behind j x page none h = tt
IsFound-behind j x page (some (i, b)) (k, at_k, there) = (suc k, omega (arith, at_k), there)

here_if-IsFound :
    (j : ℕ) (x : ParsingBlock) (page : Page) → IsFound j (x ∷ page) (here_if (is_table_block x) j x)
here_if-IsFound j x page = elim (Bool-cases (is_table_block x)) [
  | inl table ↦ rw table (0, omega arith, (refl, (bytes_eq_iff x.label (codes "table")).0 table))
  | inr other ↦ rw other tt
]

or_later-IsFound :
    (j : ℕ) (page : Page) (o p : Option (ℕ × ParsingBlock))
    → IsFound j page o
    → IsFound j page p
    → IsFound j page (or_later o p)
or_later-IsFound j page (some found) p h k = h
or_later-IsFound j page none p h k = k

first_table-IsFound : (j : ℕ) (page : Page) → IsFound j page (first_table j page)
unfolding first_table
first_table-IsFound j [] = tt
first_table-IsFound j (x ∷ xs) =
    or_later-IsFound j (x ∷ xs) _ _ (here_if-IsFound j x xs)
      (IsFound-behind j x xs _ (first_table-IsFound (suc j) xs))

last_table-IsFound : (j : ℕ) (page : Page) → IsFound j page (last_table j page)
unfolding last_table
last_table-IsFound j [] = tt
last_table-IsFound j (x ∷ xs) =
    or_later-IsFound j (x ∷ xs) _ _ (IsFound-behind j x xs _ (last_table-IsFound (suc j) xs))
      (here_if-IsFound j x xs)

-- A page that was written to, at the same place in the document.
abbrev IsUpdate : ℕ → Page → Page → Type 0
IsUpdate k page page' =
    KeepsPage page page' × Numbered k page' × All Grouped page' × (length page' ≡ length page)

unchanged : (k : ℕ) (page : Page) → Numbered k page → All Grouped page → IsUpdate k page page
unchanged k page n g = (KeepsPage-refl page, n, g, refl)

abbrev IsAlone : ParsingBlock → Type 0
IsAlone b = b.global_group_id ≡ b.global_block_id

alone-Grouped : (page : Page) → All IsAlone page → All Grouped page
alone-Grouped [] h = tt
alone-Grouped (b ∷ bs) (h, hs) = (inl h, alone-Grouped bs hs)

abbrev IsPairUpdate : ℕ → Page → Page → Page × Page → Type 0
IsPairUpdate k p q (p', q') = IsUpdate k p p' × IsUpdate (k + length p) q q'

module _ (fl : Floats) (k : ℕ) (p q : Page) where
  merge_at-IsUpdate :
      (o r : Option (ℕ × ParsingBlock))
      → IsFound 0 p o
      → IsFound 0 q r
      → Numbered k p
      → All IsAlone p
      → Numbered (k + length p) q
      → All Grouped q
      → IsPairUpdate k p q (merge_at fl p o q r)
  unfolding merge_at
  merge_at-IsUpdate none none h g np gp nq gq =
      (unchanged k p np (alone-Grouped p gp), unchanged _ q nq gq)
  merge_at-IsUpdate none (some found) h g np gp nq gq =
      (unchanged k p np (alone-Grouped p gp), unchanged _ q nq gq)
  merge_at-IsUpdate (some found) none h g np gp nq gq =
      (unchanged k p np (alone-Grouped p gp), unchanged _ q nq gq)
  merge_at-IsUpdate (some (i, prev)) (some (j, curr)) (i', i_lem, (there_i, table_i))
        (j', j_lem, (there_j, table_j)) np gp nq gq =
      elim (Bool-cases (can_merge_tables fl p i prev q j curr)) [
        | inl merged ↦
            let i_same : i' ≡ i = omega (arith, i_lem) in
            let j_same : j' ≡ j = omega (arith, j_lem) in
            let at_i : get_elem? p i ≡ some prev =
              subst (λ n. get_elem? p n ≡ some prev) i_same there_i in
            let at_j : get_elem? q j ≡ some curr =
              subst (λ n. get_elem? q n ≡ some curr) j_same there_j in
            let (prev_id, within) = Numbered-get p k i np at_i in
            let (curr_id, _) = Numbered-get q (k + length p) j nq at_j in
            rw merged (
              (
                set-KeepsPage p i (host prev curr) at_i (refl, refl, refl, refl, inr table_i),
                set-Numbered p k i (host prev curr) prev_id np,
                set-All p i (host prev curr) (inl (All-get IsAlone p i gp at_i))
                    (alone-Grouped p gp),
                length-set p i (host prev curr),
              ),
              (
                set-KeepsPage q j (folded prev curr) at_j (refl, refl, refl, refl, inr table_j),
                set-Numbered q (k + length p) j (folded prev curr) curr_id nq,
                set-All q j (folded prev curr)
                    (inr (omega (arith, prev_id, within, curr_id), refl, table_j)) gq,
                length-set q j (folded prev curr),
              ),
            )
        | inr apart ↦ rw apart (unchanged k p np (alone-Grouped p gp), unchanged _ q nq gq)
      ]

-- Pages that were written to, at the same place in the document.
abbrev pub IsDocumentUpdate : ℕ → List Page → List Page → Type 0
IsDocumentUpdate k pages pages' =
    KeepsPages pages pages' × NumberedPages k pages' × All (All Grouped) pages'

merge_front-IsUpdate :
    (fl : Floats) (k : ℕ) (page : Page) (pages pages' : List Page)
    → Numbered k page
    → All IsAlone page
    → IsDocumentUpdate (k + length page) pages pages'
    → IsDocumentUpdate k (page ∷ pages) (merge_front fl page pages')
merge_front-IsUpdate fl k page [] [] n alone u =
    ((KeepsPage-refl page, tt), (n, tt), (alone-Grouped page alone, tt))
merge_front-IsUpdate fl k page [] (q ∷ qs) n alone (keeps, _, _) = absurd keeps
merge_front-IsUpdate fl k page (p ∷ ps) [] n alone (keeps, _, _) = absurd keeps
merge_front-IsUpdate fl k page (p ∷ ps) (q ∷ qs) n alone ((keeps, rest), (nq, nqs), (gq, gqs)) =
    let ((keeps_p, np', gp', len_p), (keeps_q, nq', gq', len_q)) =
      merge_at-IsUpdate fl k page q (last_table 0 page) (first_table 0 q)
        (last_table-IsFound 0 page) (first_table-IsFound 0 q) n alone nq gq in
    let (page', q') = merge_pair fl page q in
    (
      (keeps_p, (KeepsPage-trans p q q' keeps keeps_q, rest)),
      (
        np',
        (
          subst (λ m. Numbered m q') (omega (arith, len_p)) nq',
          subst (λ m. NumberedPages m qs) (omega (arith, len_p, len_q)) nqs,
        ),
      ),
      (gp', (gq', gqs)),
    )

merge_pages-IsUpdate :
    (fl : Floats) (k : ℕ) (pages : List Page)
    → NumberedPages k pages
    → All (All IsAlone) pages
    → IsDocumentUpdate k pages (merge_pages fl pages)
unfolding merge_pages
merge_pages-IsUpdate fl k [] n alone = (tt, tt, tt)
merge_pages-IsUpdate fl k (page ∷ pages) (n, ns) (alone, rest) =
    merge_front-IsUpdate fl k page pages (merge_pages fl pages) n alone
      (merge_pages-IsUpdate fl (k + length page) pages ns rest)

abbrev IsNumbered : ℕ → Page → Page → Type 0
IsNumbered k page page' =
    KeepsPage page page' × Numbered k page' × All IsAlone page' × (length page' ≡ length page)

number_page-IsNumbered : (k : ℕ) (page : Page) → IsNumbered k page (number_page k page)
unfolding number_page
number_page-IsNumbered k [] = (tt, tt, tt, refl)
number_page-IsNumbered k (b ∷ bs) =
    let (keeps, n, alone, len) = number_page-IsNumbered (suc k) bs in
    (((refl, refl, refl, refl, inl refl), keeps), (refl, n), (refl, alone), ap suc len)

number_pages-IsNumbered :
    (k : ℕ) (pages : List Page)
    → let pages' = number_pages k pages in
      KeepsPages pages pages' × NumberedPages k pages' × All (All IsAlone) pages'
unfolding number_pages
number_pages-IsNumbered k [] = (tt, tt, tt)
number_pages-IsNumbered k (page ∷ pages) =
    let (keeps, n, alone, len) = number_page-IsNumbered k page in
    let (keeps', ns, alones) = number_pages-IsNumbered (k + length page) pages in
    (
      (keeps, keeps'),
      (
        n,
        subst (λ m. NumberedPages m (number_pages (k + length page) pages)) (omega (arith, len)) ns,
      ),
      (alone, alones),
    )

pub merged-IsUpdate :
    (fl : Floats) (pages : List Page)
    → IsDocumentUpdate 0 pages (merge_pages fl (number_pages 0 pages))
merged-IsUpdate fl pages =
    let (keeps, ns, alones) = number_pages-IsNumbered 0 pages in
    let (keeps', ns', groups) = merge_pages-IsUpdate fl 0 (number_pages 0 pages) ns alones in
    (KeepsPages-trans pages (number_pages 0 pages) _ keeps keeps', ns', groups)
