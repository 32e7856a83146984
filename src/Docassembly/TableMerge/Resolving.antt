-- ===== src/Docassembly/TableMerge/Resolving.antt =====
-- After the last pass every block names the block that it is part of, in one hop.
use turbo_ocr.Common.{
  Floats, ℕ, zero, suc, ◌≤◌, ◌<◌, ◌≡◌, refl, sym, ap, subst, ◌∙◌, false, some, List, [], ◌∷◌, ◌++◌,
  append-nil, append_assoc, arith, ◌==◌, ==_iff, length, length-append, get_elem?, get_elem?_of_lt,
  All, All-append, All-get, inl, inr,
}
use turbo_ocr.Docassembly.TableMerge.Match.{ParsingBlock}
use turbo_ocr.Docassembly.TableMerge.Pages.{
  Page, all_blocks, number_pages, merge_pages, resolve_block, resolve_page, resolve_pages,
  merge_tables_across_pages,
}
use turbo_ocr.Docassembly.TableMerge.Blocks.{
  Keeps, KeepsPage, KeepsPages, KeepsPages-trans, Numbered, NumberedPages, Grouped, Numbered-append,
  Numbered-get,
}
use turbo_ocr.Docassembly.TableMerge.Merging.{merged-IsUpdate}

-- A block's group is a block that is its own group.
abbrev pub HasHost : Page → ParsingBlock → Type 0
HasHost blocks b =
    (h : ParsingBlock) × (get_elem? blocks b.global_group_id ≡ some h)
    × (h.global_group_id ≡ b.global_group_id)

get-append :
    (xs ys : Page) (i : ℕ) {b : ParsingBlock}
    → get_elem? xs i ≡ some b
    → get_elem? (xs ++ ys) i ≡ some b
get-append [] ys i e = absurd (cc)
get-append (x ∷ xs) ys zero e = e
get-append (x ∷ xs) ys (suc i) e = get-append xs ys i e

get-here :
    (xs : Page) (b : ParsingBlock) (ys : Page) → get_elem? (xs ++ b ∷ ys) (length xs) ≡ some b
get-here [] b ys = refl
get-here (x ∷ xs) b ys = get-here xs b ys

hosts-append : (blocks ys bs : Page) → All (HasHost blocks) bs → All (HasHost (blocks ++ ys)) bs
hosts-append blocks ys [] h = tt
hosts-append blocks ys (b ∷ bs) ((host, there, own), rest) =
    ((host, get-append blocks ys b.global_group_id there, own), hosts-append blocks ys bs rest)

-- Blocks that are done.
abbrev pub IsSettled : Page → Type 0
IsSettled blocks = Numbered 0 blocks × All (HasHost blocks) blocks × All Grouped blocks

Grouped-le : (b : ParsingBlock) → Grouped b → b.global_group_id ≤ b.global_block_id
Grouped-le b (inl alone) = omega (arith, alone)
Grouped-le b (inr (before, empty, table)) = omega (arith, before)

-- One more block.
settle_one :
    (seen later : Page) (b : ParsingBlock)
    → IsSettled seen
    → b.global_block_id ≡ length seen
    → Grouped b
    → IsSettled (seen ++ resolve_block (seen ++ b ∷ later) b ∷ [])
settle_one seen later b (n, hosts, groups) id (inl alone) =
    let b' = resolve_block (seen ++ b ∷ later) b in
    let group : b'.global_group_id ≡ b.global_group_id =
      rw (alone, (==_iff b.global_block_id b.global_block_id).1 refl) in
    (
      Numbered-append seen (b' ∷ []) 0 n (omega (arith, id), tt),
      All-append (HasHost (seen ++ b' ∷ [])) seen (b' ∷ []) (hosts-append seen (b' ∷ []) seen hosts)
          (
            (
              b',
              subst (λ g. get_elem? (seen ++ b' ∷ []) g ≡ some b') (sym (group ∙ alone ∙ id))
                  (get-here seen b' []),
              refl,
            ),
            tt,
          ),
      All-append Grouped seen (b' ∷ []) groups (inl (group ∙ alone), tt),
    )
settle_one seen later b (n, hosts, groups) id (inr (before, empty, table)) =
    let b' = resolve_block (seen ++ b ∷ later) b in
    let (h, there) = get_elem?_of_lt seen b.global_group_id (omega (arith, before, id)) in
    let (root, at_root, own) = All-get (HasHost seen) seen b.global_group_id hosts there in
    let other : (b.global_block_id == b.global_group_id) ≡ false = ground (arith, before) in
    let (h_id, _) = Numbered-get seen 0 b.global_group_id n there in
    let earlier : h.global_group_id < b.global_block_id =
      omega
        (arith, Grouped-le h (All-get Grouped seen b.global_group_id groups there), h_id, before) in
    let group : b'.global_group_id ≡ h.global_group_id =
      rw other (rw (get-append seen (b ∷ later) b.global_group_id there) refl) in
    (
      Numbered-append seen (b' ∷ []) 0 n (omega (arith, id), tt),
      All-append (HasHost (seen ++ b' ∷ [])) seen (b' ∷ []) (hosts-append seen (b' ∷ []) seen hosts)
          (
            (
              root,
              subst (λ g. get_elem? (seen ++ b' ∷ []) g ≡ some root) (sym group)
                  (get-append seen (b' ∷ []) h.global_group_id at_root),
              own ∙ sym group,
            ),
            tt,
          ),
      All-append Grouped seen (b' ∷ []) groups
          (inr (subst (λ g. g < b.global_block_id) (sym group) earlier, empty, table), tt),
    )

resolve_page-IsSettled :
    (seen page later : Page)
    → IsSettled seen
    → Numbered (length seen) page
    → All Grouped page
    → IsSettled (seen ++ resolve_page seen page later)
unfolding resolve_page
resolve_page-IsSettled seen [] later done n g = subst IsSettled (sym (append-nil seen)) done
resolve_page-IsSettled seen (b ∷ bs) later done (id, ns) (g, gs) =
    let b' = resolve_block (seen ++ b ∷ (bs ++ later)) b in
    subst IsSettled (append_assoc seen (b' ∷ []) (resolve_page (seen ++ b' ∷ []) bs later)) (
      resolve_page-IsSettled (seen ++ b' ∷ []) bs later (settle_one seen (bs ++ later) b done id g)
        (subst (λ k. Numbered k bs) (omega (arith, length-append seen (b' ∷ []))) ns) gs)

resolve_block-Keeps : (blocks : Page) (b : ParsingBlock) → Keeps b (resolve_block blocks b)
resolve_block-Keeps blocks b = (refl, refl, refl, refl, inl refl)

resolve_page-Keeps :
    (seen page later : Page)
    → KeepsPage page (resolve_page seen page later)
      × (length (resolve_page seen page later) ≡ length page)
unfolding resolve_page
resolve_page-Keeps seen [] later = (tt, refl)
resolve_page-Keeps seen (b ∷ bs) later =
    let b' = resolve_block (seen ++ b ∷ (bs ++ later)) b in
    let (keeps, len) = resolve_page-Keeps (seen ++ b' ∷ []) bs later in
    ((resolve_block-Keeps (seen ++ b ∷ (bs ++ later)) b, keeps), ap suc len)

resolve_pages-Keeps :
    (seen : Page) (pages : List Page) → KeepsPages pages (resolve_pages seen pages)
unfolding resolve_pages
resolve_pages-Keeps seen [] = tt
resolve_pages-Keeps seen (page ∷ pages) = (
  (resolve_page-Keeps seen page (all_blocks pages)).0,
  resolve_pages-Keeps (seen ++ resolve_page seen page (all_blocks pages)) pages,
)

resolve_pages-IsSettled :
    (seen : Page) (pages : List Page)
    → IsSettled seen
    → NumberedPages (length seen) pages
    → All (All Grouped) pages
    → IsSettled (seen ++ all_blocks (resolve_pages seen pages))
unfolding resolve_pages
resolve_pages-IsSettled seen [] done n g = subst IsSettled (sym (append-nil seen)) done
resolve_pages-IsSettled seen (page ∷ pages) done (n, ns) (g, gs) =
    let page' = resolve_page seen page (all_blocks pages) in
    let (_, len) = resolve_page-Keeps seen page (all_blocks pages) in
    subst IsSettled (append_assoc seen page' (all_blocks (resolve_pages (seen ++ page') pages))) (
      resolve_pages-IsSettled (seen ++ page') pages
        (resolve_page-IsSettled seen page (all_blocks pages) done n g)
        (subst (λ k. NumberedPages k pages) (omega (arith, length-append seen page', len)) ns) gs)

-- However the widths compare: no block is lost or moved, and only tables get new content; ids count the
-- blocks of the document; the group of a block is a block that is its own group, so that one hop
-- leads to the host of a table of any length; and a block whose group is another is an empty table behind
-- it.
pub merge_tables_across_pages-IsSettled :
    (fl : Floats) (pages : List Page)
    → let out = merge_tables_across_pages fl pages in
      KeepsPages pages out × IsSettled (all_blocks out)
unfolding merge_tables_across_pages
merge_tables_across_pages-IsSettled fl pages =
    let merged = merge_pages fl (number_pages 0 pages) in
    let (keeps, n, g) = merged-IsUpdate fl pages in
    (
      KeepsPages-trans pages merged (resolve_pages [] merged) keeps (resolve_pages-Keeps [] merged),
      resolve_pages-IsSettled [] merged (tt, tt, tt) n g,
    )
