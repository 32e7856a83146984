-- ===== src/Docassembly/TableMerge/Blocks.antt =====
-- Ids, groups and contents of blocks, and what writing one block of a page keeps of them.
use mathlib.Core.Option.{some-injective}
use turbo_ocr.Common.{
  ℕ, zero, suc, ◌+◌, ◌<◌, ◌≡◌, ◌⊎◌, refl, sym, ap, subst, ◌∙◌, some, List, [], ◌∷◌, ◌++◌, arith,
  length, get_elem?, set, All, codes, inl, inr,
}
use turbo_ocr.Docassembly.TableMerge.Match.{ParsingBlock}
use turbo_ocr.Docassembly.TableMerge.Pages.{Page}

-- What a merge may do to a block: new content for a table, and new ids.
abbrev pub Keeps : ParsingBlock → ParsingBlock → Type 0
Keeps b c =
    (c.label ≡ b.label)
    × (c.bbox ≡ b.bbox)
    × (c.page_index ≡ b.page_index)
    × (c.title_level ≡ b.title_level)
    × ((c.content ≡ b.content) ⊎ (b.label ≡ codes "table"))

-- Block by block, and page by page.
abbrev pub KeepsPage : Page → Page → Type 0
KeepsPage [] [] = Unit {0}
KeepsPage (b ∷ bs) (c ∷ cs) = Keeps b c × KeepsPage bs cs
KeepsPage _ _ = ⊥

abbrev pub KeepsPages : List Page → List Page → Type 0
KeepsPages [] [] = Unit {0}
KeepsPages (p ∷ ps) (q ∷ qs) = KeepsPage p q × KeepsPages ps qs
KeepsPages _ _ = ⊥

pub Keeps-refl : (b : ParsingBlock) → Keeps b b
Keeps-refl b = (refl, refl, refl, refl, inl refl)

Keeps-trans : (b c d : ParsingBlock) → Keeps b c → Keeps c d → Keeps b d
Keeps-trans b c d (l, x, p, t, inl same) (l', x', p', t', inl same') =
    (l' ∙ l, x' ∙ x, p' ∙ p, t' ∙ t, inl (same' ∙ same))
Keeps-trans b c d (l, x, p, t, inl same) (l', x', p', t', inr table) =
    (l' ∙ l, x' ∙ x, p' ∙ p, t' ∙ t, inr (sym l ∙ table))
Keeps-trans b c d (l, x, p, t, inr table) (l', x', p', t', _) =
    (l' ∙ l, x' ∙ x, p' ∙ p, t' ∙ t, inr table)

pub KeepsPage-refl : (p : Page) → KeepsPage p p
KeepsPage-refl [] = tt
KeepsPage-refl (b ∷ bs) = (Keeps-refl b, KeepsPage-refl bs)

pub KeepsPage-trans : (p q r : Page) → KeepsPage p q → KeepsPage q r → KeepsPage p r
KeepsPage-trans [] [] [] h k = tt
KeepsPage-trans [] [] (d ∷ ds) h k = k
KeepsPage-trans [] (c ∷ cs) r h k = absurd h
KeepsPage-trans (b ∷ bs) [] r h k = absurd h
KeepsPage-trans (b ∷ bs) (c ∷ cs) [] h k = k
KeepsPage-trans (b ∷ bs) (c ∷ cs) (d ∷ ds) (h, hs) (k, ks) =
    (Keeps-trans b c d h k, KeepsPage-trans bs cs ds hs ks)

pub KeepsPages-trans : (p q r : List Page) → KeepsPages p q → KeepsPages q r → KeepsPages p r
KeepsPages-trans [] [] [] h k = tt
KeepsPages-trans [] [] (d ∷ ds) h k = k
KeepsPages-trans [] (c ∷ cs) r h k = absurd h
KeepsPages-trans (b ∷ bs) [] r h k = absurd h
KeepsPages-trans (b ∷ bs) (c ∷ cs) [] h k = k
KeepsPages-trans (b ∷ bs) (c ∷ cs) (d ∷ ds) (h, hs) (k, ks) =
    (KeepsPage-trans b c d h k, KeepsPages-trans bs cs ds hs ks)

pub set-KeepsPage :
    (page : Page) (i : ℕ) (c : ParsingBlock) {b : ParsingBlock}
    → get_elem? page i ≡ some b
    → Keeps b c
    → KeepsPage page (set page i c)
set-KeepsPage [] i c e k = tt
set-KeepsPage (x ∷ xs) zero c e k =
    (subst (λ y. Keeps y c) (sym (some-injective _ _ e)) k, KeepsPage-refl xs)
set-KeepsPage (x ∷ xs) (suc i) c e k = (Keeps-refl x, set-KeepsPage xs i c e k)

-- The ids of a page count up from `k`.
abbrev pub Numbered : ℕ → Page → Type 0
Numbered k [] = Unit {0}
Numbered k (b ∷ bs) = (b.global_block_id ≡ k) × Numbered (suc k) bs

abbrev pub NumberedPages : ℕ → List Page → Type 0
NumberedPages k [] = Unit {0}
NumberedPages k (p ∷ ps) = Numbered k p × NumberedPages (k + length p) ps

-- A block stands alone, or is an empty table that was folded into an earlier block.
abbrev pub Grouped : ParsingBlock → Type 0
Grouped b =
    (b.global_group_id ≡ b.global_block_id)
    ⊎ ((b.global_group_id < b.global_block_id) × (b.content ≡ []) × (b.label ≡ codes "table"))

pub Numbered-append :
    (xs ys : Page) (k : ℕ) → Numbered k xs → Numbered (k + length xs) ys → Numbered k (xs ++ ys)
Numbered-append [] ys k h g = subst (λ n. Numbered n ys) (omega arith) g
Numbered-append (x ∷ xs) ys k (h, hs) g =
    (h, Numbered-append xs ys (suc k) hs (subst (λ n. Numbered n ys) (omega arith) g))

pub Numbered-get :
    (page : Page) (k i : ℕ) {b : ParsingBlock}
    → Numbered k page
    → get_elem? page i ≡ some b
    → (b.global_block_id ≡ k + i) × (i < length page)
Numbered-get [] k i h e = absurd (cc)
Numbered-get (x ∷ xs) k zero {b} (h, hs) e = (
  ap (λ (y : ParsingBlock). y.global_block_id) (sym (some-injective _ _ e)) ∙ h ∙ omega arith,
  omega arith,
)
Numbered-get (x ∷ xs) k (suc i) (h, hs) e =
    let (id, within) = Numbered-get xs (suc k) i hs e in (omega (arith, id), omega (arith, within))

pub set-Numbered :
    (page : Page) (k i : ℕ) (c : ParsingBlock)
    → c.global_block_id ≡ k + i
    → Numbered k page
    → Numbered k (set page i c)
set-Numbered [] k i c e h = tt
set-Numbered (x ∷ xs) k zero c e (h, hs) = (omega (arith, e), hs)
set-Numbered (x ∷ xs) k (suc i) c e (h, hs) = (h, set-Numbered xs (suc k) i c (omega (arith, e)) hs)

pub set-All :
    (page : Page) (i : ℕ) (c : ParsingBlock)
    → Grouped c
    → All Grouped page
    → All Grouped (set page i c)
set-All [] i c g h = tt
set-All (x ∷ xs) zero c g (h, hs) = (g, hs)
set-All (x ∷ xs) (suc i) c g (h, hs) = (h, set-All xs i c g hs)
