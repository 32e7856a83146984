-- ===== src/Otsl/Splitting.antt =====
-- Splitting into rows loses no cell.
use turbo_ocr.Common.{
  ◌≡◌, ◌≢◌, refl, ap, ◌∙◌, true, false, List, [], ◌∷◌, ◌++◌, append_assoc, All, Bool-cases, inl,
  inr,
}
use turbo_ocr.Otsl.Tokens.{OtslElement}
use turbo_ocr.Otsl.Rows.{Row, is_nl, keep_row, split_rows_from, split_rows}

abbrev pub concat_rows : List Row → Row
concat_rows [] = []
concat_rows (r ∷ rs) = r ++ concat_rows rs

-- The elements that are no row break.
abbrev pub cells_of : List OtslElement → Row
cells_of [] = []
cells_of (e ∷ es) = elim (is_nl e.tok) [ true ↦ cells_of es | false ↦ e ∷ cells_of es ]

concat_rows-keep_row :
    (cur : Row) (rows : List Row) → concat_rows (keep_row cur rows) ≡ cur ++ concat_rows rows
concat_rows-keep_row [] rows = refl
concat_rows-keep_row (e ∷ es) rows = refl

concat_rows-split_rows_from :
    (es : List OtslElement) (cur : Row) → concat_rows (split_rows_from cur es) ≡ cur ++ cells_of es
unfolding split_rows_from
concat_rows-split_rows_from [] cur = concat_rows-keep_row cur []
concat_rows-split_rows_from (e ∷ es) cur = elim (Bool-cases (is_nl e.tok)) [
  | inl h ↦
      rw (h, split_rows_from, cells_of)
        (concat_rows-keep_row cur _ ∙ ap (◌++◌ cur) (concat_rows-split_rows_from es []))
  | inr h ↦
      rw (h, split_rows_from, cells_of)
        (concat_rows-split_rows_from es (cur ++ e ∷ []) ∙ append_assoc cur (e ∷ []) (cells_of es))
]

-- A row that was split off has a cell.
abbrev pub IsFilled : Row → Type 0
IsFilled r = r ≢ []

keep_row-IsFilled :
    (cur : Row) (rows : List Row) → All IsFilled rows → All IsFilled (keep_row cur rows)
keep_row-IsFilled [] rows h = h
keep_row-IsFilled (e ∷ es) rows h = ((λ z. cc), h)

split_rows_from-IsFilled :
    (es : List OtslElement) (cur : Row) → All IsFilled (split_rows_from cur es)
unfolding split_rows_from
split_rows_from-IsFilled [] cur = keep_row-IsFilled cur [] tt
split_rows_from-IsFilled (e ∷ es) cur = elim (Bool-cases (is_nl e.tok)) [
  | inl h ↦ rw (h, split_rows_from) (keep_row-IsFilled cur _ (split_rows_from-IsFilled es []))
  | inr h ↦ rw (h, split_rows_from) (split_rows_from-IsFilled es (cur ++ e ∷ []))
]

-- The rows, one after the other, are the cells of the element list in their order, with only the row
-- breaks left out, and no row is empty.
split_rows_lem :
    (es : List OtslElement)
    → (concat_rows (split_rows es) ≡ cells_of es) × All IsFilled (split_rows es)
unfolding split_rows
split_rows_lem es = (concat_rows-split_rows_from es [], split_rows_from-IsFilled es [])
