-- ===== src/Otsl/Rows.antt =====
-- `split_rows` and `pad_rows` of src/table/vlm/otsl_html.cpp.
use turbo_ocr.Common.{
  ℕ, ◌-◌, max, Bool, true, false, List, [], ◌∷◌, ◌++◌, map, if◌then◌else◌, length, replicate,
  is_empty,
}
use turbo_ocr.Otsl.Tokens.{OtslTok, ecel, nl, lcel, ucel, xcel, OtslElement}

abbrev pub Row : Type 0
Row = List OtslElement

abbrev pub is_nl : OtslTok → Bool
is_nl nl = true
is_nl _ = false

abbrev pub is_ucel : OtslTok → Bool
is_ucel ucel = true
is_ucel _ = false

abbrev pub is_l : OtslTok → Bool
is_l lcel = true
is_l xcel = true
is_l _ = false

abbrev pub is_u : OtslTok → Bool
is_u ucel = true
is_u xcel = true
is_u _ = false

-- A row is kept if it has a cell.
abbrev pub keep_row : Row → List Row → List Row
keep_row cur rows = if is_empty cur then rows else cur ∷ rows

-- The loop over the elements, with `cur` the row so far.
unfoldable pub split_rows_from : Row → List OtslElement → List Row
split_rows_from cur [] = keep_row cur []
split_rows_from cur (e ∷ es) = elim (is_nl e.tok) [
  | true ↦ keep_row cur (split_rows_from [] es)
  | false ↦ split_rows_from (cur ++ e ∷ []) es
]

unfoldable pub split_rows : List OtslElement → List Row
unfolding split_rows_from
split_rows es = split_rows_from [] es

unfoldable pub max_width : List Row → ℕ
max_width [] = 0
max_width (r ∷ rs) = max (length r) (max_width rs)

abbrev pub blank : OtslTok → OtslElement
blank t = record { tok = t; text = [] }

abbrev pub last_tok : OtslElement → Row → OtslTok
last_tok e [] = e.tok
last_tok e (x ∷ xs) = last_tok x xs

-- A short row is left-merged into its last cell, unless that is a pure `<ucel>`.
abbrev pub pad_tok : OtslTok → OtslTok
pad_tok t = if is_ucel t then ecel else lcel

unfoldable pub pad_row : ℕ → Row → Row
pad_row w [] = replicate w (blank ecel)
pad_row w (e ∷ es) = (e ∷ es) ++ replicate (w - length (e ∷ es)) (blank (pad_tok (last_tok e es)))

unfoldable pub pad_rows : List Row → List Row
unfolding pad_row max_width
pad_rows rows = map (pad_row (max_width rows)) rows
