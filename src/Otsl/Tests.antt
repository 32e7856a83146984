-- ===== src/Otsl/Tests.antt =====
-- Runs of the table renderer on concrete text, and the theorems about it at concrete inputs.
use turbo_ocr.Common.{ℕ, ◌≡◌, refl, [], ◌∷◌, List, Bytes, All, codes, some}
use turbo_ocr.Otsl.Tokens.{
  OtslElement, OtslTok, fcel, lcel, ucel, nl, parse_otsl, elements, find_tags, tag_here, cell_text,
  element, starts_with,
}
use turbo_ocr.Otsl.Rows.{Row, split_rows, split_rows_from, pad_rows, pad_row, max_width}
use turbo_ocr.Otsl.Html.{
  table_rows, checked_rows, too_large, contains, grid_infos, html_escape, escape_char, run_right,
  run_down, cell_info, row_infos, decimal, span_attr, emit_cell, emit_row, emit_rows, render,
  otsl_to_html,
}
use turbo_ocr.Otsl.Escape.{IsPlain, unescape, html_escape_lem}
use turbo_ocr.Otsl.Shape.{All₂, Blanks, IsWidest, pad_rows-Blanks, IsTable, table_rows-IsTable}
use turbo_ocr.Otsl.Spans.{GridSpans, grid_infos-GridSpans}

abbrev cell_of : OtslTok → OtslElement
cell_of t = record { tok = t; text = codes "a" }

abbrev two_rows : List OtslElement
two_rows = cell_of fcel ∷ cell_of lcel ∷ cell_of nl ∷ cell_of ucel ∷ []

html_escape_lem_example :
    All IsPlain (html_escape (codes "a<b & \"c\""))
    × (unescape 0 (html_escape (codes "a<b & \"c\"")) ≡ codes "a<b & \"c\"")
html_escape_lem_example = html_escape_lem (codes "a<b & \"c\"")

abbrev ragged : List Row
ragged = (cell_of fcel ∷ cell_of lcel ∷ []) ∷ (cell_of ucel ∷ []) ∷ []

pad_rows-Blanks_example : (w : ℕ) × IsWidest w ragged × All₂ (Blanks w) ragged (pad_rows ragged)
pad_rows-Blanks_example = pad_rows-Blanks ragged

grid_infos-GridSpans_example : GridSpans ragged (grid_infos ragged)
grid_infos-GridSpans_example = grid_infos-GridSpans ragged

-- A header over two columns and a row with a missing cell.
abbrev sample : Bytes
sample = codes "<fcel>a<lcel><nl><fcel>b<nl>"

abbrev sample_rows : List Row
sample_rows =
    (record { tok = fcel; text = codes "a" } ∷ record { tok = lcel; text = [] } ∷ [])
    ∷ (record { tok = fcel; text = codes "b" } ∷ record { tok = lcel; text = [] } ∷ [])
    ∷ []

sample_table : table_rows sample ≡ some sample_rows
unfolding table_rows checked_rows too_large parse_otsl elements find_tags tag_here cell_text element
    starts_with split_rows split_rows_from pad_rows pad_row max_width contains
sample_table = refl

table_rows-IsTable_example : IsTable sample_rows
table_rows-IsTable_example = table_rows-IsTable sample sample_table

spans_two_columns :
    otsl_to_html sample
    ≡ codes "<table><tr><td colspan=\"2\">a</td></tr><tr><td colspan=\"2\">b</td></tr></table>"
unfolding otsl_to_html render table_rows checked_rows too_large parse_otsl elements find_tags
    tag_here cell_text element starts_with split_rows split_rows_from pad_rows pad_row max_width
    contains grid_infos html_escape escape_char run_right run_down cell_info row_infos decimal
    span_attr emit_cell emit_row emit_rows
spans_two_columns = refl
