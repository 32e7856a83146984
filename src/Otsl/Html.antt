-- ===== src/Otsl/Html.antt =====
-- `html_escape`, the grid of root cells and `otsl_to_html` of src/table/vlm/otsl_html.cpp.
use turbo_ocr.Common.{
  ℕ, zero, suc, ◌+◌, ◌/◌, ◌%◌, ◌^◌, Bool, true, false, not, ◌||◌, Option, none, some, List, [], ◌∷◌,
  ◌++◌, ◌==◌, ltb, if◌then◌else◌, Bytes, codes, length, get_elem?, is_empty, trim,
}
use turbo_ocr.Otsl.Tokens.{fcel, ecel, nl, OtslElement, tag_text, starts_with, parse_otsl}
use turbo_ocr.Otsl.Rows.{Row, is_l, is_u, split_rows, max_width, pad_rows}

unfoldable pub escape_char : ℕ → Bytes
escape_char c =
    if c == b'&'
    then codes "&amp;"
    else if c == b'<'
    then codes "&lt;"
    else if c == b'>'
    then codes "&gt;"
    else if c == 34
    then codes "&quot;"
    else if c == 39
    then codes "&#39;"
    else c ∷ []

unfoldable pub html_escape : Bytes → Bytes
unfolding escape_char
html_escape [] = []
html_escape (c ∷ cs) = escape_char c ++ html_escape cs

-- `struct CellInfo`; a cell that is no root keeps the defaults.
pub record CellInfo : Type 0 where
  pub is_root : Bool
  pub empty : Bool
  pub row_span : ℕ
  pub col_span : ℕ
  pub text : Bytes

abbrev pub no_root : CellInfo
no_root = record { is_root = false; empty = false; row_span = 1; col_span = 1; text = [] }

-- How many of the following cells of the row are left-merged.
unfoldable pub run_right : Row → ℕ
run_right [] = 0
run_right (e ∷ es) = if is_l e.tok then suc (run_right es) else 0

-- `rows[rr].cells[c]` is up-merged. Past the end of a row the C++ read would be out of bounds; all
-- rows are padded to one width before.
abbrev pub up_merged : Option OtslElement → Bool
up_merged none = false
up_merged (some e) = is_u e.tok

-- How many of the rows below have an up-merged cell in column `c`.
unfoldable pub run_down : ℕ → List Row → ℕ
run_down c [] = 0
run_down c (row ∷ rows) = if up_merged (get_elem? row c) then suc (run_down c rows) else 0

-- The cell in column `c`, with the cells to its right and the rows below.
unfoldable pub cell_info : ℕ → OtslElement → Row → List Row → CellInfo
unfolding run_right run_down
cell_info c e right below = elim e.tok [ fcel ↦ root false | ecel ↦ root true | _ ↦ no_root ]
  where
    root : Bool → CellInfo
    root empty = record {
      is_root = true;
      empty = empty;
      row_span = suc (run_down c below);
      col_span = suc (run_right right);
      text = e.text;
    }

unfoldable pub row_infos : ℕ → Row → List Row → List CellInfo
unfolding cell_info
row_infos c [] below = []
row_infos c (e ∷ es) below = cell_info c e es below ∷ row_infos (c + 1) es below

unfoldable pub grid_infos : List Row → List (List CellInfo)
unfolding row_infos
grid_infos [] = []
grid_infos (row ∷ below) = row_infos 0 row below ∷ grid_infos below

-- `std::to_string` of a positive number; the number itself is fuel enough.
unfoldable pub decimal : ℕ → ℕ → Bytes
decimal zero n = []
decimal (suc fuel) n =
    let front = decimal fuel (n / 10) in (if ltb n 10 then [] else front) ++ (b'0' + n % 10) ∷ []

abbrev pub to_string : ℕ → Bytes
to_string n = decimal (suc n) n

unfoldable pub span_attr : Bytes → ℕ → Bytes
unfolding decimal
span_attr name n =
    if ltb 1 n then codes " " ++ (name ++ (codes "=\"" ++ (to_string n ++ codes "\""))) else []

-- Only a root is written.
unfoldable pub emit_cell : CellInfo → Bytes
unfolding span_attr html_escape
emit_cell g =
    if not g.is_root
    then []
    else codes "<td"
      ++ (span_attr (codes "rowspan") g.row_span
          ++ (span_attr (codes "colspan") g.col_span
              ++ (codes ">" ++ (html_escape g.text ++ codes "</td>"))))

unfoldable pub emit_row : List CellInfo → Bytes
unfolding emit_cell
emit_row [] = []
emit_row (g ∷ gs) = emit_cell g ++ emit_row gs

unfoldable pub emit_rows : List (List CellInfo) → Bytes
unfolding emit_row
emit_rows [] = []
emit_rows (row ∷ rows) = codes "<tr>" ++ (emit_row row ++ (codes "</tr>" ++ emit_rows rows))

-- `otsl.find(kNl) == npos`, negated.
unfoldable pub contains : Bytes → Bytes → Bool
unfolding starts_with
contains lit [] = starts_with lit []
contains lit (c ∷ cs) = starts_with lit (c ∷ cs) || contains lit cs

abbrev pub max_table_cells : ℕ
max_table_cells = 2 ^ 16

-- The guard before the padding: `max_w == 0 || rows.size() > kMaxTableCells / max_w`.
unfoldable pub too_large : List Row → Bool
unfolding max_width
too_large rows = max_width rows == 0 || ltb (max_table_cells / max_width rows) (length rows)

-- The early returns of an empty string, and the padding behind them.
unfoldable pub checked_rows : Bytes → List OtslElement → List Row → Option (List Row)
unfolding too_large pad_rows
checked_rows otsl elems raw =
    if is_empty otsl || (is_empty elems || (is_empty raw || too_large raw))
    then none
    else some (pad_rows raw)

-- `if (otsl.find(kNl) == npos) otsl += kNl`.
abbrev pub closed : Bytes → Bytes
closed otsl = if contains (tag_text nl) otsl then otsl else otsl ++ tag_text nl

-- The rows that are rendered, or `none` where the function returns an empty string.
unfoldable pub table_rows : Bytes → Option (List Row)
unfolding trim contains parse_otsl split_rows checked_rows
table_rows otsl_in =
    let otsl = trim otsl_in in
    let elems = parse_otsl (closed otsl) in checked_rows otsl elems (split_rows elems)

unfoldable pub render : Option (List Row) → Bytes
unfolding grid_infos emit_rows
render none = []
render (some rows) = codes "<table>" ++ (emit_rows (grid_infos rows) ++ codes "</table>")

unfoldable pub otsl_to_html : Bytes → Bytes
unfolding table_rows render
otsl_to_html otsl_in = render (table_rows otsl_in)
