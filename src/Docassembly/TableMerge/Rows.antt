-- ===== src/Docassembly/TableMerge/Rows.antt =====
-- The rows and cells of a table's markup: the first half of src/docassembly/table_merge.cpp. A view into
-- the markup is the text from its place on.
use turbo_ocr.Common.{
  ℕ, zero, suc, ◌+◌, ◌-◌, ◌*◌, ◌/◌, ◌%◌, Bool, true, false, ◌&&◌, ◌||◌, Option, none, some, List,
  [], ◌∷◌, ltb, leb, ◌==◌, if◌then◌else◌, length, take, drop, map, Bytes, codes, is_space,
}
use turbo_ocr.TableHtml.Texts.{ascii_lower, starts_with}

pub record HtmlCell : Type 0 where
  pub colspan : ℕ
  pub rowspan : ℕ
  pub text : Bytes

abbrev pub HtmlRow : Type 0
HtmlRow = List HtmlCell

-- `ieq_at` at the front of a text.
unfoldable pub ieq_at : Bytes → Bytes → Bool
ieq_at lit s = starts_with lit (ascii_lower s)

-- The place of the first, and of the last, tag `lit`, counted from `i`.
unfoldable pub ifind : Bytes → ℕ → Bytes → Option ℕ
ifind lit i [] = none
ifind lit i (c ∷ cs) = if c == 60 && ieq_at lit (c ∷ cs) then some i else ifind lit (suc i) cs

abbrev pub first_place : Option ℕ → Option ℕ → Option ℕ
first_place (some i) o = some i
first_place none o = o

unfoldable pub irfind : Bytes → ℕ → Bytes → Option ℕ
irfind lit i [] = none
irfind lit i (c ∷ cs) =
    first_place (irfind lit (suc i) cs) (if c == 60 && ieq_at lit (c ∷ cs) then some i else none)

abbrev pub max_span : ℕ
max_span = 512

-- May an attribute's name begin behind this byte?
abbrev pub begins_name : Option ℕ → Bool
begins_name none = true
begins_name (some c) = c == 60 || (c == 32 || (c == 9 || (c == 34 || c == 39)))

-- What stands behind the first whole `name`.
unfoldable pub behind_name : Bytes → Option ℕ → Bytes → Option Bytes
behind_name name prev [] = none
behind_name name prev (c ∷ cs) =
    let later = behind_name name (some c) cs in
    if starts_with name (c ∷ cs) && begins_name prev
    then some (drop (length name) (c ∷ cs))
    else later

unfoldable pub skip_quotes : Bytes → Bytes
skip_quotes [] = []
skip_quotes (c ∷ cs) =
    let rest = skip_quotes cs in
    if c == 32 || (c == 61 || (c == 34 || c == 39)) then rest else c ∷ cs

-- The digits at the front of a text, on top of `val`. `none`: there is no digit.
unfoldable pub read_digits : Option ℕ → ℕ → Bytes → Option ℕ
read_digits read val [] = read
read_digits read val (c ∷ cs) =
    let val' = if ltb val max_span then val * 10 + (c - 48) else val in
    let rest = read_digits (some val') val' cs in if leb 48 c && leb c 57 then rest else read

-- `std::clamp(val, 1, kMaxSpan)`
abbrev pub clamp_span : Option ℕ → ℕ → ℕ
clamp_span none default_span = default_span
clamp_span (some val) default_span =
    if ltb val 1 then 1 else if ltb max_span val then max_span else val

abbrev pub span_of : Option Bytes → ℕ → ℕ
span_of none default_span = default_span
span_of (some s) default_span = clamp_span (read_digits none 0 (skip_quotes s)) default_span

unfoldable pub attr_int : Bytes → Bytes → ℕ → ℕ
unfolding behind_name skip_quotes read_digits
attr_int tag name default_span = span_of (behind_name name none tag) default_span

unfoldable pub strip_tags : Bool → Bytes → Bytes
strip_tags in_tag [] = []
strip_tags in_tag (c ∷ cs) =
    let rest = strip_tags (if c == 60 then true else if c == 62 then false else in_tag) cs in
    if c == 60 || (c == 62 || in_tag) then rest else c ∷ rest

-- The "<tr>...</tr>" spans, with `skip` bytes that are already taken.
unfoldable pub extract_tr_raw : ℕ → Bytes → List Bytes
extract_tr_raw skip [] = []
extract_tr_raw (suc skip) (c ∷ cs) = extract_tr_raw skip cs
extract_tr_raw zero (c ∷ cs) = elim (c == 60 && ieq_at (codes "<tr") (c ∷ cs)) [
  | true ↦ elim (ifind (codes "</tr>") 0 (c ∷ cs)) [
    | none ↦ []
    | some close ↦ take (close + 5) (c ∷ cs) ∷ extract_tr_raw (close + 4) cs
  ]
  | false ↦ extract_tr_raw 0 cs
]

-- The place of the first `>`.
unfoldable pub find_gt : ℕ → Bytes → Option ℕ
find_gt i [] = none
find_gt i (c ∷ cs) = if c == 62 then some i else find_gt (suc i) cs

-- The cell whose opening tag ends at `tag_end`, in a text of which it takes the part before `inner_end`.
abbrev pub html_cell_at : Bytes → ℕ → ℕ → HtmlCell
html_cell_at s tag_end inner_end = record {
  colspan = attr_int (take tag_end s) (codes "colspan") 1;
  rowspan = attr_int (take tag_end s) (codes "rowspan") 1;
  text = strip_tags false (take (inner_end - tag_end - 1) (drop (tag_end + 1) s));
}

abbrev pub close_lit : Bool → Bytes
close_lit is_td = if is_td then codes "</td>" else codes "</th>"

unfoldable pub extract_cells : ℕ → Bytes → HtmlRow
extract_cells skip [] = []
extract_cells (suc skip) (c ∷ cs) = extract_cells skip cs
extract_cells zero (c ∷ cs) =
    let is_td = c == 60 && ieq_at (codes "<td") (c ∷ cs) in
    let is_th = c == 60 && ieq_at (codes "<th") (c ∷ cs) in
    elim (is_td || is_th) [
      | true ↦ elim (find_gt 0 (c ∷ cs)) [
        | none ↦ []
        | some tag_end ↦ elim (ifind (close_lit is_td) tag_end (drop tag_end (c ∷ cs))) [
          | none ↦ html_cell_at (c ∷ cs) tag_end (length (c ∷ cs)) ∷ []
          | some close ↦ html_cell_at (c ∷ cs) tag_end close ∷ extract_cells (close + 4) cs
        ]
      ]
      | false ↦ extract_cells 0 cs
    ]

unfoldable pub parse_rows : Bytes → List HtmlRow
unfolding extract_tr_raw extract_cells ifind ieq_at find_gt attr_int strip_tags
parse_rows html = map (extract_cells 0) (extract_tr_raw 0 html)

abbrev pub code_point : ℕ → ℕ → ℕ → ℕ
code_point a b c = (a % 16) * 4096 + (b % 64) * 64 + c % 64

-- Full-width ASCII to ASCII; `skip` bytes are copied as they are.
unfoldable pub full_to_half : Bytes → Bytes
full_to_half (a ∷ b ∷ c ∷ rest) =
    let cp = code_point a b c in
    let halved = full_to_half rest in
    let next = full_to_half (b ∷ c ∷ rest) in
    if a / 16 == 14
    then if leb 0xFF01 cp && leb cp 0xFF5E then (cp - 0xFEE0) ∷ halved else a ∷ b ∷ c ∷ halved
    else a ∷ next
full_to_half short = short

unfoldable pub without_spaces : Bytes → Bytes
without_spaces [] = []
without_spaces (c ∷ cs) = let rest = without_spaces cs in if is_space c then rest else c ∷ rest

unfoldable pub norm_text : Bytes → Bytes
unfolding full_to_half without_spaces is_space
norm_text s = without_spaces (full_to_half s)
