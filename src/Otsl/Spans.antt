-- ===== src/Otsl/Spans.antt =====
-- The spans of the root cells: they cover merged cells only, as far as those go, within the table.
use turbo_ocr.Common.{
  ℕ, suc, ◌+◌, ◌≤◌, ◌≡◌, refl, true, false, List, [], ◌∷◌, arith, All, length, get_elem?,
  Bool-cases, ◌⊎◌, inl, inr, take, drop,
}
use turbo_ocr.Otsl.Tokens.{OtslTok, fcel, ecel, nl, OtslElement}
use turbo_ocr.Otsl.Rows.{Row, is_l}
use turbo_ocr.Otsl.Html.{CellInfo, run_right, up_merged, run_down, cell_info, row_infos, grid_infos}

abbrev pub IsLeftMerged : OtslElement → Type 0
IsLeftMerged e = is_l e.tok ≡ true

-- The list ends, or goes on with a cell that does not belong to the run.
abbrev pub StopsRight : Row → Type 0
StopsRight [] = Unit
StopsRight (e ∷ es) = is_l e.tok ≡ false

abbrev pub StopsDown : ℕ → List Row → Type 0
StopsDown c [] = Unit
StopsDown c (r ∷ rs) = up_merged (get_elem? r c) ≡ false

pub run_right_lem :
    (right : Row)
    → (run_right right ≤ length right)
      × All IsLeftMerged (take (run_right right) right)
      × StopsRight (drop (run_right right) right)
unfolding run_right
run_right_lem [] = (omega arith, tt, tt)
run_right_lem (e ∷ es) = elim (Bool-cases (is_l e.tok)) [
  | inl h ↦
      let (bound, merged, stop) = run_right_lem es in
      rw (h, run_right) (omega arith, (h, merged), stop)
  | inr h ↦ rw (h, run_right) (omega arith, tt, h)
]

pub run_down_lem :
    (c : ℕ) (below : List Row)
    → (run_down c below ≤ length below)
      × All (λ r. up_merged (get_elem? r c) ≡ true) (take (run_down c below) below)
      × StopsDown c (drop (run_down c below) below)
unfolding run_down
run_down_lem c [] = (omega arith, tt, tt)
run_down_lem c (r ∷ rs) = elim (Bool-cases (up_merged (get_elem? r c))) [
  | inl h ↦
      let (bound, merged, stop) = run_down_lem c rs in
      rw (h, run_down) (omega arith, (h, merged), stop)
  | inr h ↦ rw (h, run_down) (omega arith, tt, h)
]

-- The spans of one root: beyond the cell itself they count the longest runs of left-merged cells to
-- its right and of up-merged cells below it.
pub record RootSpans (c : ℕ) (right : Row) (below : List Row) (g : CellInfo) : Type 0 where
  pub is_root : g.is_root ≡ true
  pub columns : ℕ
  pub rows : ℕ
  pub col_span : g.col_span ≡ suc columns
  pub row_span : g.row_span ≡ suc rows
  pub within_row : columns ≤ length right
  pub within_table : rows ≤ length below
  pub covers_right : All IsLeftMerged (take columns right)
  pub covers_down : All (λ r. up_merged (get_elem? r c) ≡ true) (take rows below)
  pub stops_right : StopsRight (drop columns right)
  pub stops_down : StopsDown c (drop rows below)

-- A cell that is no root is not written; the others have their spans.
abbrev pub CellSpans : ℕ → Row → List Row → CellInfo → Type 0
CellSpans c right below g = (g.is_root ≡ false) ⊎ RootSpans c right below g

abbrev pub RowSpans : ℕ → Row → List Row → List CellInfo → Type 0
RowSpans c [] below [] = Unit
RowSpans c (e ∷ es) below (g ∷ gs) = CellSpans c es below g × RowSpans (c + 1) es below gs
RowSpans c _ below _ = ⊥

abbrev pub GridSpans : List Row → List (List CellInfo) → Type 0
GridSpans [] [] = Unit
GridSpans (row ∷ below) (gs ∷ rest) = RowSpans 0 row below gs × GridSpans below rest
GridSpans _ _ = ⊥

module _ (c : ℕ) (right : Row) (below : List Row) where
  root_spans :
      (g : CellInfo)
      → g.is_root ≡ true
      → g.col_span ≡ suc (run_right right)
      → g.row_span ≡ suc (run_down c below)
      → RootSpans c right below g
  root_spans g root col row =
      let (in_row, over, stop) = run_right_lem right in
      let (in_table, under, halt) = run_down_lem c below in
      record {
        is_root = root;
        columns = run_right right;
        rows = run_down c below;
        col_span = col;
        row_span = row;
        within_row = in_row;
        within_table = in_table;
        covers_right = over;
        covers_down = under;
        stops_right = stop;
        stops_down = halt;
      }

  cell_info_of :
      (t : OtslTok) (text : List ℕ)
      → CellSpans c right below (cell_info c (record { tok = t; text = text }) right below)
  unfolding cell_info
  cell_info_of fcel text = inr (root_spans _ refl refl refl)
  cell_info_of ecel text = inr (root_spans _ refl refl refl)
  cell_info_of nl text = inl refl
  cell_info_of _ text = inl refl

row_infos-RowSpans :
    (c : ℕ) (row : Row) (below : List Row) → RowSpans c row below (row_infos c row below)
unfolding row_infos
row_infos-RowSpans c [] below = tt
row_infos-RowSpans c (e ∷ es) below =
    (cell_info_of c es below e.tok e.text, row_infos-RowSpans (c + 1) es below)

-- In every table the spans of each written cell cover exactly the longest runs of left-merged cells to
-- its right and of up-merged cells below it, so no span leaves the table.
pub grid_infos-GridSpans : (rows : List Row) → GridSpans rows (grid_infos rows)
unfolding grid_infos
grid_infos-GridSpans [] = tt
grid_infos-GridSpans (row ∷ below) = (row_infos-RowSpans 0 row below, grid_infos-GridSpans below)
