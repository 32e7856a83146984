-- ===== src/Otsl/Shape.antt =====
-- The shape of the table: splitting loses no cell, padding makes a rectangle, the guard bounds it.
use mathlib.Core.Option.{some-injective}
use turbo_ocr.Common.{
  ℕ, ◌-◌, ◌*◌, ◌/◌, ◌≤◌, ◌≡◌, ◌≢◌, refl, subst, sym, ◌⊎◌, false, ◌||◌, none, some, List, [], ◌∷◌,
  ◌++◌, map, arith, ltb, leb, max, ◌==◌, Bytes, All, length, length-append, length-map,
  length-replicate, replicate, Bool-cases, inl, inr, trim,
}
use turbo_ocr.Otsl.Tokens.{OtslTok, OtslElement, parse_otsl}
use turbo_ocr.Otsl.Rows.{Row, split_rows, max_width, pad_tok, last_tok, blank, pad_row, pad_rows}
use turbo_ocr.Otsl.Html.{max_table_cells, too_large, table_rows, checked_rows, closed}

-- `padded` is `row` with blank cells behind it, `w` cells in all.
abbrev pub Pads : ℕ → Row → Row → Type 0
Pads w row padded =
    (extra : ℕ) × (t : OtslTok) × (padded ≡ row ++ replicate extra (blank t)) × (length padded ≡ w)

pad_row-Pads : (w : ℕ) (r : Row) → length r ≤ w → Pads w r (pad_row w r)
unfolding pad_row
pad_row-Pads w [] h = (w, OtslTok.ecel, refl, length-replicate w _)
pad_row-Pads w (e ∷ es) h = (
  w - length (e ∷ es),
  pad_tok (last_tok e es),
  refl,
  omega (
    arith,
    length-append (e ∷ es) (replicate (w - length (e ∷ es)) (blank (pad_tok (last_tok e es)))),
    length-replicate (w - length (e ∷ es)) (blank (pad_tok (last_tok e es))),
  ),
)

-- Entry by entry.
abbrev pub All₂ : (Row → Row → Type 0) → List Row → List Row → Type 0
All₂ R [] [] = Unit
All₂ R (x ∷ xs) (y ∷ ys) = R x y × All₂ R xs ys
All₂ R _ _ = ⊥

map-pad_row-Pads :
    (rows : List Row) (w : ℕ) → max_width rows ≤ w → All₂ (Pads w) rows (map (pad_row w) rows)
unfolding max_width
map-pad_row-Pads [] w h = tt
map-pad_row-Pads (r ∷ rs) w h =
    (pad_row-Pads w r (omega arith), map-pad_row-Pads rs w (omega arith))

-- What a row is padded with: an empty cell when it is empty or ends in `<ucel>`, else a cell that is
-- merged into the one on its left.
pub data PaddedBy : Row → OtslTok → Type 0 where
  no_cells : PaddedBy [] OtslTok.ecel
  ends_in_ucel : (e : OtslElement) → e.tok ≡ OtslTok.ucel → PaddedBy (e ∷ []) OtslTok.ecel
  ends_otherwise : (e : OtslElement) → e.tok ≢ OtslTok.ucel → PaddedBy (e ∷ []) OtslTok.lcel
  longer :
      (x e : OtslElement) (es : Row) {t : OtslTok} → PaddedBy (e ∷ es) t → PaddedBy (x ∷ e ∷ es) t

pad_tok-cases :
    (t : OtslTok)
    → ((t ≡ OtslTok.ucel) × (pad_tok t ≡ OtslTok.ecel))
      ⊎ ((t ≢ OtslTok.ucel) × (pad_tok t ≡ OtslTok.lcel))
pad_tok-cases OtslTok.ucel = inl (refl, refl)
pad_tok-cases OtslTok.fcel = inr ((λ z. cc), refl)
pad_tok-cases OtslTok.ecel = inr ((λ z. cc), refl)
pad_tok-cases OtslTok.lcel = inr ((λ z. cc), refl)
pad_tok-cases OtslTok.xcel = inr ((λ z. cc), refl)
pad_tok-cases OtslTok.nl = inr ((λ z. cc), refl)

single-PaddedBy : (e : OtslElement) → PaddedBy (e ∷ []) (pad_tok e.tok)
single-PaddedBy e = elim (pad_tok-cases e.tok) [
  | inl (up, kind) ↦ subst (PaddedBy (e ∷ [])) (sym kind) (ends_in_ucel e up)
  | inr (other, kind) ↦ subst (PaddedBy (e ∷ [])) (sym kind) (ends_otherwise e other)
]

pad_tok-PaddedBy : (e : OtslElement) (es : Row) → PaddedBy (e ∷ es) (pad_tok (last_tok e es))
pad_tok-PaddedBy e [] = single-PaddedBy e
pad_tok-PaddedBy e (x ∷ es) = longer e x es (pad_tok-PaddedBy x es)

-- The width of the widest of some rows: none is wider, and one has it.
abbrev pub HasWidth : ℕ → List Row → Type 0
HasWidth w [] = ⊥
HasWidth w (r ∷ rs) = (length r ≡ w) ⊎ HasWidth w rs

abbrev pub IsWidest : ℕ → List Row → Type 0
IsWidest w rows = All (λ r. length r ≤ w) rows × ((rows ≡ []) ⊎ HasWidth w rows)

-- `padded` is `row` with blank cells behind it, of the kind that its end asks for, `w` cells in all.
abbrev pub Blanks : ℕ → Row → Row → Type 0
Blanks w row padded =
    (extra : ℕ) × (t : OtslTok) × PaddedBy row t
    × (padded ≡ row ++ replicate extra (blank t))
    × (length padded ≡ w)

pad_row-Blanks : (w : ℕ) (r : Row) → length r ≤ w → Blanks w r (pad_row w r)
unfolding pad_row
pad_row-Blanks w [] h = (w, OtslTok.ecel, no_cells, refl, length-replicate w _)
pad_row-Blanks w (e ∷ es) h =
    let (extra, t, same, len) = pad_row-Pads w (e ∷ es) h in
    (w - length (e ∷ es), pad_tok (last_tok e es), pad_tok-PaddedBy e es, refl, len)

map-pad_row-Blanks :
    (w : ℕ) (rows : List Row)
    → All (λ r. length r ≤ w) rows
    → All₂ (Blanks w) rows (map (pad_row w) rows)
map-pad_row-Blanks w [] h = tt
map-pad_row-Blanks w (r ∷ rs) (here, there) =
    (pad_row-Blanks w r here, map-pad_row-Blanks w rs there)

max_width_bounds : (rows : List Row) (w : ℕ) → max_width rows ≤ w → All (λ r. length r ≤ w) rows
unfolding max_width
max_width_bounds [] w h = tt
max_width_bounds (r ∷ rs) w h = (omega arith, max_width_bounds rs w (omega arith))

no_rows-narrow : (rows : List Row) (w : ℕ) → rows ≡ [] → leb (max_width rows) w ≡ false → ⊥
unfolding max_width
no_rows-narrow [] w e h = ground arith
no_rows-narrow (r ∷ rs) w e h = cc e

max_width-HasWidth : (rows : List Row) → (rows ≡ []) ⊎ HasWidth (max_width rows) rows
unfolding max_width
max_width-HasWidth [] = inl refl
max_width-HasWidth (r ∷ rs) = inr (elim (Bool-cases (leb (max_width rs) (length r))) [
  | inl wide ↦ inl (ground (arith, wide))
  | inr narrow ↦
      let rest : max_width rs ≡ max (length r) (max_width rs) = ground (arith, narrow) in
      elim (max_width-HasWidth rs) [
        | inl none_left ↦ absurd (no_rows-narrow rs (length r) none_left narrow)
        | inr found ↦ inr (subst (λ w. HasWidth w rs) rest found)
      ]
])

-- Padding gives every row the width `w` of the widest, which one of the rows has unless there is none,
-- keeps its cells in place and appends blank cells of one kind: `<ecel>` when the row is empty or ends
-- in `<ucel>`, else `<lcel>`.
pub pad_rows-Blanks :
    (rows : List Row) → (w : ℕ) × IsWidest w rows × All₂ (Blanks w) rows (pad_rows rows)
unfolding pad_rows
pad_rows-Blanks rows =
    let within = max_width_bounds rows (max_width rows) (omega arith) in
    (
      max_width rows,
      (within, max_width-HasWidth rows),
      map-pad_row-Blanks (max_width rows) rows within,
    )

pad_rows-Pads : (rows : List Row) → All₂ (Pads (max_width rows)) rows (pad_rows rows)
unfolding pad_rows
pad_rows-Pads rows = map-pad_row-Pads rows (max_width rows) (omega arith)

abbrev pub IsRectangle : ℕ → List Row → Type 0
IsRectangle w rows = All (λ r. length r ≡ w) rows

Pads-IsRectangle :
    (w : ℕ) (rows padded : List Row) → All₂ (Pads w) rows padded → IsRectangle w padded
Pads-IsRectangle w [] [] h = tt
Pads-IsRectangle w (x ∷ xs) (y ∷ ys) h = (h.0.3, Pads-IsRectangle w xs ys h.1)
Pads-IsRectangle w [] (y ∷ ys) h = absurd h
Pads-IsRectangle w (x ∷ xs) [] h = absurd h

mul_mono_left : (n q w : ℕ) → n ≤ q → n * w ≤ q * w
mul_mono_left n q w h = grind arith

within_cap :
    (n w : ℕ)
    → (w == 0 || ltb (max_table_cells / w) n) ≡ false
    → (1 ≤ w) × (n * w ≤ max_table_cells)
within_cap n w h =
    let wide : 1 ≤ w = ground arith in
    let few : n ≤ max_table_cells / w = ground arith in
    (wide, omega (arith, mul_mono_left n (max_table_cells / w) w few))

length-pad_rows : (rows : List Row) → length (pad_rows rows) ≡ length rows
unfolding pad_rows
length-pad_rows rows = length-map (pad_row (max_width rows)) rows

abbrev pub IsTable : List Row → Type 0
IsTable rows = (w : ℕ) × IsRectangle w rows × (1 ≤ w) × (length rows * w ≤ max_table_cells)

pad_rows-IsTable : (rows : List Row) → too_large rows ≡ false → IsTable (pad_rows rows)
unfolding too_large
pad_rows-IsTable rows h =
    let (wide, few) = within_cap (length rows) (max_width rows) h in
    (
      max_width rows,
      Pads-IsRectangle (max_width rows) rows (pad_rows rows) (pad_rows-Pads rows),
      wide,
      rw length-pad_rows few,
    )

checked_rows-IsTable :
    (otsl : Bytes) (elems : List OtslElement) (raw rows : List Row)
    → checked_rows otsl elems raw ≡ some rows
    → IsTable rows
unfolding checked_rows
checked_rows-IsTable [] elems raw rows e = cc
checked_rows-IsTable (_ ∷ _) [] raw rows e = cc
checked_rows-IsTable (_ ∷ _) (_ ∷ _) [] rows e = cc
checked_rows-IsTable (_ ∷ _) (_ ∷ _) (r ∷ rs) rows e = elim (Bool-cases (too_large (r ∷ rs))) [
  | inl h ↦ let bad : none ≡ some rows = rw h at e in cc
  | inr h ↦ subst IsTable (some-injective _ _ (rw h at e)) (pad_rows-IsTable (r ∷ rs) h)
]

-- Whatever the model emits, a table that is rendered at all is a rectangle with at least one column
-- and at most 65536 cells.
pub table_rows-IsTable :
    (otsl : Bytes) {rows : List Row} → table_rows otsl ≡ some rows → IsTable rows
unfolding table_rows
table_rows-IsTable otsl {rows} e =
    let elems = parse_otsl (closed (trim otsl)) in
    checked_rows-IsTable (trim otsl) elems (split_rows elems) rows e
