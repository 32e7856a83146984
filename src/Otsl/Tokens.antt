-- ===== src/Otsl/Tokens.antt =====
-- `parse_otsl` of src/table/vlm/otsl_html.cpp: from text to a flat list of elements.
use turbo_ocr.Common.{
  ℕ, zero, suc, ◌+◌, ◌-◌, Bool, true, false, Option, none, some, List, [], ◌∷◌, ◌==◌, ltb,
  if◌then◌else◌, Bytes, codes, length, take, drop, trim,
}

pub data OtslTok : Type 0 where
  fcel ecel nl lcel ucel xcel : OtslTok

pub record OtslElement : Type 0 where
  pub tok : OtslTok
  pub text : Bytes

-- `kFcel`, `kEcel`, `kNl`, `kLcel`, `kUcel`, `kXcel`.
abbrev pub tag_text : OtslTok → Bytes
tag_text fcel = codes "<fcel>"
tag_text ecel = codes "<ecel>"
tag_text nl = codes "<nl>"
tag_text lcel = codes "<lcel>"
tag_text ucel = codes "<ucel>"
tag_text xcel = codes "<xcel>"

unfoldable pub starts_with : Bytes → Bytes → Bool
starts_with [] s = true
starts_with (_ ∷ _) [] = false
starts_with (c ∷ cs) (x ∷ xs) = if c == x then starts_with cs xs else false

-- The alternative of the regular expression that matches at the front of the text.
unfoldable pub tag_here : Bytes → Option OtslTok
unfolding starts_with
tag_here s =
    if starts_with (tag_text fcel) s
    then some fcel
    else if starts_with (tag_text ecel) s
    then some ecel
    else if starts_with (tag_text nl) s
    then some nl
    else if starts_with (tag_text lcel) s
    then some lcel
    else if starts_with (tag_text ucel) s
    then some ucel
    else if starts_with (tag_text xcel) s
    then some xcel
    else none

-- The matches from left to right with their positions. `skip` bytes belong to the last match.
unfoldable pub find_tags : ℕ → ℕ → Bytes → List (ℕ × OtslTok)
unfolding tag_here
find_tags skip pos [] = []
find_tags (suc skip) pos (c ∷ cs) = find_tags skip (pos + 1) cs
find_tags zero pos (c ∷ cs) = elim (tag_here (c ∷ cs)) [
  | some t ↦ (pos, t) ∷ find_tags (length (tag_text t) - 1) (pos + 1) cs
  | none ↦ find_tags 0 (pos + 1) cs
]

-- Where the text behind a tag ends: at the next match, or at the end of the input.
abbrev pub next_start : Bytes → List (ℕ × OtslTok) → ℕ
next_start otsl [] = length otsl
next_start otsl ((p, _) ∷ _) = p

-- `otsl.substr(text_start, text_end - text_start)`, trimmed, where it is not empty.
unfoldable pub cell_text : Bytes → ℕ → ℕ → Bytes
unfolding trim
cell_text otsl text_start text_end =
    if ltb text_start text_end
    then trim (take (text_end - text_start) (drop text_start otsl))
    else []

-- Only a full cell has text.
unfoldable pub element : Bytes → ℕ → OtslTok → ℕ → OtslElement
unfolding cell_text
element otsl pos fcel text_end = record { tok = fcel; text = cell_text otsl (pos + 6) text_end }
element otsl pos t text_end = record { tok = t; text = [] }

unfoldable pub elements : Bytes → List (ℕ × OtslTok) → List OtslElement
unfolding element
elements otsl [] = []
elements otsl ((pos, t) ∷ ms) = element otsl pos t (next_start otsl ms) ∷ elements otsl ms

unfoldable pub parse_otsl : Bytes → List OtslElement
unfolding elements find_tags
parse_otsl otsl = elements otsl (find_tags 0 0 otsl)
