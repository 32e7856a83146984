-- ===== src/Otsl/Escape.antt =====
-- What `html_escape` promises: no markup in its output, and nothing lost.
use turbo_ocr.Common.{
  ℕ, zero, suc, ◌-◌, ◌≡◌, ◌≢◌, refl, ap, ◌∙◌, true, false, [], ◌∷◌, ◌++◌, arith, ◌==◌,
  if◌then◌else◌, Bytes, codes, All, All-append,
}
use turbo_ocr.Otsl.Tokens.{starts_with}
use turbo_ocr.Otsl.Html.{escape_char, html_escape}

-- A byte that HTML text may hold as it is: none of `<`, `>`, `"` and `'`.
abbrev pub IsPlain : ℕ → Type 0
IsPlain c = (c ≢ b'<') × (c ≢ b'>') × (c ≢ 34) × (c ≢ 39)

escape_char-IsPlain : (c : ℕ) → All IsPlain (escape_char c)
unfolding escape_char
escape_char-IsPlain c = ground arith

-- An entity at the front of a text, as a reader of HTML decodes it; `n` is its length.
abbrev pub entity : Bytes → ℕ × ℕ
entity s =
    if starts_with (codes "&amp;") s
    then (b'&', 5)
    else if starts_with (codes "&lt;") s
    then (b'<', 4)
    else if starts_with (codes "&gt;") s
    then (b'>', 4)
    else if starts_with (codes "&quot;") s
    then (34, 6)
    else if starts_with (codes "&#39;") s
    then (39, 5)
    else (b'&', 1)

-- Decoding: `skip` bytes belong to the last entity.
unfoldable pub unescape : ℕ → Bytes → Bytes
unescape skip [] = []
unescape (suc skip) (c ∷ cs) = unescape skip cs
unescape zero (c ∷ cs) = elim (c == b'&') [
  | true ↦ (entity (c ∷ cs)).0 ∷ unescape ((entity (c ∷ cs)).1 - 1) cs
  | false ↦ c ∷ unescape 0 cs
]

unescape-escape_char :
    (c : ℕ) (rest : Bytes) → unescape 0 (escape_char c ++ rest) ≡ c ∷ unescape 0 rest
unfolding unescape escape_char starts_with
unescape-escape_char c rest = ground arith

-- The escaped text holds no `<`, `>`, `"` or `'`, and a reader of HTML gets the cell's text back, byte
-- for byte.
pub html_escape_lem : (s : Bytes) → All IsPlain (html_escape s) × (unescape 0 (html_escape s) ≡ s)
unfolding html_escape
html_escape_lem [] = (tt, unfold unescape in refl)
html_escape_lem (c ∷ cs) = (
  All-append IsPlain (escape_char c) (html_escape cs) (escape_char-IsPlain c)
      (html_escape_lem cs).0,
  unescape-escape_char c (html_escape cs) ∙ ap (◌∷◌ c) (html_escape_lem cs).1,
)
