-- ===== src/TableHtml/CellLaws.antt =====
-- What `escape_cell_html` of src/table/html_reconstruct.cpp makes of a cell's text.
use turbo_ocr.Common.{
  ℕ, zero, suc, ◌≡◌, ◌≢◌, refl, sym, ap, subst, ◌∙◌, true, [], ◌∷◌, ◌++◌, ==_iff, length, drop,
  Bytes, codes, All, Bool-cases, inl, inr, arith,
}
use turbo_ocr.Otsl.Tokens
use turbo_ocr.Otsl.Escape.{unescape}
use turbo_ocr.TableHtml.Texts.{starts_with}
use turbo_ocr.TableHtml.Reconstruct.{escape_cell_char, escape_cell_from, escape_cell_html}

-- Text without angle brackets but those of the emphasis tags.
pub data CellHtml : Bytes → Type 0 where
  no_text : CellHtml []
  plain : (c : ℕ) (rest : Bytes) → c ≢ b'<' → c ≢ b'>' → CellHtml rest → CellHtml (c ∷ rest)
  bold : (rest : Bytes) → CellHtml rest → CellHtml (codes "<b>" ++ rest)
  bold_end : (rest : Bytes) → CellHtml rest → CellHtml (codes "</b>" ++ rest)

starts_with-drop : (p s : Bytes) → starts_with p s ≡ true → s ≡ p ++ drop (length p) s
unfolding starts_with
starts_with-drop [] s h = refl
starts_with-drop (c ∷ p) [] h = absurd (cc)
starts_with-drop (c ∷ p) (d ∷ s) h =
    let same = (==_iff c d).0 (ground (arith, h)) in
    let later = starts_with-drop p s (ground (arith, h)) in
    subst (λ e. e ∷ s ≡ c ∷ (p ++ drop (length p) s)) same (ap (◌∷◌ c) later)

abbrev IsText : ℕ → Type 0
IsText c = (c ≢ b'<') × (c ≢ b'>')

text-CellHtml : (s rest : Bytes) → All IsText s → CellHtml rest → CellHtml (s ++ rest)
text-CellHtml [] rest h r = r
text-CellHtml (c ∷ s) rest ((lt, gt), h) r = plain c (s ++ rest) lt gt (text-CellHtml s rest h r)

escape_cell_char-IsText : (c : ℕ) → All IsText (escape_cell_char c)
escape_cell_char-IsText c = ground arith

escape_cell_char-CellHtml :
    (c : ℕ) (rest : Bytes) → CellHtml rest → CellHtml (escape_cell_char c ++ rest)
escape_cell_char-CellHtml c rest h =
    text-CellHtml (escape_cell_char c) rest (escape_cell_char-IsText c) h

unescape-escape_cell_char :
    (c : ℕ) (rest : Bytes) → unescape 0 (escape_cell_char c ++ rest) ≡ c ∷ unescape 0 rest
unfolding unescape Tokens.starts_with
unescape-escape_cell_char c rest = ground arith

unescape-nil : unescape 0 [] ≡ []
unfolding unescape
unescape-nil = refl

unescape-bold : (rest : Bytes) → unescape 0 (codes "<b>" ++ rest) ≡ codes "<b>" ++ unescape 0 rest
unfolding unescape
unescape-bold rest = refl

unescape-bold_end :
    (rest : Bytes) → unescape 0 (codes "</b>" ++ rest) ≡ codes "</b>" ++ unescape 0 rest
unfolding unescape
unescape-bold_end rest = refl

abbrev Reads : Bytes → Bytes → Type 0
Reads text out = CellHtml out × (unescape 0 out ≡ text)

escape_cell_from-Reads :
    (skip : ℕ) (text : Bytes) → Reads (drop skip text) (escape_cell_from skip text)
unfolding escape_cell_from
escape_cell_from-Reads zero [] = (no_text, unescape-nil)
escape_cell_from-Reads (suc skip) [] = (no_text, unescape-nil)
escape_cell_from-Reads (suc skip) (c ∷ rest) = escape_cell_from-Reads skip rest
escape_cell_from-Reads zero (c ∷ rest) = elim (Bool-cases (starts_with (codes "<b>") (c ∷ rest))) [
  | inl e ↦
      let (html, back) = escape_cell_from-Reads 2 rest in
      rw e (
        bold _ html,
        unescape-bold _
            ∙ ap (λ (s : Bytes). codes "<b>" ++ s) back
            ∙ sym (starts_with-drop (codes "<b>") (c ∷ rest) e),
      )
  | inr e ↦ elim (Bool-cases (starts_with (codes "</b>") (c ∷ rest))) [
    | inl f ↦
        let (html, back) = escape_cell_from-Reads 3 rest in
        rw (e, f)
          (
            bold_end _ html,
            unescape-bold_end _
                ∙ ap (λ (s : Bytes). codes "</b>" ++ s) back
                ∙ sym (starts_with-drop (codes "</b>") (c ∷ rest) f),
          )
    | inr f ↦
        let (html, back) = escape_cell_from-Reads 0 rest in
        rw (e, f)
          (escape_cell_char-CellHtml c _ html, unescape-escape_cell_char c _ ∙ ap (◌∷◌ c) back)
  ]
]

-- Whatever the text of a cell, its escaped form has no angle bracket but in <b> and </b>, and a
-- reader of HTML that keeps these tags gets the text back, byte for byte.
pub escape_cell_html-Reads :
    (text : Bytes) → CellHtml (escape_cell_html text) × (unescape 0 (escape_cell_html text) ≡ text)
escape_cell_html-Reads text = escape_cell_from-Reads 0 text
