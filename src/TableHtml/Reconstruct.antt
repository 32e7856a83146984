-- ===== src/TableHtml/Reconstruct.antt =====
-- `reconstruct_html`. A cell is the list of its OCR indices; the reserved capacity is left out.
use turbo_ocr.Common.{
  ℕ, zero, suc, ◌-◌, Bool, not, ◌&&◌, ◌||◌, Option, none, some, List, [], ◌∷◌, ◌++◌, ltb, ◌==◌,
  if◌then◌else◌, is_empty, length, get_elem?, take, drop, Bytes, codes, bytes_eq,
}
use turbo_ocr.TableHtml.Texts.{starts_with}

-- The text holds the needle.
unfoldable pub holds : Bytes → Bytes → Bool
holds needle [] = starts_with needle []
holds needle (c ∷ cs) = let later = holds needle cs in starts_with needle (c ∷ cs) || later

abbrev pub without_space : Bytes → Bytes
without_space [] = []
without_space (c ∷ cs) = if c == 32 then cs else c ∷ cs

abbrev pub without_prefix : Bytes → Bytes → Bytes
without_prefix p s = if starts_with p s then drop (length p) s else s

-- `ends_with` and `remove_suffix`.
abbrev pub without_suffix : Bytes → Bytes → Bytes
without_suffix p s =
    let front = length s - length p in
    if not (ltb (length s) (length p)) && bytes_eq (drop front s) p then take front s else s

unfoldable pub td_content : Bytes → Bytes
td_content text = without_suffix (codes "</b>") (without_prefix (codes "<b>") (without_space text))

abbrev pub escape_cell_char : ℕ → Bytes
escape_cell_char c =
    if c == 38
    then codes "&amp;"
    else if c == 60
    then codes "&lt;"
    else if c == 62
    then codes "&gt;"
    else c ∷ []

-- One round: what is written and how many bytes are taken beside the first.
abbrev pub escape_round : ℕ → Bytes → Bytes × ℕ
escape_round c rest =
    if starts_with (codes "<b>") (c ∷ rest)
    then (codes "<b>", 2)
    else if starts_with (codes "</b>") (c ∷ rest)
    then (codes "</b>", 3)
    else (escape_cell_char c, 0)

-- The loop, with `skip` bytes that are already taken.
unfoldable pub escape_cell_from : ℕ → Bytes → Bytes
escape_cell_from skip [] = []
escape_cell_from (suc skip) (c ∷ rest) = escape_cell_from skip rest
escape_cell_from zero (c ∷ rest) =
    let round = escape_round c rest in round.0 ++ escape_cell_from round.1 rest

abbrev pub escape_cell_html : Bytes → Bytes
escape_cell_html text = escape_cell_from 0 text

abbrev pub or_nothing : Option Bytes → Bytes
or_nothing none = []
or_nothing (some s) = s

abbrev pub last_byte : Bytes → ℕ
last_byte [] = 0
last_byte (c ∷ []) = c
last_byte (c ∷ d ∷ ds) = last_byte (d ∷ ds)

-- One fragment, and the space before the next.
abbrev pub write_fragment : Bool → Bytes → Bytes
write_fragment is_last frag =
    if is_empty frag
    then []
    else escape_cell_html frag
      ++ (if not is_last && not (last_byte frag == 32) then 32 ∷ [] else [])

unfoldable pub write_fragments : List Bytes → List ℕ → Bytes
write_fragments texts [] = []
write_fragments texts (i ∷ is) =
    write_fragment (is_empty is) (td_content (or_nothing (get_elem? texts i)))
    ++ write_fragments texts is

-- The text of one cell.
unfoldable pub write_cell : List Bytes → List ℕ → Bytes
write_cell texts [] = []
write_cell texts (i ∷ []) = escape_cell_html (or_nothing (get_elem? texts i))
write_cell texts (i ∷ j ∷ is) =
    let wrap_b = holds (codes "<b>") (or_nothing (get_elem? texts i)) in
    (if wrap_b then codes "<b>" else [])
    ++ (write_fragments texts (i ∷ j ∷ is) ++ (if wrap_b then codes "</b>" else []))

abbrev pub next_cell : List (List ℕ) → List ℕ
next_cell [] = []
next_cell (c ∷ cs) = c

abbrev pub write_slot : List Bytes → List ℕ → Bytes → Bytes
write_slot texts cell tag =
    if bytes_eq tag (codes "<td></td>")
    then codes "<td>" ++ (write_cell texts cell ++ codes "</td>")
    else write_cell texts cell ++ tag

-- The loop over the structure tokens between the wrappers.
unfoldable pub write_tokens : List Bytes → List (List ℕ) → List Bytes → Bytes
write_tokens texts cells [] = []
write_tokens texts cells (tag ∷ tags) =
    let is_slot = bytes_eq tag (codes "<td></td>") || holds (codes "</td>") tag in
    (if is_slot then write_slot texts (next_cell cells) tag else tag)
    ++ write_tokens texts (if is_slot then drop 1 cells else cells) tags

unfoldable pub concat : List Bytes → Bytes
concat [] = []
concat (t ∷ ts) = t ++ concat ts

-- kWrapTokens on either side.
unfoldable pub reconstruct_html : List Bytes → List (List ℕ) → List Bytes → Bytes
reconstruct_html structure cells ocr_texts =
    let n = length structure in
    if ltb n 6
    then concat structure
    else concat (take 3 structure)
      ++ (write_tokens ocr_texts cells (take (n - 6) (drop 3 structure))
          ++ concat (drop (n - 3) structure))
