-- ===== src/TableHtml/Texts.antt =====
-- Searches in texts, for std::string::find and the classes of <cctype> in the C locale.
use turbo_ocr.Common.{
  ℕ, ◌+◌, Bool, true, false, ◌&&◌, ◌||◌, Option, none, some, [], ◌∷◌, leb, ◌==◌, if◌then◌else◌,
  Bytes,
}

unfoldable pub ascii_lower : Bytes → Bytes
ascii_lower [] = []
ascii_lower (c ∷ cs) = (if leb 65 c && leb c 90 then c + 32 else c) ∷ ascii_lower cs

unfoldable pub is_alnum : ℕ → Bool
is_alnum c = (leb 48 c && leb c 57) || ((leb 65 c && leb c 90) || (leb 97 c && leb c 122))

unfoldable pub starts_with : Bytes → Bytes → Bool
starts_with [] s = true
starts_with (p ∷ ps) [] = false
starts_with (p ∷ ps) (c ∷ cs) = p == c && starts_with ps cs

-- What stands before the first `c` and what behind it. `none`: there is no `c`.
abbrev pub prepend : ℕ → Option (Bytes × Bytes) → Option (Bytes × Bytes)
prepend c none = none
prepend c (some (before, after)) = some (c ∷ before, after)

unfoldable pub split_first : ℕ → Bytes → Option (Bytes × Bytes)
split_first c [] = none
split_first c (d ∷ ds) =
    let later = split_first c ds in if d == c then some ([], ds) else prepend d later

-- The text from the first place on where `needle` stands in lower case.
unfoldable pub find_lower : Bytes → Bytes → Option Bytes
find_lower needle [] = if starts_with needle [] then some [] else none
find_lower needle (c ∷ cs) =
    let later = find_lower needle cs in
    if starts_with needle (ascii_lower (c ∷ cs)) then some (c ∷ cs) else later
