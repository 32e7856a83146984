-- ===== src/Serialization/Tests.antt =====
-- The escaping of concrete strings, and the theorem at one.
use turbo_ocr.Common.{◌≡◌, refl, ◌++◌, [], ◌∷◌, some, Bytes, codes}
use turbo_ocr.Serialization.Escape.{
  escape_ascii, utf8_len, continues, is_sequence, escape_from, append_escaped_string,
}
use turbo_ocr.Formula.ByteLevel.{utf8_sanitize}
use turbo_ocr.Formula.Utf8.{IsUtf8}
use turbo_ocr.Serialization.EscapeLaws.{append_escaped_string-reads}
use turbo_ocr.Serialization.JsonString.{plain, read_string}

-- A quote, a line feed, a control byte, the two bytes of `é`, and a byte that starts nothing.
abbrev mixed : Bytes
mixed = 34 ∷ 10 ∷ 1 ∷ 195 ∷ 169 ∷ 255 ∷ []

escapes_mixed :
    append_escaped_string [] mixed ≡ codes "\\\"\\n\\u0001" ++ 195 ∷ 169 ∷ 239 ∷ 191 ∷ 189 ∷ []
unfolding append_escaped_string escape_from escape_ascii utf8_len continues is_sequence
escapes_mixed = refl

append_escaped_string-reads_example :
    (added : Bytes) × (append_escaped_string (codes "{") mixed ≡ codes "{" ++ added)
    × IsUtf8 added
    × (read_string plain (added ++ 34 ∷ codes "}") ≡ some (utf8_sanitize mixed, codes "}"))
append_escaped_string-reads_example = append_escaped_string-reads (codes "{") mixed (codes "}")
