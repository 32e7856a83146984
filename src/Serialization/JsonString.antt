-- ===== src/Serialization/JsonString.antt =====
-- A reader of JSON string literals, by RFC 8259.
use turbo_ocr.Common.{
  ℕ, zero, suc, ◌+◌, ◌-◌, ◌*◌, ◌&&◌, Option, none, some, [], ◌∷◌, ◌==◌, ltb, leb, if◌then◌else◌,
  Bytes,
}

-- Where a reader stands behind the opening quote: between characters, behind a backslash, or with digits
-- of a \\u escape still to come behind those of a value.
pub data Mode : Type 0 where
  plain escaped : Mode
  digits : ℕ → ℕ → Mode

-- What a byte does to it: ends the string, is refused, or goes on, with a character read or without.
pub data Outcome : Type 0 where
  closed refused : Outcome
  reads : ℕ → Outcome
  goes : Mode → Outcome

abbrev hex_value : ℕ → Option ℕ
hex_value c =
    if leb 48 c && leb c 57
    then some (c - 48)
    else if leb 97 c && leb c 102
    then some (c - 87)
    else if leb 65 c && leb c 70
    then some (c - 55)
    else none

abbrev add_digit : ℕ → ℕ → Option ℕ → Outcome
add_digit left value none = refused
add_digit zero value (some d) = if ltb (value * 16 + d) 128 then reads (value * 16 + d) else refused
add_digit (suc left) value (some d) = goes (digits left (value * 16 + d))

-- RFC 8259, with the letters of the short escapes; a \\u escape is read for code points below 128 only,
-- and refused for others.
unfoldable pub take_char : Mode → ℕ → Outcome
take_char plain c =
    if c == 34
    then closed
    else if c == 92
    then goes escaped
    else if ltb c 32
    then refused
    else reads c
take_char escaped c =
    if c == 34
    then reads 34
    else if c == 92
    then reads 92
    else if c == b'/'
    then reads b'/'
    else if c == b'b'
    then reads 8
    else if c == b'f'
    then reads 12
    else if c == b'n'
    then reads 10
    else if c == b'r'
    then reads 13
    else if c == b't'
    then reads 9
    else if c == b'u'
    then goes (digits 3 0)
    else refused
take_char (digits left value) c = add_digit left value (hex_value c)

abbrev pub prepend : ℕ → Option (Bytes × Bytes) → Option (Bytes × Bytes)
prepend c none = none
prepend c (some (content, rest)) = some (c ∷ content, rest)

-- The text of a string literal and what follows its closing quote, or nothing when the literal is bad.
unfoldable pub read_string : Mode → Bytes → Option (Bytes × Bytes)
read_string mode [] = none
read_string mode (c ∷ cs) = elim (take_char mode c) [
  | closed ↦ some ([], cs)
  | refused ↦ none
  | reads d ↦ prepend d (read_string plain cs)
  | goes next ↦ read_string next cs
]
