-- ===== src/Docassembly/TitleLevel/Symbols.antt =====
-- The numbering of a heading: `get_symbol_and_level` of src/docassembly/title_level.cpp. A place in a text
-- is what stands from there on.
use turbo_ocr.Common.{
  ℕ, zero, suc, ◌+◌, ◌*◌, ◌/◌, ◌%◌, Bool, false, not, ◌&&◌, ◌||◌, Option, none, some, List, [], ◌∷◌,
  ltb, leb, ◌==◌, if◌then◌else◌, is_empty, drop, Bytes, codes, is_space, trim, trim_left, ℤ, pos,
  negsuc,
}

pub record SymbolLevel : Type 0 where
  pub symbol : Bytes
  pub level : ℤ

abbrev pub no_symbol : SymbolLevel
no_symbol = record { symbol = []; level = negsuc 0 }

abbrev pub low_bits : ℕ → ℕ
low_bits b = b % 64

-- The code point at the front, and its length in bytes.
unfoldable pub utf8_cp : Bytes → ℕ × ℕ
utf8_cp [] = (0, 0)
utf8_cp (a ∷ []) = (a, 1)
utf8_cp (a ∷ b ∷ []) =
    if not (ltb a 0x80) && a / 32 == 6 then ((a % 32) * 64 + low_bits b, 2) else (a, 1)
utf8_cp (a ∷ b ∷ c ∷ []) =
    if ltb a 0x80
    then (a, 1)
    else if a / 32 == 6
    then ((a % 32) * 64 + low_bits b, 2)
    else if a / 16 == 14
    then ((a % 16) * 4096 + low_bits b * 64 + low_bits c, 3)
    else (a, 1)
utf8_cp (a ∷ b ∷ c ∷ d ∷ rest) =
    if ltb a 0x80
    then (a, 1)
    else if a / 32 == 6
    then ((a % 32) * 64 + low_bits b, 2)
    else if a / 16 == 14
    then ((a % 16) * 4096 + low_bits b * 64 + low_bits c, 3)
    else if a / 8 == 30
    then ((a % 8) * 262144 + low_bits b * 4096 + low_bits c * 64 + low_bits d, 4)
    else (a, 1)

abbrev pub fw_lparen : ℕ
fw_lparen = 0xFF08

abbrev pub fw_rparen : ℕ
fw_rparen = 0xFF09

abbrev pub fw_period : ℕ
fw_period = 0xFF0E

abbrev pub di : ℕ
di = 0x7B2C

unfoldable pub is_one_of : List ℕ → ℕ → Bool
is_one_of [] c = false
is_one_of (x ∷ xs) c = c == x || is_one_of xs c

abbrev pub chinese_nums : List ℕ
chinese_nums =
    0x4E00 ∷ 0x4E8C ∷ 0x4E09 ∷ 0x56DB ∷ 0x4E94 ∷ 0x516D ∷ 0x4E03 ∷ 0x516B ∷ 0x4E5D ∷ 0x5341 ∷ []

abbrev pub chinese_units : List ℕ
chinese_units =
    0x7AE0 ∷ 0x8282 ∷ 0x7BC7 ∷ 0x5377 ∷ 0x90E8 ∷ 0x6761 ∷ 0x9898 ∷ 0x8BB2 ∷ 0x8BFE ∷ 0x56DE ∷ []

abbrev pub is_digit : ℕ → Bool
is_digit c = leb 48 c && leb c 57

abbrev pub starts_digit : Bytes → Bool
starts_digit [] = false
starts_digit (c ∷ cs) = is_digit c

abbrev pub add_dot : ℕ × Bytes → ℕ × Bytes
add_dot (dots, rest) = (suc dots, rest)

-- Behind the first digit of a number: its dots, and what follows it.
unfoldable pub number_tail : Bytes → ℕ × Bytes
number_tail [] = (0, [])
number_tail (c ∷ cs) =
    let tail = number_tail cs in
    if is_digit c then tail else if c == 46 && starts_digit cs then add_dot tail else (0, c ∷ cs)

abbrev pub match_number : Bytes → Option (ℕ × Bytes)
match_number [] = none
match_number (c ∷ cs) = if is_digit c then some (number_tail cs) else none

-- Does this byte stand at the front?
abbrev pub starts_byte : ℕ → Bytes → Bool
starts_byte b [] = false
starts_byte b (c ∷ cs) = c == b

-- A closing parenthesis of either width.
abbrev pub starts_rparen : Bytes → Bool
starts_rparen s = starts_byte 41 s || (utf8_cp s).0 == fw_rparen

abbrev pub behind_lparen : Bytes → Bytes
behind_lparen s =
    if starts_byte 40 s
    then drop 1 s
    else if (utf8_cp s).0 == fw_lparen
    then drop (utf8_cp s).1 s
    else s

abbrev pub bracket_level : Option (ℕ × Bytes) → Option SymbolLevel
bracket_level none = none
bracket_level (some (dots, rest)) =
    if starts_rparen rest
    then some (record { symbol = codes "NUM_LIST_BRACKET"; level = pos 4 })
    else none

unfoldable pub match_bracket : Bytes → Option SymbolLevel
match_bracket txt = bracket_level (match_number (behind_lparen (trim_left txt)))

-- `strchr` finds its terminator too, so a byte of 0 passes.
abbrev pub is_roman : ℕ → Bool
is_roman c = is_one_of (73 ∷ 86 ∷ 88 ∷ 105 ∷ 118 ∷ 120 ∷ 0 ∷ []) c

unfoldable pub skip_roman : Bytes → Bytes
skip_roman [] = []
skip_roman (c ∷ cs) = let rest = skip_roman cs in if is_roman c then rest else c ∷ cs

-- What may stand behind a Roman numeral or a letter.
abbrev pub ends_symbol : Bytes → Bool
ends_symbol [] = false
ends_symbol (c ∷ cs) = c == 46 || (c == 41 || (is_space c || (utf8_cp (c ∷ cs)).0 == fw_period))

abbrev pub starts_roman : Bytes → Bool
starts_roman [] = false
starts_roman (c ∷ cs) = is_roman c

unfoldable pub match_roman : Bytes → Option SymbolLevel
unfolding skip_roman
match_roman txt =
    let p = trim_left txt in
    let rest = skip_roman p in
    if starts_roman p && (is_empty rest || ends_symbol rest)
    then some (record { symbol = codes "ROMAN"; level = pos 1 })
    else none

abbrev pub behind_prefix : Bytes → Bytes
behind_prefix s = if (utf8_cp s).0 == di then drop (utf8_cp s).1 s else behind_lparen s

-- At most `most` Chinese numerals: how many, and what follows them.
unfoldable pub take_chinese : ℕ → Bytes → ℕ × Bytes
take_chinese zero s = (0, s)
take_chinese (suc most) [] = (0, [])
take_chinese (suc most) (c ∷ cs) =
    let (cp, len) = utf8_cp (c ∷ cs) in
    let (count, rest) = take_chinese most (drop len (c ∷ cs)) in
    if is_one_of chinese_nums cp then (suc count, rest) else (0, c ∷ cs)

abbrev pub is_letter : ℕ → Bool
is_letter c = leb 65 c && leb c 90 || (leb 97 c && leb c 122 || leb 0x4E00 c && leb c 0x9FA5)

abbrev pub ends_chinese : Bytes → Bool
ends_chinese rest =
    let cp = (utf8_cp rest).0 in
    is_empty rest
    || (is_one_of chinese_units cp
        || (cp == fw_rparen || (starts_byte 41 rest || not (is_letter cp))))

unfoldable pub match_chinese : Bytes → Option SymbolLevel
unfolding take_chinese
match_chinese txt =
    let (count, rest) = take_chinese 2 (behind_prefix (trim_left txt)) in
    if ltb 0 count && ends_chinese rest
    then some (record { symbol = codes "CHINESE_NUM"; level = pos 1 })
    else none

abbrev pub is_alpha : ℕ → Bool
is_alpha c = leb 65 c && leb c 90 || leb 97 c && leb c 122

abbrev pub letter_level : Bytes → Option SymbolLevel
letter_level [] = none
letter_level (c ∷ rest) =
    if is_alpha c && ends_symbol rest
    then some (record { symbol = codes "LETTER"; level = pos 2 })
    else none

abbrev pub list_level : Option (ℕ × Bytes) → Option SymbolLevel
list_level none = none
list_level (some (dots, rest)) =
    if starts_rparen rest
    then none
    else some (record { symbol = codes "NUM_LIST"; level = pos (dots + 1) })

abbrev pub or_match : Option SymbolLevel → Option SymbolLevel → Option SymbolLevel
or_match (some found) later = some found
or_match none later = later

abbrev pub or_no_symbol : Option SymbolLevel → SymbolLevel
or_no_symbol (some found) = found
or_no_symbol none = no_symbol

unfoldable pub match_symbol : Bytes → Option SymbolLevel
unfolding match_bracket match_roman match_chinese number_tail utf8_cp is_one_of
match_symbol txt = or_match (match_bracket txt) (
    or_match (match_roman txt) (
      or_match (match_chinese txt)
        (or_match (letter_level (trim_left txt)) (list_level (match_number (trim_left txt))))))

unfoldable pub get_symbol_and_level : Bytes → SymbolLevel
unfolding match_symbol
get_symbol_and_level content =
    if is_empty (trim content) then no_symbol else or_no_symbol (match_symbol (trim content))
