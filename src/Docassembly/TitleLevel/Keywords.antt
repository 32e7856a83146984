-- ===== src/Docassembly/TitleLevel/Keywords.antt =====
-- Headings that need no number: `special_keywords` and `normalize_keyword` of
-- src/docassembly/title_level.cpp.
use turbo_ocr.Common.{
  ℕ, ◌+◌, ◌-◌, ◌/◌, ◌%◌, Bool, false, ◌&&◌, ◌||◌, List, [], ◌∷◌, ltb, leb, ◌==◌, if◌then◌else◌,
  Bytes, codes, bytes_eq, trim,
}
use mathlib.Core.List.{reverse}

-- The bytes of code points below 2^16 that are ASCII or take three bytes.
unfoldable pub utf8 : List ℕ → Bytes
utf8 [] = []
utf8 (c ∷ cs) =
    let rest = utf8 cs in
    if ltb c 0x80
    then c ∷ rest
    else (0xE0 + c / 4096) ∷ (0x80 + (c / 64) % 64) ∷ (0x80 + c % 64) ∷ rest

abbrev pub special_keywords : List Bytes
special_keywords =
    codes "ABSTRACT"
    ∷ codes "SUMMARY"
    ∷ codes "RESUME"
    ∷ utf8 (0x7EEA ∷ 0x8BBA ∷ [])
    ∷ utf8 (0x5F15 ∷ 0x8A00 ∷ [])
    ∷ codes "CONTENTS"
    ∷ codes "REFERENCES"
    ∷ codes "REFERENCE"
    ∷ utf8 (0x53C2 ∷ 0x8003 ∷ 0x6587 ∷ 0x732E ∷ [])
    ∷ codes "APPENDIX"
    ∷ codes "APPENDICES"
    ∷ utf8 (0x9644 ∷ 0x5F55 ∷ [])
    ∷ codes "ACKNOWLEDGMENTS"
    ∷ codes "INTRODUCTION"
    ∷ codes "BACKGROUNDANDRELATEDWORK"
    ∷ codes "BACKGROUND"
    ∷ codes "RELATEDWORK"
    ∷ codes "THEORETICALMODELS"
    ∷ codes "DATA"
    ∷ codes "METHOD"
    ∷ codes "METHODS"
    ∷ codes "METHODOLOGY"
    ∷ codes "TOPICANALYSIS"
    ∷ codes "RESULT"
    ∷ codes "RESULTS"
    ∷ codes "DISCUSSION"
    ∷ codes "CONCLUSIONS"
    ∷ codes "CONCLUSION"
    ∷ codes "LIMITATIONS"
    ∷ utf8 (0x7814 ∷ 0x7A76 ∷ 0x80CC ∷ 0x666F ∷ [])
    ∷ utf8 (0x76F8 ∷ 0x5173 ∷ 0x5DE5 ∷ 0x4F5C ∷ [])
    ∷ utf8 (0x7814 ∷ 0x7A76 ∷ 0x65B9 ∷ 0x6CD5 ∷ [])
    ∷ utf8 (0x5B9E ∷ 0x9A8C ∷ 0x7ED3 ∷ 0x679C ∷ [])
    ∷ utf8 (0x8BA8 ∷ 0x8BBA ∷ [])
    ∷ utf8 (0x7ED3 ∷ 0x8BBA ∷ [])
    ∷ utf8 (0x81F4 ∷ 0x8C22 ∷ [])
    ∷ utf8 (0x76EE ∷ 0x5F55 ∷ [])
    ∷ []

unfoldable pub to_upper : Bytes → Bytes
to_upper [] = []
to_upper (c ∷ cs) = (if leb 97 c && leb c 122 then c - 32 else c) ∷ to_upper cs

-- Colons of either width and spaces are dropped at the front of a reversed text.
unfoldable pub strip_colons : Bytes → Bytes
strip_colons (c ∷ b ∷ a ∷ rest) =
    let one = strip_colons (b ∷ a ∷ rest) in
    let three = strip_colons rest in
    if c == 58 || c == 32
    then one
    else if c == 0x9A && (b == 0xBC && a == 0xEF)
    then three
    else c ∷ b ∷ a ∷ rest
strip_colons (c ∷ b ∷ []) =
    let one = strip_colons (b ∷ []) in if c == 58 || c == 32 then one else c ∷ b ∷ []
strip_colons (c ∷ []) = if c == 58 || c == 32 then [] else c ∷ []
strip_colons [] = []

unfoldable pub drop_blanks : Bytes → Bytes
drop_blanks [] = []
drop_blanks (c ∷ cs) = let rest = drop_blanks cs in if c == 32 then rest else c ∷ rest

unfoldable pub normalize_keyword : Bytes → Bytes
unfolding to_upper strip_colons drop_blanks
normalize_keyword content = drop_blanks (reverse (strip_colons (reverse (trim (to_upper content)))))

unfoldable pub holds_text : Bytes → List Bytes → Bool
holds_text s [] = false
holds_text s (k ∷ ks) = bytes_eq s k || holds_text s ks

unfoldable pub is_special : Bytes → Bool
unfolding normalize_keyword holds_text utf8
is_special content = holds_text (normalize_keyword content) special_keywords
