-- ===== src/Serialization/Escape.antt =====
-- `append_escaped_string` of include/turbo_ocr/common/serialization/serialization_primitives.h.
use turbo_ocr.Common.{
  ℕ, zero, suc, ◌+◌, ◌-◌, ◌/◌, ◌%◌, Bool, true, false, ◌&&◌, [], ◌∷◌, ◌++◌, ◌==◌, ltb, leb,
  if◌then◌else◌, Bytes,
}

abbrev pub hex_digit : ℕ → ℕ
hex_digit d = if ltb d 10 then b'0' + d else b'a' + (d - 10)

-- A byte below 0x80.
unfoldable pub escape_ascii : ℕ → Bytes
escape_ascii c =
    if c == 34
    then 92 ∷ 34 ∷ []
    else if c == 92
    then 92 ∷ 92 ∷ []
    else if c == 8
    then 92 ∷ b'b' ∷ []
    else if c == 12
    then 92 ∷ b'f' ∷ []
    else if c == 10
    then 92 ∷ b'n' ∷ []
    else if c == 13
    then 92 ∷ b'r' ∷ []
    else if c == 9
    then 92 ∷ b't' ∷ []
    else if ltb c 32
    then 92 ∷ b'u' ∷ b'0' ∷ b'0' ∷ hex_digit (c / 16) ∷ hex_digit (c % 16) ∷ []
    else c ∷ []

-- The length of the UTF-8 sequence that a byte starts, 0 for none.
unfoldable pub utf8_len : ℕ → ℕ
utf8_len c = if c / 32 == 6 then 2 else if c / 16 == 14 then 3 else if c / 8 == 30 then 4 else 0

-- The next n bytes are there and continue a sequence.
unfoldable pub continues : ℕ → Bytes → Bool
continues zero cs = true
continues (suc n) [] = false
continues (suc n) (c ∷ cs) = c / 64 == 2 && continues n cs

unfoldable pub is_sequence : ℕ → Bytes → Bool
is_sequence len cs = leb 2 len && continues (len - 1) cs

abbrev pub replacement : Bytes
replacement = 239 ∷ 191 ∷ 189 ∷ []

-- The loop, with `copied` bytes of a sequence still to copy.
unfoldable pub escape_from : ℕ → Bytes → Bytes
escape_from copied [] = []
escape_from (suc copied) (c ∷ cs) = c ∷ escape_from copied cs
escape_from zero (c ∷ cs) = elim (ltb c 128) [
  | true ↦ escape_ascii c ++ escape_from zero cs
  | false ↦ elim (is_sequence (utf8_len c) cs) [
    | true ↦ c ∷ escape_from (utf8_len c - 1) cs
    | false ↦ replacement ++ escape_from zero cs
  ]
]

unfoldable pub append_escaped_string : Bytes → Bytes → Bytes
append_escaped_string j s = j ++ escape_from zero s
