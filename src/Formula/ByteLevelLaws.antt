-- ===== src/Formula/ByteLevelLaws.antt =====
-- The byte-level text of a vocabulary reads back as the bytes that it was made from.
use turbo_ocr.Common.{
  ℕ, zero, suc, ◌+◌, ◌-◌, ◌/◌, ◌%◌, ◌<◌, ◌≤◌, ◌≡◌, ◌≢◌, refl, sym, ap, subst, ◌∙◌, Bool, true,
  false, ◌&&◌, Option, none, some, List, [], ◌∷◌, ◌++◌, ltb, ◌==◌, ==_iff, if◌then◌else◌, length,
  get_elem?, take, Bytes, IsByte, All, Bool-cases, inl, inr, arith,
}
use turbo_ocr.Serialization.Escape.{continues}
use turbo_ocr.Formula.ByteLevel.{
  is_printable, byte_decoder_table, code_length, sequence_code, byte_at, byte_of, decoded,
  read_sequence, is_valid, decode_bytes, sequence_len, sanitize_from, utf8_sanitize,
  byte_level_to_utf8,
}
use turbo_ocr.Formula.Utf8.{take_byte, reads_utf8, reads_utf8-taken, IsUtf8}

-- The character that a byte-level vocabulary writes for a byte: itself when it is printable, else one of
-- those from 256 on, in order.
abbrev pub unicode_of : ℕ → ℕ
unicode_of b =
    if is_printable b then b else if ltb b 33 then 256 + b else if ltb b 173 then 162 + b else 323

-- The UTF-8 of a code point below 2048.
abbrev pub write_utf8 : ℕ → Bytes
write_utf8 cp = if ltb cp 128 then cp ∷ [] else (192 + cp / 64) ∷ (128 + cp % 64) ∷ []

-- The byte-level text of a string of bytes.
unfoldable pub bytes_to_unicode : Bytes → Bytes
bytes_to_unicode [] = []
bytes_to_unicode (b ∷ bs) = write_utf8 (unicode_of b) ++ bytes_to_unicode bs

-- A test of every one of `count` numbers from `start` on.
passes_from : ℕ → ℕ → (ℕ → Bool) → Bool
passes_from start zero test = true
passes_from start (suc count) test = test start && passes_from (suc start) count test

passes_from-at :
    (test : ℕ → Bool) (b start count : ℕ)
    → start ≤ b
    → b < start + count
    → passes_from start count test ≡ true
    → test b ≡ true
unfolding passes_from
passes_from-at test b start zero low high all = absurd (omega arith)
passes_from-at test b start (suc count) low high all = elim (Bool-cases (start == b)) [
  | inl here ↦ subst (λ n. test n ≡ true) ((==_iff start b).0 here) (ground (arith, all))
  | inr later ↦
      passes_from-at test b (suc start) count (ground arith) (omega arith) (ground (arith, all))
]

abbrev is_byte : Option ℕ → ℕ → Bool
is_byte none b = false
is_byte (some x) b = x == b

is_byte-some : (o : Option ℕ) (b : ℕ) → is_byte o b ≡ true → o ≡ some b
is_byte-some none b h = absurd (cc h)
is_byte-some (some x) b h = ap some ((==_iff x b).0 h)

abbrev reads_byte : List (Option ℕ) → ℕ → Bool
reads_byte table b = is_byte (byte_at (get_elem? table (unicode_of b))) b

all_bytes : List (Option ℕ) → Bool
all_bytes table = passes_from 0 256 (reads_byte table)

all_bytes_table : all_bytes byte_decoder_table ≡ true
unfolding all_bytes passes_from byte_decoder_table
all_bytes_table = refl

byte_of-unicode_of : (b : ℕ) → IsByte b → byte_of (unicode_of b) ≡ some b
unfolding byte_of all_bytes
byte_of-unicode_of b h =
    is_byte-some _ b
      (passes_from-at (reads_byte byte_decoder_table) b 0 256 (omega arith) h all_bytes_table)

unicode_of_bounds : (b : ℕ) → IsByte b → unicode_of b < 2048
unicode_of_bounds b h = ground arith

decode_bytes-valid :
    (c : ℕ) (cs : Bytes)
    → is_valid (code_length c (length cs)) cs ≡ true
    → decode_bytes zero (c ∷ cs)
      ≡ read_sequence (code_length c (length cs)) c cs
        ++ decode_bytes (code_length c (length cs) - 1) cs
unfolding decode_bytes
decode_bytes-valid c cs valid = rw (decode_bytes, valid) refl

decode_bytes-sequence :
    (len c : ℕ) (cs : Bytes)
    → code_length c (length cs) ≡ len
    → is_valid len cs ≡ true
    → decode_bytes zero (c ∷ cs) ≡ read_sequence len c cs ++ decode_bytes (len - 1) cs
decode_bytes-sequence len c cs e valid =
    let Reads = λ (n : ℕ).
      is_valid n cs ≡ true
      → decode_bytes zero (c ∷ cs) ≡ read_sequence n c cs ++ decode_bytes (n - 1) cs in
    subst Reads e (decode_bytes-valid c cs) valid

decode_bytes-one :
    (cp b : ℕ) (rest : Bytes)
    → cp < 128
    → byte_of cp ≡ some b
    → decode_bytes zero (cp ∷ rest) ≡ b ∷ decode_bytes zero rest
unfolding code_length is_valid continues sequence_code
decode_bytes-one cp b rest h found =
    decode_bytes-sequence 1 cp rest (ground arith) refl
    ∙ ap (λ (o : Option ℕ). decoded o (cp ∷ []) ++ decode_bytes zero rest) found

-- The bits of a code point below 2048, from its two bytes.
two_bytes-sequence_code :
    (cp : ℕ) (rest : Bytes)
    → cp < 2048
    → sequence_code ((192 + cp / 64) % 32) 1 ((128 + cp % 64) ∷ rest) ≡ cp
unfolding sequence_code
two_bytes-sequence_code cp rest h = omega arith

two_bytes-code_length :
    (cp left : ℕ) → 128 ≤ cp → cp < 2048 → code_length (192 + cp / 64) (suc left) ≡ 2
unfolding code_length
two_bytes-code_length cp left low high =
    let six : (192 + cp / 64) / 32 ≡ 6 = omega arith in
    let high_bit : 128 ≤ 192 + cp / 64 = omega arith in ground (arith, six, high_bit)

two_bytes-is_valid : (cp : ℕ) (rest : Bytes) → is_valid 2 ((128 + cp % 64) ∷ rest) ≡ true
unfolding is_valid continues
two_bytes-is_valid cp rest = let two : (128 + cp % 64) / 64 ≡ 2 = omega arith in ground (arith, two)

decode_bytes-two :
    (cp b : ℕ) (rest : Bytes)
    → 128 ≤ cp
    → cp < 2048
    → byte_of cp ≡ some b
    → decode_bytes zero ((192 + cp / 64) ∷ (128 + cp % 64) ∷ rest) ≡ b ∷ decode_bytes zero rest
unfolding decode_bytes
decode_bytes-two cp b rest low high found =
    let tail = (128 + cp % 64) ∷ rest in
    let point = ap byte_of (two_bytes-sequence_code cp rest high) ∙ found in
    decode_bytes-sequence 2 (192 + cp / 64) tail (two_bytes-code_length cp (length rest) low high)
      (two_bytes-is_valid cp rest)
    ∙ ap (λ (o : Option ℕ). decoded o (take 2 ((192 + cp / 64) ∷ tail)) ++ decode_bytes 1 tail)
        point

decode_bytes-write_utf8 :
    (cp b : ℕ) (rest : Bytes)
    → cp < 2048
    → byte_of cp ≡ some b
    → decode_bytes zero (write_utf8 cp ++ rest) ≡ b ∷ decode_bytes zero rest
decode_bytes-write_utf8 cp b rest high found = elim (Bool-cases (ltb cp 128)) [
  | inl e ↦ rw e (decode_bytes-one cp b rest (ground arith) found)
  | inr e ↦ rw e (decode_bytes-two cp b rest (ground arith) high found)
]

pub decode_bytes-bytes_to_unicode :
    (bs : Bytes) → All IsByte bs → decode_bytes zero (bytes_to_unicode bs) ≡ bs
unfolding bytes_to_unicode
decode_bytes-bytes_to_unicode [] h = unfold decode_bytes in refl
decode_bytes-bytes_to_unicode (b ∷ bs) (here, there) =
    decode_bytes-write_utf8 (unicode_of b) b (bytes_to_unicode bs) (unicode_of_bounds b here)
      (byte_of-unicode_of b here)
    ∙ ap (◌∷◌ b) (decode_bytes-bytes_to_unicode bs there)

-- Where the reader waits for bytes, they are there.
take_byte-continues :
    (left c more : ℕ) → take_byte (suc left) c ≡ some more → (c / 64 ≡ 2) × (more ≡ left)
unfolding take_byte
take_byte-continues left c more h = (ground arith, ground arith)

reads_utf8-left_open : (left : ℕ) → reads_utf8 (suc left) [] ≢ true
unfolding reads_utf8
reads_utf8-left_open left h = ground arith

reads_utf8-continues : (left : ℕ) (s : Bytes) → reads_utf8 left s ≡ true → continues left s ≡ true
unfolding continues
reads_utf8-continues zero s h = refl
reads_utf8-continues (suc left) [] h = absurd (reads_utf8-left_open left h)
reads_utf8-continues (suc left) (c ∷ cs) h =
    let (more, taken, later) = reads_utf8-taken (suc left) c cs h in
    let (tail, same) = take_byte-continues left c more taken in
    let rest = reads_utf8-continues left cs (subst (λ n. reads_utf8 n cs ≡ true) same later) in
    ground (arith, tail, rest)

take_byte-sequence_len : (c more : ℕ) → take_byte 0 c ≡ some more → sequence_len c ≡ suc more
unfolding take_byte sequence_len
take_byte-sequence_len c more h = ground arith

-- Nothing is replaced in UTF-8.
sanitize_from-reads_utf8 :
    (left : ℕ) (s : Bytes) → reads_utf8 left s ≡ true → sanitize_from left s ≡ s
unfolding sanitize_from
sanitize_from-reads_utf8 zero [] h = refl
sanitize_from-reads_utf8 (suc left) [] h = refl
sanitize_from-reads_utf8 (suc left) (c ∷ cs) h =
    let (more, taken, later) = reads_utf8-taken (suc left) c cs h in
    let same = (take_byte-continues left c more taken).1 in
    ap (◌∷◌ c) (sanitize_from-reads_utf8 left cs (subst (λ n. reads_utf8 n cs ≡ true) same later))
sanitize_from-reads_utf8 zero (c ∷ cs) h =
    let (more, taken, later) = reads_utf8-taken zero c cs h in
    let len = take_byte-sequence_len c more taken in
    let left : sequence_len c - 1 ≡ more = omega (arith, len) in
    let tail = subst (λ n. continues n cs ≡ true) (sym left) (reads_utf8-continues more cs later) in
    let valid : is_valid (sequence_len c) cs ≡ true =
      unfold is_valid in ground (arith, len, tail) in
    rw (sanitize_from, valid, left) (ap (◌∷◌ c) (sanitize_from-reads_utf8 more cs later))

-- A text of UTF-8 bytes that a byte-level vocabulary spells, character for byte, reads back as the text.
pub byte_level_to_utf8-bytes_to_unicode :
    (text : Bytes)
    → All IsByte text
    → IsUtf8 text
    → byte_level_to_utf8 (bytes_to_unicode text) ≡ text
unfolding byte_level_to_utf8 utf8_sanitize
byte_level_to_utf8-bytes_to_unicode text bytes utf8 =
    ap (sanitize_from 0) (decode_bytes-bytes_to_unicode text bytes)
    ∙ sanitize_from-reads_utf8 0 text utf8
