-- ===== src/Formula/ByteLevel.antt =====
-- The byte-level text of a BPE vocabulary, which writes every byte as one character, back to bytes, and
-- the repair of malformed UTF-8: src/formula/ppformulanet/formula_tokenizer.cpp. A loop over a text goes
-- over its bytes with the number of those that the last step has passed already.
use turbo_ocr.Common.{
  ℕ, zero, suc, ◌+◌, ◌-◌, ◌*◌, ◌/◌, ◌%◌, Bool, true, false, ◌&&◌, ◌||◌, Option, none, some, List,
  [], ◌∷◌, ◌++◌, ◌==◌, ltb, leb, if◌then◌else◌, length, get_elem?, set, take, replicate, Bytes,
  codes,
}
use turbo_ocr.Serialization.Escape.{continues, replacement}
use turbo_ocr.TableHtml.Texts.{starts_with}

-- The bytes that stand for themselves.
abbrev pub is_printable : ℕ → Bool
is_printable b = (leb 33 b && leb b 126) || ((leb 161 b && leb b 172) || (leb 174 b && leb b 255))

-- The loop over the bytes from `b` on, `k` of them; `n` counts those that do not stand for themselves.
-- A code point outside the table is not written, as in the source.
unfoldable pub fill_decoder : ℕ → ℕ → ℕ → List (Option ℕ) → List (Option ℕ)
fill_decoder zero b n m = m
fill_decoder (suc k) b n m =
    let cp = if is_printable b then b else 256 + n in
    let n' = if is_printable b then n else suc n in fill_decoder k (suc b) n' (set m cp (some b))

unfoldable pub byte_decoder_table : List (Option ℕ)
unfolding fill_decoder
byte_decoder_table = fill_decoder 256 0 0 (replicate 324 none)

-- The length that a first byte announces, when as many bytes are left, else 0.
unfoldable pub code_length : ℕ → ℕ → ℕ
code_length c left =
    if ltb c 128
    then 1
    else if c / 32 == 6 && leb 1 left
    then 2
    else if c / 16 == 14 && leb 2 left
    then 3
    else if c / 8 == 30 && leb 3 left
    then 4
    else 0

abbrev pub lead_bits : ℕ → ℕ → ℕ
lead_bits c len =
    if len == 1 then c else if len == 2 then c % 32 else if len == 3 then c % 16 else c % 8

-- The bits of `n` more bytes behind those read.
unfoldable pub sequence_code : ℕ → ℕ → Bytes → ℕ
sequence_code cp zero cs = cp
sequence_code cp (suc n) [] = cp
sequence_code cp (suc n) (c ∷ cs) = sequence_code (cp * 64 + c % 64) n cs

abbrev pub byte_at : Option (Option ℕ) → Option ℕ
byte_at none = none
byte_at (some found) = found

unfoldable pub byte_of : ℕ → Option ℕ
unfolding byte_decoder_table
byte_of cp = byte_at (get_elem? byte_decoder_table cp)

-- A code point that stands for no byte is passed through.
abbrev pub decoded : Option ℕ → Bytes → Bytes
decoded (some b) written = b ∷ []
decoded none written = written

-- A valid sequence begins here.
unfoldable pub is_valid : ℕ → Bytes → Bool
is_valid len cs = leb 1 len && continues (len - 1) cs

-- What a valid sequence is read as.
abbrev pub read_sequence : ℕ → ℕ → Bytes → Bytes
read_sequence len c cs =
    decoded (byte_of (sequence_code (lead_bits c len) (len - 1) cs)) (take len (c ∷ cs))

unfoldable pub decode_bytes : ℕ → Bytes → Bytes
decode_bytes skip [] = []
decode_bytes (suc skip) (c ∷ cs) = decode_bytes skip cs
decode_bytes zero (c ∷ cs) =
    let len = code_length c (length cs) in
    elim (is_valid len cs) [
      | true ↦ read_sequence len c cs ++ decode_bytes (len - 1) cs
      | false ↦ c ∷ decode_bytes zero cs
    ]

unfoldable pub sequence_len : ℕ → ℕ
sequence_len c =
    if ltb c 128
    then 1
    else if c / 32 == 6
    then 2
    else if c / 16 == 14
    then 3
    else if c / 8 == 30
    then 4
    else 0

-- With `copied` bytes of a sequence still to append.
unfoldable pub sanitize_from : ℕ → Bytes → Bytes
sanitize_from copied [] = []
sanitize_from (suc copied) (c ∷ cs) = c ∷ sanitize_from copied cs
sanitize_from zero (c ∷ cs) = elim (is_valid (sequence_len c) cs) [
  | true ↦ c ∷ sanitize_from (sequence_len c - 1) cs
  | false ↦ replacement ++ sanitize_from zero cs
]

unfoldable pub utf8_sanitize : Bytes → Bytes
utf8_sanitize s = sanitize_from zero s

unfoldable pub byte_level_to_utf8 : Bytes → Bytes
byte_level_to_utf8 s = utf8_sanitize (decode_bytes zero s)

abbrev pub markers : List Bytes
markers = codes "[EOS]" ∷ codes "[BOS]" ∷ codes "[PAD]" ∷ []

-- The length of the first marker that stands at the front, or 0.
unfoldable pub marker_len : List Bytes → Bytes → ℕ
marker_len [] s = 0
marker_len (m ∷ ms) s = let later = marker_len ms s in if starts_with m s then length m else later

abbrev pub skip_here : ℕ → Bytes → ℕ
skip_here c cs = if c == b'[' then marker_len markers (c ∷ cs) else 0

unfoldable pub strip_from : ℕ → Bytes → Bytes
strip_from skip [] = []
strip_from (suc skip) (c ∷ cs) = strip_from skip cs
strip_from zero (c ∷ cs) = elim (skip_here c cs) [
  | zero ↦ c ∷ strip_from zero cs
  | suc skip ↦ strip_from skip cs
]

unfoldable pub strip_frame_markers : Bytes → Bytes
strip_frame_markers s = strip_from zero s
