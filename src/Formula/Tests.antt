-- ===== src/Formula/Tests.antt =====
-- Token texts and a small vocabulary, run, and the theorems at them.
use turbo_ocr.Common.{
  ℕ, ◌+◌, ◌^◌, ◌≤◌, ◌<◌, ◌≡◌, refl, Bool, true, Option, none, some, List, [], ◌∷◌, length,
  get_elem?, Bytes, codes, All, trim, trim_left, is_space, pos, negsuc, arith, bytes_eq,
}
use turbo_ocr.Serialization.Escape.{continues}
use turbo_ocr.TableHtml.Texts.{starts_with}
use mathlib.Core.Option.{bind}
use turbo_ocr.Formula.ByteLevel.{
  byte_decoder_table, code_length, sequence_code, byte_of, is_valid, decode_bytes, sequence_len,
  sanitize_from, utf8_sanitize, byte_level_to_utf8, marker_len, strip_from, strip_frame_markers,
}
use turbo_ocr.Formula.Tokenizer.{
  TokenizerJson, FormulaTokenizer, raise_max, max_of_vocab, max_of_added, write_vocab, write_added,
  fill, load_vocab, load, is_member, raw_text, decode_raw, decode,
}
use turbo_ocr.Formula.Utf8.{take_byte, reads_utf8, IsUtf8}
use turbo_ocr.Formula.ByteLevelLaws.{bytes_to_unicode, byte_level_to_utf8-bytes_to_unicode}
use turbo_ocr.Formula.DecodeLaws.{decode-IsUtf8}
use turbo_ocr.Formula.VocabBounds.{added_entries}
use turbo_ocr.Formula.VocabLaws.{last_token, last_eos, file_entries, load_vocab-last_token}

-- `a`, a space, and a Chinese character of three bytes.
abbrev mixed_text : Bytes
mixed_text = 97 ∷ 32 ∷ 230 ∷ 138 ∷ 149 ∷ []

-- The space is written as U+0120, and the bytes of the character as U+00E6, U+012C and U+0137.
spells_mixed : bytes_to_unicode mixed_text ≡ 97 ∷ 196 ∷ 160 ∷ 195 ∷ 166 ∷ 196 ∷ 172 ∷ 196 ∷ 183 ∷ []
unfolding bytes_to_unicode
spells_mixed = refl

reads_mixed :
    byte_level_to_utf8 (97 ∷ 196 ∷ 160 ∷ 195 ∷ 166 ∷ 196 ∷ 172 ∷ 196 ∷ 183 ∷ []) ≡ mixed_text
unfolding byte_level_to_utf8 utf8_sanitize decode_bytes sanitize_from sequence_len code_length
    is_valid continues sequence_code byte_of byte_decoder_table
reads_mixed = refl

mixed-IsUtf8 : IsUtf8 mixed_text
unfolding reads_utf8 take_byte
mixed-IsUtf8 = refl

byte_level_to_utf8-bytes_to_unicode_example :
    byte_level_to_utf8 (bytes_to_unicode mixed_text) ≡ mixed_text
byte_level_to_utf8-bytes_to_unicode_example =
    byte_level_to_utf8-bytes_to_unicode mixed_text (omega arith) mixed-IsUtf8

-- A lone continuation byte is replaced; the overlong form C0 80 and the surrogate ED A0 80, which no
-- valid UTF-8 is_byte, pass.
sanitizes_malformed : utf8_sanitize (149 ∷ 97 ∷ []) ≡ 239 ∷ 191 ∷ 189 ∷ 97 ∷ []
unfolding utf8_sanitize sanitize_from sequence_len is_valid continues
sanitizes_malformed = refl

keeps_overlong : utf8_sanitize (192 ∷ 128 ∷ 237 ∷ 160 ∷ 128 ∷ []) ≡ 192 ∷ 128 ∷ 237 ∷ 160 ∷ 128 ∷ []
unfolding utf8_sanitize sanitize_from sequence_len is_valid continues
keeps_overlong = refl

strips_markers : strip_frame_markers (codes "[BOS]x[y[EOS]") ≡ codes "x[y"
unfolding strip_frame_markers strip_from marker_len starts_with
strips_markers = refl

-- A JSON library with values for these tests only.
data Value : Type 0 where
  file : Value
  number : ℕ → Value
  added_token : Option ℕ → Bytes → Bool → Value

abbrev sample_vocab : List (Bytes × Value)
sample_vocab = (codes "x", number 3) ∷ (codes "y", number 5) ∷ (codes "z", number 3) ∷ []

abbrev sample_added : List Value
sample_added =
    added_token (some 0) (codes "<s>") true
    ∷ added_token none (codes "nothing") true
    ∷ added_token (some 6) (codes "</s>") true
    ∷ []

sample_size : Value → Option ℕ
sample_size (number n) = some n
sample_size _ = none

sample_id : Value → Option Value
sample_id (added_token (some id) content special) = some (number id)
sample_id _ = none

sample_content : Value → Option Bytes
sample_content (added_token id content special) = some content
sample_content _ = none

sample_special : Value → Option Bool
sample_special (added_token id content special) = some special
sample_special _ = none

abbrev sample_json : TokenizerJson
sample_json = record {
  J = Value;
  read = λ text. some file;
  vocab_members = λ j. some sample_vocab;
  added_tokens = λ j. sample_added;
  id_member = sample_id;
  as_size = sample_size;
  content = sample_content;
  special = sample_special;
}

abbrev sample : FormulaTokenizer
sample = record {
  id_to_token = codes "<s>" ∷ [] ∷ [] ∷ codes "z" ∷ [] ∷ codes "y" ∷ codes "</s>" ∷ [];
  special_ids = pos 6 ∷ pos 0 ∷ [];
  eos_id = pos 6;
}

loads_sample : load sample_json (λ path. some []) (codes "tokenizer.json") ≡ some sample
unfolding load load_vocab fill max_of_vocab max_of_added raise_max write_vocab write_added bind
    sample_size sample_id sample_content sample_special bytes_eq
loads_sample = refl

-- An id above the cap refuses the file.
refuses_large_id : load_vocab sample_json ((codes "x", number (2 ^ 20 + 1)) ∷ []) [] ≡ none
unfolding load_vocab max_of_vocab raise_max bind sample_size
refuses_large_id = refl

vocab_loads : load_vocab sample_json sample_vocab sample_added ≡ some sample
unfolding load_vocab fill max_of_vocab max_of_added raise_max write_vocab write_added bind
    sample_size sample_id sample_content sample_special bytes_eq
vocab_loads = refl

load_vocab-last_token_example :
    (length sample.id_to_token ≤ 2 ^ 20 + 1)
    × All
        (λ e. e.0 < length sample.id_to_token)
        (file_entries sample_json sample_vocab sample_added)
    × (get_elem? sample.id_to_token 3
        ≡ some (last_token 3 [] (file_entries sample_json sample_vocab sample_added)))
    × (sample.eos_id ≡ last_eos (pos 2) (added_entries sample_json sample_added))
load_vocab-last_token_example =
    load_vocab-last_token sample_json sample_vocab sample_added sample 3 vocab_loads (omega arith)

-- Special ids, negative ids and ids outside the vocabulary give nothing.
decodes_sample :
    decode sample (pos 0 ∷ pos 3 ∷ negsuc 0 ∷ pos 9 ∷ pos 5 ∷ pos 6 ∷ pos 3 ∷ []) ≡ codes "zy"
unfolding decode decode_raw raw_text is_member byte_level_to_utf8 utf8_sanitize decode_bytes
    sanitize_from sequence_len code_length is_valid continues sequence_code byte_of
    byte_decoder_table strip_frame_markers strip_from marker_len trim trim_left is_space
decodes_sample = refl

decode-IsUtf8_example :
    IsUtf8 (decode sample (pos 3 ∷ negsuc 0 ∷ []))
    × (decode sample (pos 3 ∷ negsuc 0 ∷ pos 6 ∷ pos 5 ∷ [])
        ≡ decode sample (pos 3 ∷ negsuc 0 ∷ []))
decode-IsUtf8_example = decode-IsUtf8 sample (pos 3 ∷ negsuc 0 ∷ []) (pos 5 ∷ [])
