-- ===== src/Formula/DecodeLaws.antt =====
-- What decoding makes of any ids.
use turbo_ocr.Common.{◌≡◌, refl, ap, true, List, [], ◌∷◌, ◌++◌, ℤ, pos, negsuc, eq_ℤ, arith}
use turbo_ocr.Formula.ByteLevel.{byte_level_to_utf8}
use turbo_ocr.Formula.Tokenizer.{FormulaTokenizer, raw_text, decode_raw, decode}
use turbo_ocr.Formula.Utf8.{IsUtf8, IsUtf8-trim}
use turbo_ocr.Formula.Utf8Laws.{utf8_sanitize-IsUtf8, IsUtf8-strip_frame_markers}

eq_ℤ_refl : (x : ℤ) → eq_ℤ x x ≡ true
eq_ℤ_refl (pos n) = ground arith
eq_ℤ_refl (negsuc n) = ground arith

raw_text-stop :
    (tok : FormulaTokenizer) (ids back : List ℤ)
    → raw_text tok (ids ++ tok.eos_id ∷ back) ≡ raw_text tok ids
unfolding raw_text
raw_text-stop tok [] back = rw (eq_ℤ_refl tok.eos_id) refl
raw_text-stop tok (id ∷ ids) back = cc (raw_text-stop tok ids back)

-- Whatever the vocabulary and the ids, negative ones and ones outside the vocabulary included, the
-- decoded text has the shape of UTF-8, and nothing behind the end-of-sequence id has a part in it.
pub decode-IsUtf8 :
    (tok : FormulaTokenizer) (ids back : List ℤ)
    → IsUtf8 (decode tok ids) × (decode tok (ids ++ tok.eos_id ∷ back) ≡ decode tok ids)
unfolding decode decode_raw byte_level_to_utf8
decode-IsUtf8 tok ids back = (
  IsUtf8-trim _ (IsUtf8-strip_frame_markers _ (utf8_sanitize-IsUtf8 _)),
  ap decode_raw (raw_text-stop tok ids back),
)
