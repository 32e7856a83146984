-- ===== src/Decode/PngRoundTrip.antt =====
-- A PNG header with given sides is read back by `peek_png_dims`, whatever follows it.
use turbo_ocr.Common.{ℕ, ◌+◌, ◌*◌, ◌/◌, ◌%◌, ◌^◌, ◌≤◌, ◌≡◌, [], ◌∷◌, ◌++◌, arith, Bytes, codes}
use turbo_ocr.Decode.Reader.{found, ◌>>=◌, ◌>>◌, reject_if, int_max, read, matches_at, rd32_be}
use turbo_ocr.Decode.Png.{png_signature, checked_dims, peek_png_dims}
use turbo_ocr.Decode.Peek.{peek_image_dimensions}

abbrev pub be32 : ℕ → Bytes
be32 n = n / 2 ^ 24 ∷ (n / 2 ^ 16) % 256 ∷ (n / 2 ^ 8) % 256 ∷ n % 256 ∷ []

-- The signature, the IHDR chunk's length and type, the sides, and the rest of the file.
abbrev pub png_file : ℕ → ℕ → Bytes → Bytes
png_file w h rest = png_signature ++ (be32 13 ++ (codes "IHDR" ++ (be32 w ++ (be32 h ++ rest))))

be32_value :
    (n : ℕ)
    → n / 2 ^ 24 * 2 ^ 24 + (n / 2 ^ 16) % 256 * 2 ^ 16 + (n / 2 ^ 8) % 256 * 2 ^ 8 + n % 256 ≡ n
be32_value n = omega arith

checked_dims-eq :
    (w h : ℕ)
    → 1 ≤ w
    → 1 ≤ h
    → w ≤ int_max
    → h ≤ int_max
    → checked_dims w h ≡ found (record { width = w; height = h })
unfolding checked_dims ◌>>=◌ ◌>>◌ reject_if
checked_dims-eq w h a b c d = ground arith

peek_png_dims-parts :
    (w h : ℕ) (rest : Bytes)
    → peek_png_dims (png_file w h rest)
      ≡ checked_dims
          (w / 2 ^ 24 * 2 ^ 24 + (w / 2 ^ 16) % 256 * 2 ^ 16 + (w / 2 ^ 8) % 256 * 2 ^ 8 + w % 256)
          (h / 2 ^ 24 * 2 ^ 24 + (h / 2 ^ 16) % 256 * 2 ^ 16 + (h / 2 ^ 8) % 256 * 2 ^ 8 + h % 256)
unfolding peek_png_dims matches_at rd32_be read ◌>>=◌ ◌>>◌ reject_if
peek_png_dims-parts w h rest = ground arith

-- Whatever sides a PNG header states, if an `int` holds them, the dispatcher reports exactly those,
-- and the bytes behind the header do not matter.
pub peek_image_dimensions-png_file :
    (w h : ℕ) (rest : Bytes)
    → 1 ≤ w
    → 1 ≤ h
    → w ≤ int_max
    → h ≤ int_max
    → peek_image_dimensions (png_file w h rest) ≡ found (record { width = w; height = h })
unfolding peek_image_dimensions
peek_image_dimensions-png_file w h rest a b c d =
    rw (peek_png_dims-parts w h rest, be32_value w, be32_value h, checked_dims-eq w h a b c d)
