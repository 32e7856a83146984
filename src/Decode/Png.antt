-- ===== src/Decode/Png.antt =====
-- `peek_png_dims` of decode/image_dims.h.
use turbo_ocr.Common.{ℕ, not, ◌||◌, [], ◌∷◌, ◌==◌, ltb, Bytes, codes, length}
use turbo_ocr.Decode.Reader.{
  Reader, found, ◌>>=◌, ◌>>◌, reject_if, ImageDims, int_max, matches_at, rd32_be,
}

abbrev pub png_signature : Bytes
png_signature = 0x89 ∷ 0x50 ∷ 0x4E ∷ 0x47 ∷ 0x0D ∷ 0x0A ∷ 0x1A ∷ 0x0A ∷ []

-- The common end of the PNG and TIFF sniffers: reject an empty grid and what `int` cannot hold.
unfoldable pub checked_dims : ℕ → ℕ → Reader ImageDims
checked_dims w h = do
  reject_if (w == 0 || (h == 0 || (ltb int_max w || ltb int_max h)))
  found (record { width = w; height = h })

unfoldable pub peek_png_dims : Bytes → Reader ImageDims
peek_png_dims buf = do
  reject_if (ltb (length buf) 24)
  signature ← matches_at buf 0 png_signature
  reject_if (not signature)
  ihdr ← matches_at buf 12 (codes "IHDR")
  reject_if (not ihdr)
  w ← rd32_be buf 16
  h ← rd32_be buf 20
  checked_dims w h
