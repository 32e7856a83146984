-- ===== src/Decode/Gif.antt =====
-- `peek_gif_dims` of decode/image_dims.h: the logical screen descriptor.
use turbo_ocr.Common.{Bool, true, not, ◌||◌, ◌==◌, ltb, if◌then◌else◌, Bytes, codes, length}
use turbo_ocr.Decode.Reader.{Reader, found, ◌>>=◌, ◌>>◌, reject_if, ImageDims, matches_at, rd16_le}

-- `memcmp` with "GIF89a" is made only if that with "GIF87a" fails.
unfoldable pub gif_magic : Bytes → Reader Bool
gif_magic buf = matches_at buf 0 (codes "GIF87a") >>= λ gif87.
    if gif87 then found true else matches_at buf 0 (codes "GIF89a")

unfoldable pub peek_gif_dims : Bytes → Reader ImageDims
peek_gif_dims buf = do
  reject_if (ltb (length buf) 10)
  magic ← gif_magic buf
  reject_if (not magic)
  w ← rd16_le buf 6
  h ← rd16_le buf 8
  reject_if (w == 0 || h == 0)
  found (record { width = w; height = h })
