-- ===== src/Decode/Webp.antt =====
-- `peek_webp_dims` of decode/image_dims.h: the three sub-formats of a RIFF container.
use turbo_ocr.Common.{
  ℕ, ◌+◌, ◌*◌, ◌/◌, ◌%◌, ◌^◌, not, ◌||◌, ◌==◌, ltb, if◌then◌else◌, Bytes, codes, length,
}
use turbo_ocr.Decode.Reader.{
  Reader, found, unknown, ◌>>=◌, ◌>>◌, reject_if, ImageDims, read, matches_at, rd16_le, rd32_le,
}

-- VP8: 14-bit fields behind the key frame's start code; `& 0x3FFF` is `% 2 ^ 14`.
unfoldable pub webp_lossy : Bytes → Reader ImageDims
webp_lossy buf = do
  a ← read buf 23
  reject_if (not (a == 0x9D))
  b ← read buf 24
  reject_if (not (b == 0x01))
  c ← read buf 25
  reject_if (not (c == 0x2A))
  w ← rd16_le buf 26
  h ← rd16_le buf 28
  reject_if (w % 2 ^ 14 == 0 || h % 2 ^ 14 == 0)
  found (record { width = w % 2 ^ 14; height = h % 2 ^ 14 })

-- VP8L: 14-bit fields of a packed word, each one less than the side.
unfoldable pub webp_lossless : Bytes → Reader ImageDims
webp_lossless buf = do
  tag ← read buf 20
  reject_if (not (tag == 0x2F))
  bits ← rd32_le buf 21
  found (record { width = bits % 2 ^ 14 + 1; height = (bits / 2 ^ 14) % 2 ^ 14 + 1 })

-- A 24-bit little-endian field.
unfoldable pub rd24_le : Bytes → ℕ → Reader ℕ
rd24_le buf i = do
  a ← read buf i
  b ← read buf (i + 1)
  c ← read buf (i + 2)
  found (a + b * 2 ^ 8 + c * 2 ^ 16)

-- VP8X: 24-bit fields, each one less than the side.
unfoldable pub webp_extended : Bytes → Reader ImageDims
webp_extended buf = do
  w_minus ← rd24_le buf 24
  h_minus ← rd24_le buf 27
  found (record { width = w_minus + 1; height = h_minus + 1 })

-- The tests of the sub-format, in the source's order.
unfoldable pub webp_chunk : Bytes → Reader ImageDims
webp_chunk buf = matches_at buf 12 (codes "VP8 ") >>= λ lossy.
    if lossy
    then webp_lossy buf
    else (matches_at buf 12 (codes "VP8L") >>= λ lossless.
        if lossless
        then webp_lossless buf
        else (matches_at buf 12 (codes "VP8X") >>= λ extended.
            if extended then webp_extended buf else unknown))

unfoldable pub peek_webp_dims : Bytes → Reader ImageDims
peek_webp_dims buf = do
  reject_if (ltb (length buf) 30)
  riff ← matches_at buf 0 (codes "RIFF")
  reject_if (not riff)
  webp ← matches_at buf 8 (codes "WEBP")
  reject_if (not webp)
  webp_chunk buf
