-- ===== src/Decode/Jpeg.antt =====
-- `peek_jpeg_dims` of decode/image_dims.h: walk the segments up to the first start-of-frame marker.
use turbo_ocr.Common.{
  ℕ, zero, suc, ◌+◌, ◌*◌, Bool, not, ◌&&◌, ◌||◌, ◌==◌, ltb, leb, if◌then◌else◌, Bytes, length,
}
use turbo_ocr.Decode.Reader.{
  Reader, found, stalled, ◌>>=◌, ◌>>◌, reject_if, ImageDims, read, rd16_be,
}

abbrev pub jpeg_scan_limit : ℕ
jpeg_scan_limit = 64 * 1024

-- `while (i < scan_end && data[i] == 0xFF) ++i`, on fuel.
unfoldable pub skip_fill : ℕ → Bytes → ℕ → ℕ → Reader ℕ
skip_fill zero buf scan_end i = stalled
skip_fill (suc fuel) buf scan_end i =
    let rest = skip_fill fuel buf scan_end (i + 1) in
    if ltb i scan_end then (read buf i >>= λ b. if b == 0xFF then rest else found i) else found i

-- Markers with no length: TEM, RSTn, SOI, EOI.
unfoldable pub is_standalone : ℕ → Bool
is_standalone marker = marker == 0x01 || (leb 0xD0 marker && leb marker 0xD9)

-- SOFn, without DHT, JPG and DAC.
unfoldable pub is_sof : ℕ → Bool
is_sof marker =
    (leb 0xC0 marker && leb marker 0xCF)
    && (not (marker == 0xC4) && (not (marker == 0xC8) && not (marker == 0xCC)))

-- The frame header behind the marker; `i` is at the segment's length.
unfoldable pub sof_dims : Bytes → ℕ → ℕ → ℕ → Reader ImageDims
sof_dims buf scan_end i seg_len = do
  reject_if (leb scan_end (i + 6) || ltb seg_len 7)
  h ← rd16_be buf (i + 3)
  w ← rd16_be buf (i + 5)
  reject_if (w == 0 || h == 0)
  found (record { width = w; height = h })

-- A segment that is no frame header is stepped over; `resume` is the loop's next round.
unfoldable pub skip_segment : (ℕ → Reader ImageDims) → ℕ → ℕ → Reader ImageDims
skip_segment resume i seg_len = do reject_if (ltb seg_len 2); resume (i + seg_len)

-- A marker that has a length.
unfoldable pub segment : (ℕ → Reader ImageDims) → Bytes → ℕ → ℕ → ℕ → Reader ImageDims
segment resume buf scan_end marker i = do
  reject_if (leb scan_end (i + 1))
  seg_len ← rd16_be buf i
  (if is_sof marker then sof_dims buf scan_end i seg_len else skip_segment resume i seg_len)

-- One round of the loop `while (i + 9 < scan_end)`, in which the test holds.
unfoldable pub jpeg_round : (ℕ → Reader ImageDims) → Bytes → ℕ → ℕ → Reader ImageDims
jpeg_round resume buf scan_end i = do
  b ← read buf i
  reject_if (not (b == 0xFF))
  j ← skip_fill (suc scan_end) buf scan_end i
  reject_if (leb scan_end j)
  marker ← read buf j
  (if is_standalone marker then resume (j + 1) else segment resume buf scan_end marker (j + 1))

-- The loop, on fuel.
unfoldable pub jpeg_segments : ℕ → Bytes → ℕ → ℕ → Reader ImageDims
jpeg_segments zero buf scan_end i = stalled
jpeg_segments (suc fuel) buf scan_end i = do
  reject_if (not (ltb (i + 9) scan_end))
  jpeg_round (λ k. jpeg_segments fuel buf scan_end k) buf scan_end i

abbrev pub scan_end_of : Bytes → ℕ
scan_end_of buf = if ltb (length buf) jpeg_scan_limit then length buf else jpeg_scan_limit

-- `||` tests `data[0]` only if `len >= 4`, and `data[1]` only if `data[0]` fits.
unfoldable pub peek_jpeg_dims : Bytes → Reader ImageDims
peek_jpeg_dims buf = do
  reject_if (ltb (length buf) 4)
  a ← read buf 0
  reject_if (not (a == 0xFF))
  b ← read buf 1
  reject_if (not (b == 0xD8))
  jpeg_segments (suc (scan_end_of buf)) buf (scan_end_of buf) 2
