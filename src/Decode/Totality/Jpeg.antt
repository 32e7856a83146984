-- ===== src/Decode/Totality/Jpeg.antt =====
-- `peek_jpeg_dims` reads below `scan_end` only, and its loops end: every round moves on.
use turbo_ocr.Common.{
  ℕ, zero, suc, ◌+◌, ◌-◌, ◌≤◌, ◌<◌, arith, ltb, ltb→ge, leb→gt, ltb→lt, Bytes, IsByte, All, length,
  ◌==◌,
}
use turbo_ocr.Decode.Reader.{
  Reader, ImageDims, Ensures, returns, Ensures-bind, Ensures-if, Ensures-reject, Ensures-mono,
  Ensures-read, Ensures-rd16_be,
}
use turbo_ocr.Decode.Jpeg.{
  skip_fill, is_standalone, is_sof, sof_dims, skip_segment, segment, jpeg_round, jpeg_segments,
  scan_end_of, peek_jpeg_dims,
}
use turbo_ocr.Decode.Totality.Plain.{IsGrid}

module _ (buf : Bytes) (bytes : All IsByte buf) (scan_end : ℕ)
    (within : scan_end ≤ length buf) where
  -- The fill bytes end at or before `scan_end`.
  Ensures-skip_fill :
      (fuel i : ℕ)
      → i ≤ scan_end
      → scan_end - i < fuel
      → Ensures (λ j. (i ≤ j) × (j ≤ scan_end)) (skip_fill fuel buf scan_end i)
  unfolding skip_fill
  Ensures-skip_fill zero i h lt = absurd (omega arith)
  Ensures-skip_fill (suc fuel) i h lt =
      Ensures-if (ltb i scan_end) _ _
        (λ inside.
          let below : i < scan_end = ltb→lt _ _ inside in
          Ensures-bind (Ensures-read buf bytes i (omega arith)) λ b _.
            Ensures-if (b == 0xFF) _ _
              (λ _.
                Ensures-mono (Ensures-skip_fill fuel (i + 1) (omega arith) (omega arith))
                  λ j hj. omega arith)
              (λ _. returns (omega arith)))
        (λ _. returns (omega arith))

  sof_dims-IsGrid : (i seg_len : ℕ) → Ensures IsGrid (sof_dims buf scan_end i seg_len)
  unfolding sof_dims
  sof_dims-IsGrid i seg_len = Ensures-reject λ e.
      let inside : i + 6 < scan_end = ground arith in
      Ensures-bind (Ensures-rd16_be buf bytes (i + 3) (omega arith)) λ h hh.
        Ensures-bind (Ensures-rd16_be buf bytes (i + 5) (omega arith)) λ w hw. Ensures-reject λ z.
          returns (record {
            width_pos = ground arith;
            height_pos = ground arith;
            width_fits = omega arith;
            height_fits = omega arith;
          })

  -- The next round is started further on.
  module _ (resume : ℕ → Reader ImageDims) (i : ℕ)
      (next : (k : ℕ) → i < k → Ensures IsGrid (resume k)) where
    segment-IsGrid : (marker j : ℕ) → i < j → Ensures IsGrid (segment resume buf scan_end marker j)
    unfolding segment skip_segment
    segment-IsGrid marker j lt = Ensures-reject λ e.
        let inside : j + 1 < scan_end = leb→gt _ _ e in
        Ensures-bind (Ensures-rd16_be buf bytes j (omega arith)) λ seg_len _.
          Ensures-if (is_sof marker) _ _ (λ _. sof_dims-IsGrid j seg_len)
            λ _. Ensures-reject λ _. next (j + seg_len) (omega arith)

    jpeg_round-IsGrid : i < scan_end → Ensures IsGrid (jpeg_round resume buf scan_end i)
    unfolding jpeg_round
    jpeg_round-IsGrid lt = Ensures-bind (Ensures-read buf bytes i (omega arith)) λ b _.
        Ensures-reject λ _.
          Ensures-bind (Ensures-skip_fill (suc scan_end) i (omega arith) (omega arith)) λ j hj.
            Ensures-reject λ e.
              let inside : j < scan_end = leb→gt _ _ e in
              Ensures-bind (Ensures-read buf bytes j (omega arith)) λ marker _.
                Ensures-if (is_standalone marker) _ _ (λ _. next (j + 1) (omega arith))
                  (λ _. segment-IsGrid marker (j + 1) (omega arith))

  jpeg_segments-IsGrid :
      (fuel i : ℕ) → scan_end - i < fuel → Ensures IsGrid (jpeg_segments fuel buf scan_end i)
  unfolding jpeg_segments
  jpeg_segments-IsGrid zero i h = elim h [ ]
  jpeg_segments-IsGrid (suc fuel) i h = Ensures-reject λ e.
      let inside : i + 9 < scan_end = ground arith in
      jpeg_round-IsGrid _ i (λ k lt. jpeg_segments-IsGrid fuel k (omega arith)) (omega arith)

pub peek_jpeg_dims-IsGrid : (buf : Bytes) → All IsByte buf → Ensures IsGrid (peek_jpeg_dims buf)
unfolding peek_jpeg_dims
peek_jpeg_dims-IsGrid buf bytes = Ensures-reject λ e.
    let fits : 4 ≤ length buf = ltb→ge _ _ e in
    Ensures-bind (Ensures-read buf bytes 0 (omega arith)) λ a _. Ensures-reject λ _.
      Ensures-bind (Ensures-read buf bytes 1 (omega arith)) λ b _.
        Ensures-reject
          λ _. jpeg_segments-IsGrid buf bytes (scan_end_of buf) (ground arith) _ 2 (omega arith)
