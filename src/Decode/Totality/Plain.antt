-- ===== src/Decode/Totality/Plain.antt =====
-- Grids that a positive `int` holds, and the sniffers without a loop: PNG, GIF and WebP.
use turbo_ocr.Common.{ℕ, ◌+◌, ◌≤◌, ◌<◌, ◌^◌, arith, ltb→ge, Bytes, IsByte, All, codes, length}
use turbo_ocr.Decode.Reader.{
  ImageDims, int_max, Ensures, returns, gives_up, Ensures-bind, Ensures-if, Ensures-reject,
  Ensures-read, Ensures-matches_at, Ensures-rd16_le, Ensures-rd32_be, Ensures-rd32_le,
}
use turbo_ocr.Decode.Png.{checked_dims, png_signature, peek_png_dims}
use turbo_ocr.Decode.Webp.{
  webp_lossy, webp_lossless, rd24_le, webp_extended, webp_chunk, peek_webp_dims,
}
use turbo_ocr.Decode.Gif.{gif_magic, peek_gif_dims}

-- Both sides lie between 1 and the largest `int`.
pub record IsGrid (d : ImageDims) : Type 0 where
  pub width_pos : 1 ≤ d.width
  pub height_pos : 1 ≤ d.height
  pub width_fits : d.width ≤ int_max
  pub height_fits : d.height ≤ int_max

pub checked_dims-IsGrid : (w h : ℕ) → Ensures IsGrid (checked_dims w h)
unfolding checked_dims
checked_dims-IsGrid w h = Ensures-reject λ e. returns (record {
  width_pos = ground arith;
  height_pos = ground arith;
  width_fits = ground arith;
  height_fits = ground arith;
})

module _ (buf : Bytes) (bytes : All IsByte buf) where
  pub peek_png_dims-IsGrid : Ensures IsGrid (peek_png_dims buf)
  unfolding peek_png_dims
  peek_png_dims-IsGrid = Ensures-reject λ e.
      let fits : 24 ≤ length buf = ltb→ge _ _ e in
      Ensures-bind (Ensures-matches_at buf bytes 0 png_signature (omega arith)) λ signature _.
        Ensures-reject λ _.
          Ensures-bind (Ensures-matches_at buf bytes 12 (codes "IHDR") (omega arith)) λ ihdr _.
            Ensures-reject λ _. Ensures-bind (Ensures-rd32_be buf bytes 16 (omega arith)) λ w _.
              Ensures-bind (Ensures-rd32_be buf bytes 20 (omega arith))
                λ h _. checked_dims-IsGrid w h

  pub peek_gif_dims-IsGrid : Ensures IsGrid (peek_gif_dims buf)
  unfolding peek_gif_dims gif_magic
  peek_gif_dims-IsGrid = Ensures-reject λ e.
      let fits : 10 ≤ length buf = ltb→ge _ _ e in
      Ensures-bind {P = λ _. Unit {0}}
        (Ensures-bind (Ensures-matches_at buf bytes 0 (codes "GIF87a") (omega arith)) λ gif87 _.
          Ensures-if gif87 _ _ (λ _. returns tt)
            (λ _. Ensures-matches_at buf bytes 0 (codes "GIF89a") (omega arith)))
        λ magic _. Ensures-reject λ _.
          Ensures-bind (Ensures-rd16_le buf bytes 6 (omega arith)) λ w hw.
            Ensures-bind (Ensures-rd16_le buf bytes 8 (omega arith)) λ h hh. Ensures-reject λ z.
              returns (record {
                width_pos = ground arith;
                height_pos = ground arith;
                width_fits = omega arith;
                height_fits = omega arith;
              })

  webp_lossy-IsGrid : 30 ≤ length buf → Ensures IsGrid (webp_lossy buf)
  unfolding webp_lossy
  webp_lossy-IsGrid fits = Ensures-bind (Ensures-read buf bytes 23 (omega arith)) λ a _.
      Ensures-reject λ _. Ensures-bind (Ensures-read buf bytes 24 (omega arith)) λ b _.
        Ensures-reject λ _. Ensures-bind (Ensures-read buf bytes 25 (omega arith)) λ c _.
          Ensures-reject λ _. Ensures-bind (Ensures-rd16_le buf bytes 26 (omega arith)) λ w hw.
            Ensures-bind (Ensures-rd16_le buf bytes 28 (omega arith)) λ h hh. Ensures-reject λ z.
              returns (record {
                width_pos = ground arith;
                height_pos = ground arith;
                width_fits = omega arith;
                height_fits = omega arith;
              })

  webp_lossless-IsGrid : 30 ≤ length buf → Ensures IsGrid (webp_lossless buf)
  unfolding webp_lossless
  webp_lossless-IsGrid fits = Ensures-bind (Ensures-read buf bytes 20 (omega arith)) λ tag _.
      Ensures-reject λ _.
        Ensures-bind (Ensures-rd32_le buf bytes 21 (omega arith)) λ bits _. returns (omega arith)

  Ensures-rd24_le : (i : ℕ) → i + 3 ≤ length buf → Ensures (λ n. n < 2 ^ 24) (rd24_le buf i)
  unfolding rd24_le
  Ensures-rd24_le i h = Ensures-bind (Ensures-read buf bytes i (omega arith)) λ a ha.
      Ensures-bind (Ensures-read buf bytes (i + 1) (omega arith)) λ b hb.
        Ensures-bind (Ensures-read buf bytes (i + 2) (omega arith)) λ c hc. returns (omega arith)

  webp_extended-IsGrid : 30 ≤ length buf → Ensures IsGrid (webp_extended buf)
  unfolding webp_extended
  webp_extended-IsGrid fits =
      Ensures-bind (Ensures-rd24_le 24 (omega arith))
        λ w hw. Ensures-bind (Ensures-rd24_le 27 (omega arith)) λ h hh. returns (omega arith)

  webp_chunk-IsGrid : 30 ≤ length buf → Ensures IsGrid (webp_chunk buf)
  unfolding webp_chunk
  webp_chunk-IsGrid fits =
      Ensures-bind (Ensures-matches_at buf bytes 12 (codes "VP8 ") (omega arith)) λ lossy _.
        Ensures-if lossy _ _ (λ _. webp_lossy-IsGrid fits)
          λ _.
            Ensures-bind (Ensures-matches_at buf bytes 12 (codes "VP8L") (omega arith))
              λ lossless _.
                Ensures-if lossless _ _ (λ _. webp_lossless-IsGrid fits)
                  λ _.
                    Ensures-bind (Ensures-matches_at buf bytes 12 (codes "VP8X") (omega arith))
                      λ extended _.
                        Ensures-if extended _ _ (λ _. webp_extended-IsGrid fits) (λ _. gives_up)

  pub peek_webp_dims-IsGrid : Ensures IsGrid (peek_webp_dims buf)
  unfolding peek_webp_dims
  peek_webp_dims-IsGrid = Ensures-reject λ e.
      let fits : 30 ≤ length buf = ltb→ge _ _ e in
      Ensures-bind (Ensures-matches_at buf bytes 0 (codes "RIFF") (omega arith)) λ riff _.
        Ensures-reject λ _.
          Ensures-bind (Ensures-matches_at buf bytes 8 (codes "WEBP") (omega arith))
            λ webp _. Ensures-reject λ _. webp_chunk-IsGrid fits
