-- ===== src/Decode/Totality.antt =====
-- The header sniffers of decode/image_dims.h read within the buffer, end, and report sides that a
-- positive `int` holds.
pub mod Plain
pub mod Tiff
pub mod Jpeg
use turbo_ocr.Common.{Bytes, IsByte, All}
use turbo_ocr.Decode.Reader.{Reader, ImageDims, Ensures, returns, gives_up}
use turbo_ocr.Decode.Peek.{or_else, peek_image_dimensions}
use Plain.{IsGrid, peek_png_dims-IsGrid, peek_gif_dims-IsGrid, peek_webp_dims-IsGrid}
use Tiff.{peek_tiff_dims-IsGrid}
use Jpeg.{peek_jpeg_dims-IsGrid}

Ensures-or_else :
    {P : ImageDims → Type 0} {first rest : Reader ImageDims}
    → Ensures P first
    → Ensures P rest
    → Ensures P (or_else first rest)
Ensures-or_else (returns h) k = returns h
Ensures-or_else gives_up k = k

-- On every byte string the dispatcher over the five formats ends, reads no byte outside the buffer,
-- and answers with nothing or with a grid whose sides lie between 1 and the largest `int`.
pub peek_image_dimensions-IsGrid :
    (buf : Bytes) → All IsByte buf → Ensures IsGrid (peek_image_dimensions buf)
unfolding peek_image_dimensions
peek_image_dimensions-IsGrid buf bytes = Ensures-or_else (peek_png_dims-IsGrid buf bytes) (
    Ensures-or_else (peek_jpeg_dims-IsGrid buf bytes) (
      Ensures-or_else (peek_webp_dims-IsGrid buf bytes)
        (Ensures-or_else (peek_gif_dims-IsGrid buf bytes) (peek_tiff_dims-IsGrid buf bytes))))
