-- ===== src/Decode/Peek.antt =====
-- `peek_image_dimensions` of decode/image_dims.h: try every format in turn.
use turbo_ocr.Common.{Bytes}
use turbo_ocr.Decode.Reader.{Reader, found, unknown, overrun, stalled, ImageDims}
use turbo_ocr.Decode.Png.{peek_png_dims}
use turbo_ocr.Decode.Jpeg.{peek_jpeg_dims}
use turbo_ocr.Decode.Webp.{peek_webp_dims}
use turbo_ocr.Decode.Gif.{peek_gif_dims}
use turbo_ocr.Decode.Tiff.{peek_tiff_dims}

-- `if (auto d = first) return d;`, then the rest.
abbrev pub or_else : Reader ImageDims → Reader ImageDims → Reader ImageDims
or_else (found d) rest = found d
or_else unknown rest = rest
or_else overrun rest = overrun
or_else stalled rest = stalled

unfoldable pub peek_image_dimensions : Bytes → Reader ImageDims
peek_image_dimensions buf = or_else (peek_png_dims buf) (
    or_else (peek_jpeg_dims buf)
      (or_else (peek_webp_dims buf) (or_else (peek_gif_dims buf) (peek_tiff_dims buf))))
