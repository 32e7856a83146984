-- ===== src/Decode/Tests.antt =====
-- Runs of the readers on concrete files, and the theorems about them at concrete inputs.
use turbo_ocr.Common.{◌≡◌, refl, arith, ◌∷◌, [], ◌++◌, Bytes, All, IsByte, codes}
use turbo_ocr.Decode.Reader.{Ensures, found}
use turbo_ocr.Decode.Peek.{peek_image_dimensions}
use turbo_ocr.Decode.Totality.{peek_image_dimensions-IsGrid}
use turbo_ocr.Decode.Totality.Plain.{IsGrid}
use turbo_ocr.Decode.SizeClass.{SizeLimits, classify_image_size, size_ok}
use turbo_ocr.Decode.PngRoundTrip.{png_file, peek_image_dimensions-png_file}

abbrev gif_file : Bytes
gif_file = codes "GIF89a" ++ 64 ∷ 1 ∷ 200 ∷ 0 ∷ []

abbrev broken_tiff : Bytes
broken_tiff = 73 ∷ 73 ∷ 42 ∷ 0 ∷ 255 ∷ 255 ∷ 255 ∷ 255 ∷ []

abbrev broken_tiff-IsByte : All IsByte broken_tiff
broken_tiff-IsByte = (
  omega arith,
  (
    omega arith,
    (omega arith, (omega arith, (omega arith, (omega arith, (omega arith, (omega arith, tt)))))),
  ),
)

peek_image_dimensions-IsGrid_example : Ensures IsGrid (peek_image_dimensions broken_tiff)
peek_image_dimensions-IsGrid_example = peek_image_dimensions-IsGrid broken_tiff broken_tiff-IsByte

peek_image_dimensions-png_file_example :
    peek_image_dimensions (png_file 640 480 (7 ∷ [])) ≡ found (record { width = 640; height = 480 })
peek_image_dimensions-png_file_example =
    peek_image_dimensions-png_file 640 480 (7 ∷ []) (omega arith) (omega arith) (omega arith)
      (omega arith)

abbrev limits : SizeLimits
limits = record { max_image_dim = 16384; max_image_pixels = 100000000 }

passes : classify_image_size limits 8000 6000 ≡ size_ok
unfolding classify_image_size
passes = refl
