-- ===== src/Decode.antt =====
-- The image decoder's gate (include/turbo_ocr/decode): reading the pixel grid from a file header
-- before anything is allocated, and the size verdict on it.
mod Tests
pub mod Reader
pub mod Png
pub mod Jpeg
pub mod Webp
pub mod Gif
pub mod Tiff
pub mod Peek
pub mod Totality
pub mod SizeClass
pub mod PngRoundTrip
