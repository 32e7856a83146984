-- ===== src/Decode/SizeClass.antt =====
-- decode/size_classify.h and decode/image_config.h: the decompression-bomb verdict on a grid.
-- The caps come from the environment (`env_int` clamps them): they are a record here. Sides are
-- natural numbers, since every caller has rejected non-positive ones before.
use turbo_ocr.Common.{ℕ, ◌*◌, ◌≤◌, ◌≡◌, ◌↔◌, Bool, ◌||◌, arith, ltb, if◌then◌else◌, Bytes, codes}

pub record SizeLimits : Type 0 where
  pub max_image_dim : ℕ
  pub max_image_pixels : ℕ

pub data ImageSizeVerdict : Type 0 where
  size_ok dim_too_large pixels_too_large : ImageSizeVerdict

unfoldable pub exceeds_pixel_cap : SizeLimits → ℕ → ℕ → Bool
exceeds_pixel_cap l w h = ltb l.max_image_pixels (w * h)

unfoldable pub classify_image_size : SizeLimits → ℕ → ℕ → ImageSizeVerdict
unfolding exceeds_pixel_cap
classify_image_size l w h =
    if ltb l.max_image_dim w || ltb l.max_image_dim h
    then dim_too_large
    else if exceeds_pixel_cap l w h
    then pixels_too_large
    else size_ok

unfoldable pub image_size_error_code : ImageSizeVerdict → Bytes
image_size_error_code dim_too_large = codes "DIMENSIONS_TOO_LARGE"
image_size_error_code _ = codes "PIXELS_TOO_LARGE"

-- A grid passes exactly when both sides and the area are within the caps.
pub classify_image_size_iff :
    (l : SizeLimits) (w h : ℕ)
    → (classify_image_size l w h ≡ size_ok)
      ↔ ((w ≤ l.max_image_dim) × (h ≤ l.max_image_dim) × (w * h ≤ l.max_image_pixels))
unfolding classify_image_size
classify_image_size_iff l w h = (λ e. (ground arith, ground arith, ground arith), λ e. ground arith)
