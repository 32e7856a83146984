-- ===== src/Validation/PixelLaws.antt =====
-- What a raw-pixel request that passes satisfies.
use turbo_ocr.Common.{
  suc, ◌*◌, ◌≤◌, ◌≡◌, refl, subst, Bool, false, not, ◌&&◌, ◌⊎◌, Option, none, some, arith, ◌==◌,
  length, codes, ℤ, pos,
}
use turbo_ocr.Decode.SizeClass.{
  SizeLimits, ImageSizeVerdict, size_ok, classify_image_size, classify_image_size_iff,
}
use turbo_ocr.Validation.Check.{ok, fail_if-ok, bind-ok, ok-injective}
use turbo_ocr.Validation.PixelDims.{
  PixelRequest, PixelDims, Resolution, resolve, positive_dims, required_dims, checked_dims,
  unresolved, resolve_pixel_dims, is_size_ok, validate_pixel_payload,
}

-- Sides from 1 on, and one or three channels.
pub record IsRaster (d : PixelDims) : Type 0 where
  pub width_pos : 1 ≤ d.width
  pub height_pos : 1 ≤ d.height
  pub channels_are : (d.channels ≡ 1) ⊎ (d.channels ≡ 3)

positive_dims-IsRaster :
    (legacy : Bool) (w h c : ℤ) {d : PixelDims} → positive_dims legacy w h c ≡ ok d → IsRaster d
unfolding positive_dims
positive_dims-IsRaster legacy (pos (suc w)) (pos (suc h)) (pos c) e =
    let (one_or_three, last) = fail_if-ok (not (c == 1) && not (c == 3)) _ _ _ e in
    subst IsRaster (ok-injective last)
      (record { width_pos = omega arith; height_pos = omega arith; channels_are = ground arith })
positive_dims-IsRaster legacy _ _ _ e = cc

required_dims-IsRaster :
    (legacy : Bool) (w h c : Option ℤ) {d : PixelDims}
    → required_dims legacy w h c ≡ ok d
    → IsRaster d
unfolding required_dims
required_dims-IsRaster legacy (some w) (some h) none e = positive_dims-IsRaster legacy w h (pos 3) e
required_dims-IsRaster legacy (some w) (some h) (some c) e = positive_dims-IsRaster legacy w h c e
required_dims-IsRaster legacy _ _ _ e = cc

checked_dims-IsRaster :
    (r : Resolution) (w h c : Option ℤ) {d : PixelDims} → checked_dims r w h c ≡ ok d → IsRaster d
unfolding checked_dims
checked_dims-IsRaster r w h c e =
    let (_, r1) = fail_if-ok r.parse_err _ _ _ e in
    let (_, r2) = fail_if-ok r.conflict_err _ _ _ r1 in required_dims-IsRaster r.legacy w h c r2

resolve_pixel_dims-IsRaster :
    (req : PixelRequest) {d : PixelDims} → resolve_pixel_dims req ≡ ok d → IsRaster d
unfolding resolve_pixel_dims
resolve_pixel_dims-IsRaster req e =
    let (r1, w) = resolve (req.query (codes "width")) (req.header (codes "X-Width")) unresolved in
    let (r2, h) = resolve (req.query (codes "height")) (req.header (codes "X-Height")) r1 in
    let (r3, c) = resolve (req.query (codes "channels")) (req.header (codes "X-Channels")) r2 in
    checked_dims-IsRaster r3 w h c e

size_ok_of : (v : ImageSizeVerdict) → not (is_size_ok v) ≡ false → v ≡ size_ok
size_ok_of size_ok e = refl
size_ok_of _ e = cc

-- A payload that passes has positive sides within the caps, one or three channels, and a body of
-- exactly the bytes that the raster takes, so the matrix over it reads no byte outside.
pub validate_pixel_payload_lem :
    (l : SizeLimits) (req : PixelRequest) {d : PixelDims}
    → validate_pixel_payload l req ≡ ok d
    → IsRaster d
      × (length req.body ≡ d.width * d.height * d.channels)
      × (d.width ≤ l.max_image_dim)
      × (d.height ≤ l.max_image_dim)
      × (d.width * d.height ≤ l.max_image_pixels)
unfolding validate_pixel_payload
validate_pixel_payload_lem l req {d} e =
    let (d', resolved, r1) = bind-ok (resolve_pixel_dims req) _ e in
    let (verdict, r2) =
      fail_if-ok (not (is_size_ok (classify_image_size l d'.width d'.height))) _ _ _ r1 in
    let (size, last) =
      fail_if-ok (not (length req.body == d'.width * d'.height * d'.channels)) _ _ _ r2 in
    let within = (classify_image_size_iff l d'.width d'.height).0 (size_ok_of _ verdict) in
    subst
      (λ (d : PixelDims).
        IsRaster d
        × (length req.body ≡ d.width * d.height * d.channels)
        × (d.width ≤ l.max_image_dim)
        × (d.height ≤ l.max_image_dim)
        × (d.width * d.height ≤ l.max_image_pixels))
      (ok-injective last)
      (resolve_pixel_dims-IsRaster req resolved, ground arith, within.0, within.1, within.2)
