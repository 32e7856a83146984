-- ===== src/Validation/PixelDims.antt =====
-- validation/pixel_dims.h: the sides and channels of a raw-pixel request, and the checks on its body.
use turbo_ocr.Common.{
  ℕ, zero, suc, ◌+◌, ◌-◌, ◌*◌, ◌^◌, Bool, true, false, not, ◌&&◌, ◌||◌, Option, none, some, [], ◌∷◌,
  ◌==◌, leb, if◌then◌else◌, Bytes, codes, length, ℤ, pos, negsuc,
}
use turbo_ocr.Decode.SizeClass.{
  SizeLimits, ImageSizeVerdict, size_ok, classify_image_size, image_size_error_code,
}
use turbo_ocr.Validation.Check.{text, Check, ok, err, ◌>>=◌, ◌>>◌, fail_if}

unfoldable pub same_int : ℤ → ℤ → Bool
same_int (pos a) (pos b) = a == b
same_int (negsuc a) (negsuc b) = a == b
same_int _ _ = false

-- The digits of a number, all of them; `none` at any other byte.
unfoldable pub digits_value : ℕ → Bytes → Option ℕ
digits_value acc [] = some acc
digits_value acc (c ∷ cs) =
    let rest = digits_value (acc * 10 + (c - b'0')) cs in
    if leb b'0' c && leb c b'9' then rest else none

-- At least one digit, and no more than the largest magnitude.
unfoldable pub magnitude : ℕ → Bytes → Option ℕ
magnitude bound [] = none
magnitude bound (c ∷ cs) = elim (digits_value 0 (c ∷ cs)) [
  | none ↦ none
  | some n ↦ if leb n bound then some n else none
]

abbrev pub negated : ℕ → ℤ
negated zero = pos 0
negated (suc n) = negsuc n

-- `std::from_chars` into an `int`, with the whole text consumed.
unfoldable pub from_chars : Bytes → Option ℤ
from_chars [] = none
from_chars (c ∷ cs) =
    if c == b'-'
    then elim (magnitude (2 ^ 31) cs) [ none ↦ none | some n ↦ some (negated n) ]
    else elim (magnitude (2 ^ 31 - 1) (c ∷ cs)) [ none ↦ none | some n ↦ some (pos n) ]

-- The lambda `parse`: an absent value is no error. The outer `none` is a malformed value.
unfoldable pub parse_value : Bytes → Option (Option ℤ)
parse_value [] = some none
parse_value (c ∷ cs) = elim (from_chars (c ∷ cs)) [ none ↦ none | some v ↦ some (some v) ]

-- What the calls of the lambda `resolve` leave behind: malformed, conflicting, a header was used.
pub record Resolution : Type 0 where
  pub parse_err : Bool
  pub conflict_err : Bool
  pub legacy : Bool

abbrev pub disagree : Option ℤ → Option ℤ → Bool
disagree (some a) (some b) = not (same_int a b)
disagree _ _ = false

abbrev pub present : Option ℤ → Bool
present none = false
present (some _) = true

abbrev pub prefer : Option ℤ → Option ℤ → Option ℤ
prefer none h = h
prefer (some q) h = some q

-- One call of `resolve` on the query value and the header value.
unfoldable pub resolve : Bytes → Bytes → Resolution → Resolution × Option ℤ
resolve q h r = elim (parse_value q) [
  | none ↦ (record r { parse_err = true }, none)
  | some qv ↦ elim (parse_value h) [
    | none ↦ (record r { parse_err = true }, none)
    | some hv ↦ (
      record r { conflict_err = r.conflict_err || disagree qv hv; legacy = r.legacy || present hv },
      prefer qv hv,
    )
  ]
]

pub record PixelRequest : Type 0 where
  pub query : Bytes → Bytes
  pub header : Bytes → Bytes
  pub body : Bytes

pub record PixelDims : Type 0 where
  pub width : ℕ
  pub height : ℕ
  pub channels : ℕ
  pub used_legacy_header : Bool

abbrev pub invalid_dimensions : Bytes
invalid_dimensions = codes "INVALID_DIMENSIONS"

-- The last checks: positive sides, one or three channels.
unfoldable pub positive_dims : Bool → ℤ → ℤ → ℤ → Check PixelDims
positive_dims legacy (pos (suc w)) (pos (suc h)) (pos c) = do
  fail_if (not (c == 1) && not (c == 3)) invalid_dimensions (text (codes "channels"))
  ok (record { width = suc w; height = suc h; channels = c; used_legacy_header = legacy })
positive_dims legacy _ _ _ = err invalid_dimensions (text (codes "dimensions"))

abbrev pub missing_dims : Check PixelDims
missing_dims = err (codes "MISSING_DIMENSIONS") (text (codes "width/height"))

-- `channels` is 3 if absent.
unfoldable pub required_dims : Bool → Option ℤ → Option ℤ → Option ℤ → Check PixelDims
required_dims legacy (some w) (some h) none = positive_dims legacy w h (pos 3)
required_dims legacy (some w) (some h) (some c) = positive_dims legacy w h c
required_dims legacy _ _ _ = missing_dims

-- The error checks behind the three calls, a malformed value before a conflict.
unfoldable pub checked_dims : Resolution → Option ℤ → Option ℤ → Option ℤ → Check PixelDims
checked_dims r w h c = do
  fail_if r.parse_err invalid_dimensions (text (codes "malformed"))
  fail_if r.conflict_err (codes "DIMENSION_CONFLICT") (text (codes "query and header disagree"))
  required_dims r.legacy w h c

abbrev pub unresolved : Resolution
unresolved = record { parse_err = false; conflict_err = false; legacy = false }

unfoldable pub resolve_pixel_dims : PixelRequest → Check PixelDims
resolve_pixel_dims req =
    let (r1, w) = resolve (req.query (codes "width")) (req.header (codes "X-Width")) unresolved in
    let (r2, h) = resolve (req.query (codes "height")) (req.header (codes "X-Height")) r1 in
    let (r3, c) = resolve (req.query (codes "channels")) (req.header (codes "X-Channels")) r2 in
    checked_dims r3 w h c

abbrev pub is_size_ok : ImageSizeVerdict → Bool
is_size_ok size_ok = true
is_size_ok _ = false

unfoldable pub validate_pixel_payload : SizeLimits → PixelRequest → Check PixelDims
validate_pixel_payload l req = do
  d ← resolve_pixel_dims req
  let v = classify_image_size l d.width d.height
  fail_if (not (is_size_ok v)) (image_size_error_code v) (text (codes "too large"))
  fail_if (not (length req.body == d.width * d.height * d.channels)) (codes "BODY_SIZE_MISMATCH")
      (text (codes "body size"))
  ok d
