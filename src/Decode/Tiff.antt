-- ===== src/Decode/Tiff.antt =====
-- `peek_tiff_dims` of decode/image_dims.h: width and height among the entries of the first IFD.
use turbo_ocr.Common.{
  ℕ, zero, suc, ◌+◌, ◌-◌, ◌/◌, ◌%◌, ◌^◌, Bool, true, false, not, ◌&&◌, ◌||◌, [], ◌∷◌, ◌++◌, ◌==◌,
  ltb, leb, if◌then◌else◌, Bytes, codes, length,
}
use turbo_ocr.Decode.Reader.{
  Reader, found, unknown, ◌>>=◌, ◌>>◌, reject_if, ImageDims, matches_at, rd16_be, rd16_le, rd32_be,
  rd32_le,
}
use turbo_ocr.Decode.Png.{checked_dims}

-- The lambdas `rd16` and `rd32`, which capture the byte order.
unfoldable pub rd16 : Bool → Bytes → ℕ → Reader ℕ
rd16 le buf i = if le then rd16_le buf i else rd16_be buf i

unfoldable pub rd32 : Bool → Bytes → ℕ → Reader ℕ
rd32 le buf i = if le then rd32_le buf i else rd32_be buf i

-- Which side a tag names.
unfoldable pub store_side : ℕ → ℕ → ImageDims → ImageDims
store_side tag val dims =
    if tag == 256 then record dims { width = val } else record dims { height = val }

-- The value of an entry whose tag is ImageWidth or ImageLength: SHORT, LONG, or of another type.
unfoldable pub tiff_value : Bool → Bytes → ℕ → ℕ → ℕ → ImageDims → Reader ImageDims
tiff_value le buf ent tag type dims =
    if type == 3
    then (rd16 le buf (ent + 8) >>= λ val. found (store_side tag val dims))
    else if type == 4
    then (rd32 le buf (ent + 8) >>= λ val. found (store_side tag val dims))
    else found dims

-- One 12-byte entry at `ent`. Tags and types are 16-bit reads, so the casts to `uint16_t` are exact.
unfoldable pub tiff_entry : Bool → Bytes → ℕ → ImageDims → Reader ImageDims
tiff_entry le buf ent dims = rd16 le buf ent >>= λ tag.
    if not (tag == 256) && not (tag == 257)
    then found dims
    else (rd16 le buf (ent + 2) >>= λ type. tiff_value le buf ent tag type dims)

-- The loop over `count` entries, the first at `ent`.
unfoldable pub tiff_entries : Bool → Bytes → ℕ → ℕ → ImageDims → Reader ImageDims
tiff_entries le buf zero ent dims = found dims
tiff_entries le buf (suc count) ent dims =
    tiff_entry le buf ent dims >>= tiff_entries le buf count (ent + 12)

-- `if (count > max_fit) count = static_cast<uint32_t>(max_fit)`.
unfoldable pub fitting_count : ℕ → ℕ → ℕ
fitting_count max_fit count = if ltb max_fit count then max_fit % 2 ^ 32 else count

-- The part behind the byte-order mark.
unfoldable pub tiff_directory : Bool → Bytes → Reader ImageDims
tiff_directory le buf = do
  ifd_off ← rd32 le buf 4
  reject_if (ltb ifd_off 8 || ltb (length buf) (ifd_off + 2))
  count ← rd16 le buf ifd_off
  reject_if (leb (length buf) (ifd_off + 2))
  let fitting = fitting_count ((length buf - (ifd_off + 2)) / 12) count
  dims ← tiff_entries le buf fitting (ifd_off + 2) (record { width = 0; height = 0 })
  checked_dims dims.width dims.height

unfoldable pub peek_tiff_dims : Bytes → Reader ImageDims
peek_tiff_dims buf = do
  reject_if (ltb (length buf) 8)
  little ← matches_at buf 0 (codes "II" ++ 0x2A ∷ 0x00 ∷ [])
  (if little
      then tiff_directory true buf
      else (matches_at buf 0 (codes "MM" ++ 0x00 ∷ 0x2A ∷ []) >>= λ big.
          if big then tiff_directory false buf else unknown))
