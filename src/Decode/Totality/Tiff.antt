-- ===== src/Decode/Totality/Tiff.antt =====
-- `peek_tiff_dims` never reads past the buffer: the entry count is clamped to what fits.
use turbo_ocr.Common.{
  ℕ, zero, suc, ◌+◌, ◌-◌, ◌*◌, ◌/◌, ◌≤◌, ◌<◌, ◌^◌, Bool, true, false, arith, ltb→ge, Bytes, IsByte,
  All, codes, length, ◌++◌, [], ◌∷◌, ◌==◌, not, ◌&&◌,
}
use turbo_ocr.Decode.Reader.{
  ImageDims, Ensures, returns, gives_up, Ensures-bind, Ensures-if, Ensures-reject,
  Ensures-matches_at, Ensures-rd16_be, Ensures-rd16_le, Ensures-rd32_be, Ensures-rd32_le,
}
use turbo_ocr.Decode.Tiff.{
  rd16, rd32, tiff_value, tiff_entry, tiff_entries, fitting_count, tiff_directory, peek_tiff_dims,
}
use turbo_ocr.Decode.Totality.Plain.{IsGrid, checked_dims-IsGrid}

abbrev Anything {ℓ} : {A : Type ℓ} → A → Type 0
Anything _ = Unit

-- The clamp keeps the entries within what `max_fit` allows.
pub fitting_count-le : (max_fit count : ℕ) → fitting_count max_fit count ≤ max_fit
unfolding fitting_count
fitting_count-le max_fit count = ground arith

module _ (buf : Bytes) (bytes : All IsByte buf) (le : Bool) where
  Ensures-rd16 : (i : ℕ) → i + 2 ≤ length buf → Ensures (λ n. n < 2 ^ 16) (rd16 le buf i)
  unfolding rd16
  Ensures-rd16 i h =
      Ensures-if le _ _ (λ _. Ensures-rd16_le buf bytes i h) (λ _. Ensures-rd16_be buf bytes i h)

  Ensures-rd32 : (i : ℕ) → i + 4 ≤ length buf → Ensures (λ n. n < 2 ^ 32) (rd32 le buf i)
  unfolding rd32
  Ensures-rd32 i h =
      Ensures-if le _ _ (λ _. Ensures-rd32_le buf bytes i h) (λ _. Ensures-rd32_be buf bytes i h)

  Ensures-tiff_value :
      (ent tag type : ℕ) (dims : ImageDims)
      → ent + 12 ≤ length buf
      → Ensures Anything (tiff_value le buf ent tag type dims)
  unfolding tiff_value
  Ensures-tiff_value ent tag type dims h =
      Ensures-if (type == 3) _ _
        (λ _. Ensures-bind (Ensures-rd16 (ent + 8) (omega arith)) λ val _. returns tt)
        λ _.
          Ensures-if (type == 4) _ _
            (λ _. Ensures-bind (Ensures-rd32 (ent + 8) (omega arith)) λ val _. returns tt)
            (λ _. returns tt)

  Ensures-tiff_entry :
      (ent : ℕ) (dims : ImageDims)
      → ent + 12 ≤ length buf
      → Ensures Anything (tiff_entry le buf ent dims)
  unfolding tiff_entry
  Ensures-tiff_entry ent dims h = Ensures-bind (Ensures-rd16 ent (omega arith)) λ tag _.
      Ensures-if (not (tag == 256) && not (tag == 257)) _ _ (λ _. returns tt)
        λ _.
          Ensures-bind (Ensures-rd16 (ent + 2) (omega arith))
            λ type _. Ensures-tiff_value ent tag type dims h

  Ensures-tiff_entries :
      (count ent : ℕ) (dims : ImageDims)
      → ent + count * 12 ≤ length buf
      → Ensures Anything (tiff_entries le buf count ent dims)
  unfolding tiff_entries
  Ensures-tiff_entries zero ent dims h = returns tt
  Ensures-tiff_entries (suc count) ent dims h =
      Ensures-bind (Ensures-tiff_entry ent dims (omega arith))
        λ dims' _. Ensures-tiff_entries count (ent + 12) dims' (omega arith)

  tiff_directory-IsGrid : 8 ≤ length buf → Ensures IsGrid (tiff_directory le buf)
  unfolding tiff_directory
  tiff_directory-IsGrid fits = Ensures-bind (Ensures-rd32 4 (omega arith)) λ ifd_off _.
      Ensures-reject λ e.
        let inside : ifd_off + 2 ≤ length buf = ground arith in
        Ensures-bind (Ensures-rd16 ifd_off inside) λ count _. Ensures-reject λ _.
          Ensures-bind
            (Ensures-tiff_entries _ (ifd_off + 2) _
              (omega (arith, fitting_count-le ((length buf - (ifd_off + 2)) / 12) count)))
            λ dims _. checked_dims-IsGrid dims.width dims.height

pub peek_tiff_dims-IsGrid : (buf : Bytes) → All IsByte buf → Ensures IsGrid (peek_tiff_dims buf)
unfolding peek_tiff_dims
peek_tiff_dims-IsGrid buf bytes = Ensures-reject λ e.
    let fits : 8 ≤ length buf = ltb→ge _ _ e in
    Ensures-bind (Ensures-matches_at buf bytes 0 (codes "II" ++ 0x2A ∷ 0x00 ∷ []) (omega arith))
      λ little _.
        Ensures-if little _ _ (λ _. tiff_directory-IsGrid buf bytes true fits)
          λ _.
            Ensures-bind
              (Ensures-matches_at buf bytes 0 (codes "MM" ++ 0x00 ∷ 0x2A ∷ []) (omega arith))
              λ big _.
                Ensures-if big _ _ (λ _. tiff_directory-IsGrid buf bytes false fits) (λ _. gives_up)
