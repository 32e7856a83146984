-- ===== src/LayoutFilter/FilterLaws.antt =====
-- What is left of the boxes of a page.
use turbo_ocr.Common.{
  Floats, ℕ, suc, ◌≡◌, refl, ap, Bool, false, ◌||◌, List, [], ◌∷◌, if◌then◌else◌, length, get_elem?,
  replicate, All, arith, Bool-cases, inl, inr, ℤ,
}
use turbo_ocr.Router.Types.{LayoutBox}
use turbo_ocr.LayoutFilter.Postfilter.{
  MergeMode, keep_all, keep_outer, keep_inner, Nesting, keeps, flag_at, overlaps_beyond,
  suppress_by, suppression, non_maximum_suppression, is_oversized_image, without_oversized,
  keep_merged, reconcile, postfilter_layout_boxes,
}

module _ (fl : Floats) where
  -- A kept box overlaps_beyond the box.
  abbrev pub is_suppressed : List (LayoutBox fl) → LayoutBox fl → Bool
  is_suppressed [] b = false
  is_suppressed (a ∷ kept) b = is_suppressed kept b || overlaps_beyond fl a b

  -- The suppression without flags: the last kept box first, a box is kept when none of them
  -- overlaps_beyond it.
  unfoldable pub greedy : List (LayoutBox fl) → List (LayoutBox fl) → List (LayoutBox fl)
  greedy kept [] = []
  greedy kept (b ∷ bs) =
      let gone = is_suppressed kept b in
      let rest = greedy (if gone then kept else b ∷ kept) bs in if gone then rest else b ∷ rest

  abbrev flags_of : List (LayoutBox fl) → List (LayoutBox fl) → List Bool
  flags_of kept [] = []
  flags_of kept (b ∷ bs) = is_suppressed kept b ∷ flags_of kept bs

  suppress_by-flags :
      (a : LayoutBox fl) (kept bs : List (LayoutBox fl))
      → suppress_by fl a bs (flags_of kept bs) ≡ flags_of (a ∷ kept) bs
  unfolding suppress_by
  suppress_by-flags a kept [] = refl
  suppress_by-flags a kept (b ∷ bs) = ground (arith, suppress_by-flags a kept bs)

  suppression-greedy :
      (kept bs : List (LayoutBox fl)) → suppression fl bs (flags_of kept bs) ≡ greedy kept bs
  unfolding suppression greedy
  suppression-greedy kept [] = refl
  suppression-greedy kept (b ∷ bs) = elim (Bool-cases (is_suppressed kept b)) [
    | inl gone ↦ rw gone (suppression-greedy kept bs)
    | inr stays ↦
        rw stays (ap (◌∷◌ b) (rw (suppress_by-flags b kept bs) (suppression-greedy (b ∷ kept) bs)))
  ]

  no_flags : (bs : List (LayoutBox fl)) → replicate (length bs) false ≡ flags_of [] bs
  no_flags [] = refl
  no_flags (b ∷ bs) = ap (◌∷◌ false) (no_flags bs)

  non_maximum_suppression-greedy :
      (bs : List (LayoutBox fl)) → non_maximum_suppression fl bs ≡ greedy [] bs
  unfolding non_maximum_suppression
  non_maximum_suppression-greedy bs = rw (no_flags bs) (suppression-greedy [] bs)

  -- No box overlaps_beyond a later one.
  abbrev pub Separated : List (LayoutBox fl) → Type 0
  Separated [] = Unit
  Separated (a ∷ bs) = All (λ b. overlaps_beyond fl a b ≡ false) bs × Separated bs

  greedy-unsuppressed :
      (a : LayoutBox fl) (kept bs : List (LayoutBox fl))
      → ((b : LayoutBox fl) → is_suppressed kept b ≡ false → overlaps_beyond fl a b ≡ false)
      → All (λ b. overlaps_beyond fl a b ≡ false) (greedy kept bs)
  unfolding greedy
  greedy-unsuppressed a kept [] h = tt
  greedy-unsuppressed a kept (b ∷ bs) h = elim (Bool-cases (is_suppressed kept b)) [
    | inl gone ↦ rw gone (greedy-unsuppressed a kept bs h)
    | inr stays ↦
        rw stays (h b stays, greedy-unsuppressed a (b ∷ kept) bs (λ c e. h c (ground (arith, e))))
  ]

  greedy-Separated : (kept bs : List (LayoutBox fl)) → Separated (greedy kept bs)
  unfolding greedy
  greedy-Separated kept [] = tt
  greedy-Separated kept (b ∷ bs) = elim (Bool-cases (is_suppressed kept b)) [
    | inl gone ↦ rw gone (greedy-Separated kept bs)
    | inr stays ↦ rw stays (
      greedy-unsuppressed b (b ∷ kept) bs (λ c e. ground (arith, e)),
      greedy-Separated (b ∷ kept) bs,
    )
  ]

  -- The later filters drop boxes and keep the others in their order.
  data Thins : List (LayoutBox fl) → List (LayoutBox fl) → Type 0 where
    none_left : Thins [] []
    keeps_box :
        {bs cs : List (LayoutBox fl)} (b : LayoutBox fl) → Thins bs cs → Thins (b ∷ bs) (b ∷ cs)
    drops_box : {bs cs : List (LayoutBox fl)} (b : LayoutBox fl) → Thins bs cs → Thins (b ∷ bs) cs

  Thins-refl : (bs : List (LayoutBox fl)) → Thins bs bs
  Thins-refl [] = none_left
  Thins-refl (b ∷ bs) = keeps_box b (Thins-refl bs)

  Thins-All :
      (P : LayoutBox fl → Type 0) {bs cs : List (LayoutBox fl)} → Thins bs cs → All P bs → All P cs
  Thins-All P none_left h = tt
  Thins-All P (keeps_box b t) h = (h.0, Thins-All P t h.1)
  Thins-All P (drops_box b t) h = Thins-All P t h.1

  Thins-Separated : {bs cs : List (LayoutBox fl)} → Thins bs cs → Separated bs → Separated cs
  Thins-Separated none_left s = tt
  Thins-Separated (keeps_box b t) s =
      (Thins-All (λ c. overlaps_beyond fl b c ≡ false) t s.0, Thins-Separated t s.1)
  Thins-Separated (drops_box b t) s = Thins-Separated t s.1

  without_oversized-Thins :
      (h w : ℤ) (bs : List (LayoutBox fl)) → Thins bs (without_oversized fl h w bs)
  unfolding without_oversized
  without_oversized-Thins h w [] = none_left
  without_oversized-Thins h w (b ∷ bs) = elim (Bool-cases (is_oversized_image fl h w b)) [
    | inl big ↦ rw big (drops_box b (without_oversized-Thins h w bs))
    | inr small ↦ rw small (keeps_box b (without_oversized-Thins h w bs))
  ]

  abbrev pub Fits : ℤ → ℤ → List (LayoutBox fl) → Type 0
  Fits h w = All (λ b. is_oversized_image fl h w b ≡ false)

  without_oversized-Fits :
      (h w : ℤ) (bs : List (LayoutBox fl)) → Fits h w (without_oversized fl h w bs)
  unfolding without_oversized
  without_oversized-Fits h w [] = tt
  without_oversized-Fits h w (b ∷ bs) = elim (Bool-cases (is_oversized_image fl h w b)) [
    | inl big ↦ rw big (without_oversized-Fits h w bs)
    | inr small ↦ rw small (small, without_oversized-Fits h w bs)
  ]

  keep_merged-Thins :
      (mode : MergeMode) (n : Nesting) (i : ℕ) (bs : List (LayoutBox fl))
      → Thins bs (keep_merged fl mode n i bs)
  unfolding keep_merged
  keep_merged-Thins mode n i [] = none_left
  keep_merged-Thins mode n i (b ∷ bs) =
      let rest = keep_merged-Thins mode n (suc i) bs in
      elim (Bool-cases (
        keeps mode (flag_at (get_elem? n.inside_other i))
          (flag_at (get_elem? n.contains_other i)))) [
            | inl kept ↦ rw kept (keeps_box b rest)
            | inr gone ↦ rw gone (drops_box b rest)
          ]

  reconcile-Thins : (mode : MergeMode) (bs : List (LayoutBox fl)) → Thins bs (reconcile fl mode bs)
  unfolding reconcile
  reconcile-Thins keep_all bs = Thins-refl bs
  reconcile-Thins keep_outer bs = keep_merged-Thins keep_outer _ 0 bs
  reconcile-Thins keep_inner bs = keep_merged-Thins keep_inner _ 0 bs

  -- In every merge mode, and however the scores sort: the clean-up is the greedy suppression, which
  -- drops a box exactly when an earlier kept box overlaps it beyond their threshold, then the drop of
  -- oversized images, then the reconciliation; of the boxes left none overlaps a later one beyond
  -- the threshold, and none is an image that covers the page.
  pub postfilter_layout_boxes_lem :
      (sort : List (LayoutBox fl) → List (LayoutBox fl)) (mode : MergeMode)
      (boxes : List (LayoutBox fl)) (h w : ℤ)
      → let out = postfilter_layout_boxes fl sort mode boxes h w in
        (out ≡ reconcile fl mode (without_oversized fl h w (greedy [] (sort boxes))))
        × Separated out
        × Fits h w out
  unfolding postfilter_layout_boxes
  postfilter_layout_boxes_lem sort mode boxes h w =
      let kept = greedy [] (sort boxes) in
      let small = without_oversized fl h w kept in
      let merged = reconcile-Thins mode small in
      rw (non_maximum_suppression-greedy (sort boxes)) (
        refl,
        Thins-Separated merged
            (Thins-Separated (without_oversized-Thins h w kept) (greedy-Separated [] (sort boxes))),
        Thins-All (λ b. is_oversized_image fl h w b ≡ false) merged
            (without_oversized-Fits h w kept),
      )
