-- ===== src/ReadingOrder/HistogramLaws.antt =====
-- A bin of a projection profile counts the rectangles that have a pixel in it.
use turbo_ocr.Common.{
  ℕ, zero, suc, ◌+◌, ◌-◌, ◌*◌, ◌/◌, ◌<◌, ◌≤◌, ◌≡◌, refl, sym, subst, ◌∙◌, true, false, List, [],
  ◌∷◌, arith, ltb, ◌==◌, ==_iff, if◌then◌else◌, length, replicate, length-replicate, Bool-cases,
  inl, inr, ℤ, pos, negsuc, above, ltb_ℤ, leb_ℤ, min_ℤ, max_ℤ, All,
}
use turbo_ocr.Router.Types.{Rect}
use turbo_ocr.ReadingOrder.Projection.{
  max_bins, extent_start, extent_end, projection_scale_for, max_end_from, max_end_for, add_rect,
  add_rects, Projection, n_bins_for, project_to, no_projection, projection_by_bboxes_pmr,
}
use turbo_ocr.ReadingOrder.Profile.{projection_scale_for-pos}
use turbo_ocr.ReadingOrder.Histogram.{
  bin_at, touching, add_rect-bin_at, add_rect-length, last_lem, div-lt,
}

abbrev Within : ℤ → ℕ → List Rect → Type 0
Within m axis = All (λ r. leb_ℤ (extent_end r axis) m ≡ true)

le-trans_ℤ : (a b c : ℤ) → leb_ℤ a b ≡ true → leb_ℤ b c ≡ true → leb_ℤ a c ≡ true
le-trans_ℤ (pos a) (pos b) (pos c) h g = ground arith
le-trans_ℤ (pos a) (pos b) (negsuc c) h g = ground arith
le-trans_ℤ (pos a) (negsuc b) c h g = ground arith
le-trans_ℤ (negsuc a) (pos b) (pos c) h g = ground arith
le-trans_ℤ (negsuc a) (pos b) (negsuc c) h g = ground arith
le-trans_ℤ (negsuc a) (negsuc b) (pos c) h g = ground arith
le-trans_ℤ (negsuc a) (negsuc b) (negsuc c) h g = ground arith

le-max_left : (a b : ℤ) → leb_ℤ a (max_ℤ a b) ≡ true
le-max_left a b = ground arith

le-max_right : (a b : ℤ) → leb_ℤ b (max_ℤ a b) ≡ true
le-max_right a b = ground arith

max_end_from-ge : (m : ℤ) (axis : ℕ) (rs : List Rect) → leb_ℤ m (max_end_from m rs axis) ≡ true
max_end_from-ge m axis [] = ground arith
max_end_from-ge m axis (r ∷ rs) =
    let e = extent_end r axis in
    le-trans_ℤ m (max_ℤ m e) (max_end_from (max_ℤ m e) rs axis) (le-max_left m e)
      (max_end_from-ge (max_ℤ m e) axis rs)

max_end_from-Within : (m : ℤ) (axis : ℕ) (rs : List Rect) → Within (max_end_from m rs axis) axis rs
max_end_from-Within m axis [] = tt
max_end_from-Within m axis (r ∷ rs) =
    let e = extent_end r axis in
    (
      le-trans_ℤ e (max_ℤ m e) (max_end_from (max_ℤ m e) rs axis) (le-max_right m e)
          (max_end_from-ge (max_ℤ m e) axis rs),
      max_end_from-Within (max_ℤ m e) axis rs,
    )

add_rects-bin_at :
    (m : ℤ) (k axis i : ℕ) (rs : List Rect) (bins : List ℕ)
    → 0 < k
    → i < length bins
    → Within m axis rs
    → bin_at (add_rects m k axis rs bins) i ≡ bin_at bins i + touching axis k i rs
unfolding touching
add_rects-bin_at m k axis i [] bins h l w = omega arith
add_rects-bin_at m k axis i (r ∷ rs) bins h l w =
    let one = add_rect m k axis r bins in
    let same = add_rect-length m k axis r bins in
    ground (
      arith,
      add_rects-bin_at m k axis i rs one h (omega arith) w.1,
      add_rect-bin_at m k axis i r bins h w.0,
    )

add_rects-length :
    (m : ℤ) (k axis : ℕ) (rs : List Rect) (bins : List ℕ)
    → length (add_rects m k axis rs bins) ≡ length bins
add_rects-length m k axis [] bins = refl
add_rects-length m k axis (r ∷ rs) bins =
    add_rects-length m k axis rs (add_rect m k axis r bins) ∙ add_rect-length m k axis r bins

bin_at-replicate : (n i : ℕ) → bin_at (replicate n 0) i ≡ 0
bin_at-replicate zero i = refl
bin_at-replicate (suc n) zero = refl
bin_at-replicate (suc n) (suc i) = bin_at-replicate n i

bin_at-beyond : (bins : List ℕ) (i : ℕ) → length bins ≤ i → bin_at bins i ≡ 0
bin_at-beyond [] i h = refl
bin_at-beyond (v ∷ vs) zero h = absurd (omega arith)
bin_at-beyond (v ∷ vs) (suc i) h = bin_at-beyond vs i (omega arith)

-- A bin past the profile is touched by no rectangle.
past_lem :
    (e m : ℤ) (u : ℕ)
    → leb_ℤ e m ≡ true
    → above m ≤ u
    → (s : ℤ) (v : ℕ) → ltb_ℤ (max_ℤ s (pos u)) (min_ℤ e (pos v)) ≡ false
past_lem (pos e) (pos m) u le h s v = ground arith
past_lem (pos e) (negsuc m) u le h s v = ground arith
past_lem (negsuc e) m u le h s v = ground arith

touching-past :
    (m : ℤ) (k axis i : ℕ) (rs : List Rect)
    → Within m axis rs
    → above m ≤ i * k
    → touching axis k i rs ≡ 0
unfolding touching
touching-past m k axis i [] w h = refl
touching-past m k axis i (r ∷ rs) w h =
    rw (past_lem (extent_end r axis) m (i * k) w.0 h (extent_start r axis) ((i + 1) * k))
      (omega (arith, touching-past m k axis i rs w.1 h))

n_bins_lem : (m k i : ℕ) → 0 < k → n_bins_for m k ≤ i → m ≤ i * k
n_bins_lem m k i h le = elim (Bool-cases (k == 1)) [
  | inl one ↦
      let at_most : m ≤ i = rw one at le in
      subst (λ n. m ≤ i * n) (sym ((==_iff k 1).0 one)) (omega arith)
  | inr e ↦ ground (arith, last_lem m k i h)
]

ceil_cap : (m s : ℕ) → 0 < s → m ≤ 4096 * s → (m + s - 1) / s ≤ 4096
ceil_cap m s h le = let e = div-lt (m + s - 1) s 4097 h in omega (arith, e.1 (omega arith))

n_bins-cap : (m : ℕ) → n_bins_for m (projection_scale_for m) ≤ max_bins
n_bins-cap m = elim (Bool-cases (projection_scale_for m == 1)) [
  | inl one ↦ rw one (unfold projection_scale_for in ground arith)
  | inr e ↦ rw e (
      ceil_cap m (projection_scale_for m) (projection_scale_for-pos m)
        (unfold projection_scale_for in ground arith))
]

size_of : (n : ℕ) → length {A = ℕ} (replicate n 0) ≡ n
size_of n = let nought : ℕ = 0 in length-replicate n nought

add_rects-empty :
    (m : ℤ) (k axis i n : ℕ) (rs : List Rect)
    → 0 < k
    → i < n
    → Within m axis rs
    → bin_at (add_rects m k axis rs (replicate n 0)) i ≡ touching axis k i rs
add_rects-empty m k axis i n rs h l w = omega (
  arith,
  add_rects-bin_at m k axis i rs (replicate n 0) h (omega (arith, size_of n)) w,
  bin_at-replicate n i,
)

add_rects-past :
    (m : ℤ) (axis i : ℕ) (rs : List Rect) (bins : List ℕ)
    → length bins ≡ n_bins_for (above m) (projection_scale_for (above m))
    → length bins ≤ i
    → Within m axis rs
    → let k = projection_scale_for (above m) in
      bin_at (add_rects m k axis rs bins) i ≡ touching axis k i rs
add_rects-past m axis i rs bins e le w =
    let k = projection_scale_for (above m) in
    bin_at-beyond (add_rects m k axis rs bins) i (omega (arith, add_rects-length m k axis rs bins))
    ∙ sym (
        touching-past m k axis i rs w
          (n_bins_lem (above m) k i (projection_scale_for-pos (above m)) (omega arith)))

project_to-bin_at :
    (m : ℤ) (axis i : ℕ) (rs : List Rect)
    → Within m axis rs
    → bin_at (project_to m rs axis).bins i ≡ touching axis (project_to m rs axis).scale i rs
project_to-bin_at m axis i rs w =
    let k = projection_scale_for (above m) in
    let n = n_bins_for (above m) k in
    let size = size_of n in
    elim (Bool-cases (leb_ℤ m (pos 0))) [
      | inl nothing ↦ rw nothing (sym (touching-past m 1 axis i rs w (ground arith)))
      | inr area ↦ rw area (elim (Bool-cases (ltb i n)) [
        | inl in_range ↦
            add_rects-empty m k axis i n rs (projection_scale_for-pos (above m)) (ground arith) w
        | inr past ↦ add_rects-past m axis i rs (replicate n 0) size (ground (arith, size)) w
      ])
    ]

project_to-length :
    (m : ℤ) (axis : ℕ) (rs : List Rect) → length (project_to m rs axis).bins ≤ max_bins
project_to-length m axis rs =
    let k = projection_scale_for (above m) in
    let n = n_bins_for (above m) k in
    ground (arith, add_rects-length m k axis rs (replicate n 0), size_of n, n_bins-cap (above m))

-- Each bin counts the rectangles that have a pixel in it, bins past the end included, which count
-- none; and there are at most 4096 bins, of one pixel or more.
abbrev pub CountsPixels : List Rect → ℕ → Projection → Type 0
CountsPixels rects axis p =
    ((i : ℕ) → bin_at p.bins i ≡ touching axis p.scale i rects)
    × (length p.bins ≤ max_bins)
    × (0 < p.scale)

-- Along either axis the profile counts pixels: each bin has the number of the rectangles that have a
-- pixel in it, bins past the end included; there are at most 4096 bins, of one pixel or more.
pub projection_by_bboxes-CountsPixels :
    (rects : List Rect) (axis : ℕ)
    → axis < 2
    → CountsPixels rects axis (projection_by_bboxes_pmr rects axis)
unfolding projection_by_bboxes_pmr touching
projection_by_bboxes-CountsPixels [] axis h = (λ i. refl, omega arith, omega arith)
projection_by_bboxes-CountsPixels (r ∷ rs) axis h =
    let m = max_end_for (r ∷ rs) axis in
    let known : ltb 1 axis ≡ false = ground arith in
    subst
      (λ b. CountsPixels (r ∷ rs) axis (if b then no_projection else project_to m (r ∷ rs) axis))
      (sym known)
      (
        λ i. project_to-bin_at m axis i (r ∷ rs) (max_end_from-Within (pos 0) axis (r ∷ rs)),
        project_to-length m axis (r ∷ rs),
        ground (arith, projection_scale_for-pos (above m)),
      )
