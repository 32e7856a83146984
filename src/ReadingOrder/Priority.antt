-- ===== src/ReadingOrder/Priority.antt =====
-- Page furniture does not interleave with the body.
use mathlib.Core.List.{Perm, Permᴰ}
use mathlib.Core.Logic.{∥∥₁_elim}
use native.Mathlib.Nat.{ℕ_set}
use turbo_ocr.Common.{
  Floats, ℕ, suc, ◌+◌, ◌<◌, ◌≤◌, ◌≡◌, refl, ap, subst, ◌∙◌, Option, none, some, List, [], ◌∷◌, ◌++◌,
  ◌==◌, ==_iff, arith, get_elem?, Bool, true, false, ◌||◌, ◌↔◌, eq_ℤ, above, ℤ, pos, negsuc, sym,
  ◌⊎◌, Option-cases, Bool-cases, inl, inr, All, All-append,
}
use turbo_ocr.Router.Types.{LayoutBox}
use turbo_ocr.ReadingOrder.Counting.{count}
use turbo_ocr.ReadingOrder.Assign.{
  reading_priority_bucket, Buckets, push_bucket, xy_cut_subset, fill_buckets, order_buckets,
  assign_reading_order,
}
use turbo_ocr.ReadingOrder.AssignLaws.{xy_cut_subset-Perm}

abbrev Ranked : (ℕ → ℕ) → ℕ → List ℕ → Type 0
Ranked rank b = All (λ i. rank i ≡ b)

copies : (i : ℕ) {a b : ℕ} → a ≡ b → count i (a ∷ []) ≡ count i (b ∷ [])
copies i e = ap (λ a. count i (a ∷ [])) e

count-permᴰ : (i : ℕ) {xs ys : List ℕ} → Permᴰ xs ys → count i xs ≡ count i ys
unfolding count
count-permᴰ i Permᴰ.nil = refl
count-permᴰ i (Permᴰ.cons e h) = omega (arith, copies i e, count-permᴰ i h)
count-permᴰ i (Permᴰ.swap e f) = omega (arith, copies i e, copies i f)
count-permᴰ i (Permᴰ.trans h k) = count-permᴰ i h ∙ count-permᴰ i k

count-perm : (i : ℕ) {xs ys : List ℕ} → Perm xs ys → count i xs ≡ count i ys
count-perm i h = ∥∥₁_elim h (ℕ_set _ _) (count-permᴰ i)

Ranked-get : (rank : ℕ → ℕ) (b i : ℕ) (xs : List ℕ) → Ranked rank b xs → 0 < count i xs → rank i ≡ b
unfolding count
Ranked-get rank b i [] r h = absurd (omega arith)
Ranked-get rank b i (x ∷ xs) r h = elim (Bool-cases (x == i)) [
  | inl e ↦ subst (λ n. rank n ≡ b) ((==_iff x i).0 e) r.0
  | inr e ↦ Ranked-get rank b i xs r.1 (ground arith)
]

Ranked-perm :
    (rank : ℕ → ℕ) (b : ℕ) (xs ys : List ℕ)
    → ((i : ℕ) → count i xs ≤ count i ys)
    → Ranked rank b ys
    → Ranked rank b xs
unfolding count
Ranked-perm rank b [] ys h r = tt
Ranked-perm rank b (x ∷ xs) ys h r = (
  Ranked-get rank b x ys r (ground (arith, h x)),
  Ranked-perm rank b xs ys (λ i. omega (arith, h i)) r,
)

All-weaken : (P Q : ℕ → Type 0) (xs : List ℕ) → ((i : ℕ) → P i → Q i) → All P xs → All Q xs
All-weaken P Q [] h a = tt
All-weaken P Q (x ∷ xs) h a = (h x a.0, All-weaken P Q xs h a.1)

abbrev Three : (ℕ → ℕ) → Buckets → Type 0
Three rank (first, body, last) = Ranked rank 0 first × Ranked rank 1 body × Ranked rank 2 last

push_bucket-Three :
    (rank : ℕ → ℕ) (b k : ℕ) (bs : Buckets)
    → rank k ≡ b
    → b ≤ 2
    → Three rank bs
    → Three rank (push_bucket b k bs)
push_bucket-Three rank b k (first, body, last) e le (r0, r1, r2) = elim (Bool-cases (b == 0)) [
  | inl zeroth ↦ rw zeroth (All-append _ first (k ∷ []) r0 (e ∙ (==_iff b 0).0 zeroth, tt), r1, r2)
  | inr above ↦ rw above (elim (Bool-cases (b == 1)) [
    | inl one ↦ rw one (r0, All-append _ body (k ∷ []) r1 (e ∙ (==_iff b 1).0 one, tt), r2)
    | inr two ↦ rw two (r0, r1, All-append _ last (k ∷ []) r2 (e ∙ ground arith, tt))
  ])
]

bucket-le_two : (c : ℤ) → reading_priority_bucket c ≤ 2
unfolding reading_priority_bucket
bucket-le_two c = ground arith

-- The class is one of those numbers, the places of labels in kLayoutLabels.
abbrev OneOf : List ℕ → ℤ → Type 0
OneOf [] c = ⊥
OneOf (k ∷ ks) c = (c ≡ pos k) ⊎ OneOf ks c

abbrev is_any : List ℕ → ℤ → Bool
is_any [] c = false
is_any (k ∷ ks) c = eq_ℤ c (pos k) || is_any ks c

eq_ℤ_iff : (c : ℤ) (k : ℕ) → (eq_ℤ c (pos k) ≡ true) ↔ (c ≡ pos k)
eq_ℤ_iff (pos n) k = (λ h. ap pos (ground (arith, h)), λ e. ground (arith, ap above e))
eq_ℤ_iff (negsuc n) k = (λ h. absurd (ground (arith, h)), λ e. absurd (cc e))

is_any_iff : (ks : List ℕ) (c : ℤ) → (is_any ks c ≡ true) ↔ OneOf ks c
is_any_iff [] c = (λ h. absurd (cc h), λ h. absurd h)
is_any_iff (k ∷ ks) c = (
  λ h. elim (Bool-cases (eq_ℤ c (pos k))) [
    | inl here ↦ inl ((eq_ℤ_iff c k).0 here)
    | inr other ↦ inr ((is_any_iff ks c).0 (rw other at h))
  ],
  λ h. elim h [
    | inl here ↦ rw ((eq_ℤ_iff c k).1 here) refl
    | inr there ↦ ground (arith, (is_any_iff ks c).1 there)
  ],
)

-- header, header_image
abbrev pub IsTop : ℤ → Type 0
IsTop c = OneOf (12 ∷ 13 ∷ []) c

-- footer, footer_image, footnote, reference, reference_content, vision_footnote
abbrev pub IsBottom : ℤ → Type 0
IsBottom c = OneOf (8 ∷ 9 ∷ 10 ∷ 18 ∷ 19 ∷ 24 ∷ []) c

abbrev pub IsBody : ℤ → Type 0
IsBody c = (¬ IsTop c) × (¬ IsBottom c)

bucket-IsTop : (c : ℤ) → reading_priority_bucket c ≡ 0 → IsTop c
unfolding reading_priority_bucket
bucket-IsTop c h = (is_any_iff (12 ∷ 13 ∷ []) c).0 (ground (arith, h))

bucket-IsBottom : (c : ℤ) → reading_priority_bucket c ≡ 2 → IsBottom c
unfolding reading_priority_bucket
bucket-IsBottom c h = (is_any_iff (8 ∷ 9 ∷ 10 ∷ 18 ∷ 19 ∷ 24 ∷ []) c).0 (ground (arith, h))

bucket-IsBody : (c : ℤ) → reading_priority_bucket c ≡ 1 → IsBody c
unfolding reading_priority_bucket
bucket-IsBody c h = (
  λ top. absurd (ground (arith, h, (is_any_iff (12 ∷ 13 ∷ []) c).1 top)),
  λ bottom. absurd (ground (arith, h, (is_any_iff (8 ∷ 9 ∷ 10 ∷ 18 ∷ 19 ∷ 24 ∷ []) c).1 bottom)),
)

module _ (fl : Floats) where
  abbrev pub bucket_of : Option (LayoutBox fl) → ℕ
  bucket_of none = 3
  bucket_of (some lb) = reading_priority_bucket lb.class_id

  -- The bucket of the box at a position of the layout.
  abbrev pub rank_of : List (LayoutBox fl) → ℕ → ℕ
  rank_of layout i = bucket_of (get_elem? layout i)

  fill_buckets-Three :
      (layout : List (LayoutBox fl)) (k : ℕ) (rest : List (LayoutBox fl)) (bs : Buckets)
      → ((i : ℕ) → get_elem? layout (k + i) ≡ get_elem? rest i)
      → Three (rank_of layout) bs
      → Three (rank_of layout) (fill_buckets fl k rest bs)
  unfolding fill_buckets
  fill_buckets-Three layout k [] bs h t = t
  fill_buckets-Three layout k (lb ∷ rest) bs h t =
      let here : get_elem? layout k ≡ some lb =
        subst (λ n. get_elem? layout n ≡ some lb) (omega arith) (h 0) in
      let later : (i : ℕ) → get_elem? layout (suc k + i) ≡ get_elem? rest i =
        λ i. subst (λ n. get_elem? layout n ≡ get_elem? rest i) (omega arith) (h (suc i)) in
      fill_buckets-Three layout (suc k) rest
        (push_bucket (reading_priority_bucket lb.class_id) k bs) later
        (push_bucket-Three (rank_of layout) (reading_priority_bucket lb.class_id) k bs
          (ap bucket_of here) (bucket-le_two lb.class_id) t)

  -- A position of the layout whose class is one of those, or none of those.
  abbrev pub ClassAt : (ℤ → Type 0) → List (LayoutBox fl) → ℕ → Type 0
  ClassAt Is layout i = (lb : LayoutBox fl) × (get_elem? layout i ≡ some lb) × Is lb.class_id

  ClassAt-rank :
      (Is : ℤ → Type 0) (b : ℕ) (layout : List (LayoutBox fl)) (i : ℕ)
      → b ≤ 2
      → ((c : ℤ) → reading_priority_bucket c ≡ b → Is c)
      → rank_of layout i ≡ b
      → ClassAt Is layout i
  ClassAt-rank Is b layout i le is e = elim (Option-cases (get_elem? layout i)) [
    | inl missing ↦ absurd (ground (arith, le, sym (ap bucket_of missing) ∙ e))
    | inr (lb, there) ↦ (lb, there, is lb.class_id (sym (ap bucket_of there) ∙ e))
  ]

  -- Whatever the boxes and the gap, the reading order of a page is first its headers and header images,
  -- then everything of another class, then its footers, footer images, footnotes, references and their
  -- content, and vision footnotes.
  pub assign_reading_order-IsSectioned :
      (layout : List (LayoutBox fl)) (min_gap : ℤ)
      → (top : List ℕ) × (body : List ℕ) × (bottom : List ℕ) × (assign_reading_order fl layout
            min_gap
          ≡ top ++ (body ++ bottom))
        × All (ClassAt IsTop layout) top
        × All (ClassAt IsBody layout) body
        × All (ClassAt IsBottom layout) bottom
  unfolding assign_reading_order order_buckets
  assign_reading_order-IsSectioned layout gap =
      let bs = fill_buckets fl 0 layout ([], [], []) in
      let t : Three (rank_of layout) bs =
        fill_buckets-Three layout 0 layout ([], [], []) (λ i. ap (get_elem? layout) (omega arith))
          (tt, tt, tt) in
      let cut = λ (is : List ℕ). xy_cut_subset fl layout is gap in
      let section : (Is : ℤ → Type 0) (b : ℕ) (is : List ℕ)
          → b ≤ 2
          → ((c : ℤ) → reading_priority_bucket c ≡ b → Is c)
          → Ranked (rank_of layout) b is
          → All (ClassAt Is layout) (cut is) =
        λ Is b is le known r.
          All-weaken _ _ (cut is) (λ i e. ClassAt-rank Is b layout i le known e)
            (Ranked-perm (rank_of layout) b (cut is) is
              (λ i. omega (arith, count-perm i (xy_cut_subset-Perm fl layout is gap))) r) in
      (
        cut bs.0,
        cut bs.1,
        cut bs.2,
        refl,
        section IsTop 0 bs.0 (omega arith) bucket-IsTop t.0,
        section IsBody 1 bs.1 (omega arith) bucket-IsBody t.1,
        section IsBottom 2 bs.2 (omega arith) bucket-IsBottom t.2,
      )
