-- ===== src/Router/ClassifyLaws.antt =====
-- What `classify` of src/router/cua_router.cpp leaves to text recognition: each detection box is
-- either kept, with the cell that owns it, or masked, and the mask is the decision's.
use turbo_ocr.Common.{
  Floats, ℕ, suc, ◌≡◌, refl, ap, sym, ◌∙◌, Option, none, List, [], ◌∷◌, ◌++◌, map, if◌then◌else◌,
  get_elem?, some, true, false, not, ◌&&◌, ◌+◌, ◌-◌, ◌<◌, ◌⊎◌, ltb, ◌==◌, ==_iff, ℤ, pos, negsuc,
  arith, Bool-cases, Option-cases, subst, inl, inr,
}
use turbo_ocr.Router.Types.{
  Box, Destination, text, table, formula, skip, RouterDecision, LayoutBox, RouterConfig,
}
use mathlib.Core.Option.{some-injective}
use turbo_ocr.Router.Geometry.{aabb, centroid_in_aabb}
use turbo_ocr.Router.Classify.{
  reads_own_text, suppresses, owner_id, decisions_for, owner_from, classify,
}
use turbo_ocr.Router.ClassifyVectors.{
  flag, free_from, is_suppressed, free_owners, classify-AreVectors,
}

-- A decision that reads its own text: a table or a formula, not asked for the text path too.
pub data OwnText (d : RouterDecision) : Type 0 where
  own_table : d.dest ≡ table → d.also_text ≡ false → OwnText d
  own_formula : d.dest ≡ formula → d.also_text ≡ false → OwnText d

reads_own_text-cases : (to : Destination) → reads_own_text to ≡ true → (to ≡ table) ⊎ (to ≡ formula)
reads_own_text-cases table h = inl refl
reads_own_text-cases formula h = inr refl
reads_own_text-cases text h = absurd (cc h)
reads_own_text-cases skip h = absurd (cc h)

reads_own_text-OwnText :
    (d : RouterDecision) → (reads_own_text d.dest && not d.also_text) ≡ true → OwnText d
reads_own_text-OwnText d h =
    let alone : d.also_text ≡ false = ground (arith, h) in
    elim (reads_own_text-cases d.dest (ground (arith, h))) [
      | inl e ↦ own_table e alone
      | inr e ↦ own_formula e alone
    ]

OwnText-reads_own_text :
    (d : RouterDecision) → OwnText d → (reads_own_text d.dest && not d.also_text) ≡ true
OwnText-reads_own_text d (own_table e alone) = rw (e, alone) refl
OwnText-reads_own_text d (own_formula e alone) = rw (e, alone) refl

module _ (fl : Floats) (layout : List (LayoutBox fl)) (ds : List RouterDecision) where
  -- The cell at place `o` of the layout holds the centroid of a box.
  abbrev pub HoldsAt : Box → ℕ → Type 0
  HoldsAt b o =
      (lb : LayoutBox fl) × (get_elem? layout o ≡ some lb)
      × (centroid_in_aabb fl b (aabb lb.box) ≡ true)

  -- The first cell that holds it.
  abbrev pub Owns : Box → ℕ → Type 0
  Owns b o = HoldsAt b o × ((k : ℕ) → k < o → ¬ HoldsAt b k)

  -- The boxes from the `i`-th on with their mask, the places of the boxes kept, and the owners beside
  -- these.
  pub data IsSplit : ℕ → List Box → List ℕ → List ℤ → List ℤ → Type 0 where
    no_boxes : {i : ℕ} → IsSplit i [] [] [] []
    masked :
        {i : ℕ} {b : Box} {bs : List Box} {mask : List ℕ} {kept owners : List ℤ} (o : ℕ)
        (d : RouterDecision)
        → Owns b o
        → get_elem? ds o ≡ some d
        → OwnText d
        → IsSplit (suc i) bs mask kept owners
        → IsSplit i (b ∷ bs) (1 ∷ mask) kept owners
    kept_owned :
        {i : ℕ} {b : Box} {bs : List Box} {mask : List ℕ} {kept owners : List ℤ} (o : ℕ)
        → Owns b o
        → ((d : RouterDecision) → get_elem? ds o ≡ some d → ¬ OwnText d)
        → IsSplit (suc i) bs mask kept owners
        → IsSplit i (b ∷ bs) (0 ∷ mask) (pos i ∷ kept) (pos o ∷ owners)
    kept_orphan :
        {i : ℕ} {b : Box} {bs : List Box} {mask : List ℕ} {kept owners : List ℤ}
        → ((k : ℕ) → ¬ HoldsAt b k)
        → IsSplit (suc i) bs mask kept owners
        → IsSplit i (b ∷ bs) (0 ∷ mask) (pos i ∷ kept) (negsuc 0 ∷ owners)

  abbrev IsOwner : Box → Option ℕ → Type 0
  IsOwner b none = (k : ℕ) → ¬ HoldsAt b k
  IsOwner b (some o) = Owns b o

  -- No cell up to the `i`-th holds the centroid when this one does not.
  not_yet :
      (b : Box) (i : ℕ) (lb : LayoutBox fl)
      → get_elem? layout i ≡ some lb
      → centroid_in_aabb fl b (aabb lb.box) ≡ false
      → ((k : ℕ) → k < i → ¬ HoldsAt b k)
      → (k : ℕ) → k < suc i
      → ¬ HoldsAt b k
  not_yet b i lb here outside before k early held = elim (Bool-cases (k == i)) [
    | inl same ↦
        let there = subst (λ n. get_elem? layout n ≡ some held.0) ((==_iff k i).0 same) held.1 in
        let cell = some-injective lb held.0 (sym here ∙ there) in
        let inside = subst (λ c. centroid_in_aabb fl b (aabb c.box) ≡ true) (sym cell) held.2 in
        cc (outside, inside)
    | inr other ↦ before k (ground (arith, early, other)) held
  ]

  owner_from-IsOwner :
      (b : Box) (i : ℕ) (rest : List (LayoutBox fl))
      → ((k : ℕ) → get_elem? layout (i + k) ≡ get_elem? rest k)
      → ((k : ℕ) → k < i → ¬ HoldsAt b k)
      → IsOwner b (owner_from fl b i rest)
  unfolding owner_from
  owner_from-IsOwner b i [] tail before = λ k held. elim (Bool-cases (ltb k i)) [
    | inl early ↦ before k (ground (arith, early)) held
    | inr late ↦
        let same : i + (k - i) ≡ k = ground (arith, late) in
        let missing = subst (λ n. get_elem? layout n ≡ none) same (tail (k - i)) in
        absurd (cc (missing, held.1))
  ]
  owner_from-IsOwner b i (lb ∷ rest) tail before =
      let here : get_elem? layout i ≡ some lb =
        subst (λ n. get_elem? layout n ≡ some lb) (omega arith) (tail 0) in
      elim (Bool-cases (centroid_in_aabb fl b (aabb lb.box))) [
        | inl inside ↦ rw (inside, owner_from) ((lb, here, inside), before)
        | inr outside ↦
            let later : (k : ℕ) → get_elem? layout (suc i + k) ≡ get_elem? rest k = λ k.
              subst (λ n. get_elem? layout n ≡ get_elem? rest k) (omega arith) (tail (suc k)) in
            rw (outside, owner_from)
              (owner_from-IsOwner b (suc i) rest later (not_yet b i lb here outside before))
      ]

  OwnText-suppresses :
      (o : ℕ)
      → ((d : RouterDecision) × (get_elem? ds o ≡ some d)
          × OwnText d
          × (suppresses ds (some o) ≡ true))
        ⊎ (((d : RouterDecision) → get_elem? ds o ≡ some d → ¬ OwnText d)
            × (suppresses ds (some o) ≡ false))
  OwnText-suppresses o = elim (Option-cases (get_elem? ds o)) [
    | inl missing ↦
        inr ((λ d there own. absurd (cc (missing, there))), rw (missing, suppresses) refl)
    | inr (d, there) ↦ elim (Bool-cases (reads_own_text d.dest && not d.also_text)) [
      | inl reads ↦ inl (d, there, reads_own_text-OwnText d reads, rw (there, suppresses) reads)
      | inr keeps ↦ inr (
        (λ e at own.
            let same = some-injective d e (sym there ∙ at) in
            absurd (cc (keeps, OwnText-reads_own_text d (subst OwnText (sym same) own)))),
        rw (there, suppresses) keeps,
      )
    ]
  ]

  cons-IsSplit :
      (i : ℕ) (b : Box) (bs : List Box) {mask : List ℕ} {kept owners : List ℤ} (o : Option ℕ)
      → IsOwner b o
      → IsSplit (suc i) bs mask kept owners
      → IsSplit i
          (b ∷ bs)
          (flag (suppresses ds o) ∷ mask)
          ((if suppresses ds o then [] else pos i ∷ []) ++ kept)
          ((if suppresses ds o then [] else owner_id o ∷ []) ++ owners)
  cons-IsSplit i b bs none orphan rest = kept_orphan orphan rest
  cons-IsSplit i b bs (some o) owns rest = elim (OwnText-suppresses o) [
    | inl (d, there, own, hidden) ↦ rw hidden (masked o d owns there own rest)
    | inr (other, shown) ↦ rw shown (kept_owned o owns other rest)
  ]

  vectors-IsSplit :
      (i : ℕ) (bs : List Box)
      → IsSplit i bs
          (map flag (map (is_suppressed fl layout ds) bs))
          (free_from i (map (is_suppressed fl layout ds) bs))
          (free_owners fl layout ds bs)
  unfolding free_from free_owners
  vectors-IsSplit i [] = no_boxes
  vectors-IsSplit i (b ∷ bs) =
      cons-IsSplit i b bs (owner_from fl b 0 layout)
        (owner_from-IsOwner b 0 layout (λ k. ap (get_elem? layout) (omega arith))
          (λ k early. absurd (omega arith)))
        (vectors-IsSplit (suc i) bs)

-- For every page, and any floats, the vectors that `classify` returns split the detection boxes: a box
-- whose first cell that holds its centroid is decided as a table or a formula, without text too, has the
-- mask 1 and is not kept; every other box has the mask 0 and is kept once, in order, and beside its index
-- stands the index of that first cell, or -1 when no cell holds its centroid.
pub classify-IsSplit :
    (fl : Floats) (cfg : RouterConfig fl) (dets : List Box) (layout : List (LayoutBox fl))
    → IsSplit fl layout
        (decisions_for fl cfg dets layout)
        0
        dets
        (classify fl cfg dets layout).rec_suppress
        (classify fl cfg dets layout).text_indices
        (classify fl cfg dets layout).text_to_layout_id
classify-IsSplit fl cfg dets layout =
    let (mask, kept, owners) = classify-AreVectors fl cfg dets layout in
    rw (mask, kept, owners) (vectors-IsSplit fl layout (decisions_for fl cfg dets layout) 0 dets)
