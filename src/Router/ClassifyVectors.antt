-- ===== src/Router/ClassifyVectors.antt =====
-- The three vectors of the boxes that `classify` of src/router/cua_router.cpp fills, one by one.
use turbo_ocr.Common.{
  Floats, ℕ, suc, ◌≡◌, refl, ap, sym, ◌∙◌, Bool, Option, none, List, [], ◌∷◌, ◌++◌, map, append-nil,
  append_assoc, if◌then◌else◌, set, length, length-append, replicate, ℤ, pos, arith, Bool-cases,
  inl, inr,
}
use turbo_ocr.Router.Types.{
  Box, Destination, text, table, formula, skip, RouterDecision, LayoutBox, RouterConfig,
  RoutingPlan,
}
use turbo_ocr.Router.Classify.{
  bucket_decision, bucket_decisions, suppresses, owner_id, bucket_det, all_text, push_text,
  decisions_for, owner_from, bucket_dets, fresh_plan, classify,
}

-- The entry of the mask.
abbrev pub flag : Bool → ℕ
flag b = if b then 1 else 0

-- The places of `false` in a mask whose first place is i.
unfoldable pub free_from : ℕ → List Bool → List ℤ
free_from i [] = []
free_from i (b ∷ bs) = (if b then [] else pos i ∷ []) ++ free_from (suc i) bs

set-append :
    (done rest : List ℕ) (x v : ℕ) → set (done ++ x ∷ rest) (length done) v ≡ done ++ v ∷ rest
set-append [] rest x v = refl
set-append (d ∷ done) rest x v = ap (◌∷◌ d) (set-append done rest x v)

bucket_det-texts :
    (ds : List RouterDecision) (i : ℕ) (o : Option ℕ) (p : RoutingPlan)
    → (bucket_det ds i o p).text_indices
      ≡ p.text_indices ++ (if suppresses ds o then [] else pos i ∷ [])
unfolding bucket_det
bucket_det-texts ds i o p = elim (Bool-cases (suppresses ds o)) [
  | inl h ↦ rw h (sym (append-nil p.text_indices))
  | inr h ↦ rw h refl
]

bucket_det-owners :
    (ds : List RouterDecision) (i : ℕ) (o : Option ℕ) (p : RoutingPlan)
    → (bucket_det ds i o p).text_to_layout_id
      ≡ p.text_to_layout_id ++ (if suppresses ds o then [] else owner_id o ∷ [])
unfolding bucket_det
bucket_det-owners ds i o p = elim (Bool-cases (suppresses ds o)) [
  | inl h ↦ rw h (sym (append-nil p.text_to_layout_id))
  | inr h ↦ rw h refl
]

bucket_det-mask :
    (ds : List RouterDecision) (o : Option ℕ) (p : RoutingPlan) (done rest : List ℕ)
    → p.rec_suppress ≡ done ++ 0 ∷ rest
    → (bucket_det ds (length done) o p).rec_suppress ≡ done ++ flag (suppresses ds o) ∷ rest
unfolding bucket_det
bucket_det-mask ds o p done rest e = elim (Bool-cases (suppresses ds o)) [
  | inl h ↦ rw h (rw e (set-append done rest 0 1))
  | inr h ↦ rw h e
]

module _ (fl : Floats) (layout : List (LayoutBox fl)) (ds : List RouterDecision) where
  abbrev pub is_suppressed : Box → Bool
  is_suppressed b = suppresses ds (owner_from fl b 0 layout)

  -- The owners of the boxes that are kept.
  unfoldable pub free_owners : List Box → List ℤ
  free_owners [] = []
  free_owners (b ∷ bs) =
      (if is_suppressed b then [] else owner_id (owner_from fl b 0 layout) ∷ []) ++ free_owners bs

  bucket_dets-texts :
      (i : ℕ) (bs : List Box) (p : RoutingPlan)
      → (bucket_dets fl layout ds i bs p).text_indices
        ≡ p.text_indices ++ free_from i (map is_suppressed bs)
  unfolding bucket_dets free_from
  bucket_dets-texts i [] p = sym (append-nil p.text_indices)
  bucket_dets-texts i (b ∷ bs) p =
      let o = owner_from fl b 0 layout in
      bucket_dets-texts (suc i) bs (bucket_det ds i o p)
      ∙ ap (λ z. z ++ free_from (suc i) (map is_suppressed bs)) (bucket_det-texts ds i o p)
      ∙ append_assoc p.text_indices (if is_suppressed b then [] else pos i ∷ [])
          (free_from (suc i) (map is_suppressed bs))

  bucket_dets-owners :
      (i : ℕ) (bs : List Box) (p : RoutingPlan)
      → (bucket_dets fl layout ds i bs p).text_to_layout_id ≡ p.text_to_layout_id ++ free_owners bs
  unfolding bucket_dets free_owners
  bucket_dets-owners i [] p = sym (append-nil p.text_to_layout_id)
  bucket_dets-owners i (b ∷ bs) p =
      let o = owner_from fl b 0 layout in
      bucket_dets-owners (suc i) bs (bucket_det ds i o p)
      ∙ ap (λ z. z ++ free_owners bs) (bucket_det-owners ds i o p)
      ∙ append_assoc p.text_to_layout_id
          (if is_suppressed b then [] else owner_id (owner_from fl b 0 layout) ∷ [])
          (free_owners bs)

  bucket_dets-mask :
      (bs : List Box) (p : RoutingPlan) (done : List ℕ)
      → p.rec_suppress ≡ done ++ replicate (length bs) 0
      → (bucket_dets fl layout ds (length done) bs p).rec_suppress
        ≡ done ++ map flag (map is_suppressed bs)
  unfolding bucket_dets
  bucket_dets-mask [] p done e = e
  bucket_dets-mask (b ∷ bs) p done e =
      let o = owner_from fl b 0 layout in
      let v = flag (is_suppressed b) in
      let next = bucket_det-mask ds o p done (replicate (length bs) 0) e in
      let ih =
        bucket_dets-mask bs (bucket_det ds (length done) o p) (done ++ v ∷ [])
          (next ∙ sym (append_assoc done (v ∷ []) (replicate (length bs) 0))) in
      let len : length (done ++ v ∷ []) ≡ suc (length done) =
        omega (arith, length-append done (v ∷ [])) in
      (rw len at ih) ∙ append_assoc done (v ∷ []) (map flag (map is_suppressed bs))

-- A page without layout is one whose boxes have no owner.
all_text-eq :
    (fl : Floats) (ds : List RouterDecision) (i : ℕ) (bs : List Box) (p : RoutingPlan)
    → all_text i bs p ≡ bucket_dets fl [] ds i bs p
unfolding all_text bucket_dets bucket_det owner_from
all_text-eq fl ds i [] p = refl
all_text-eq fl ds i (b ∷ bs) p = all_text-eq fl ds (suc i) bs (push_text i none p)

-- Sorting the decisions into buckets leaves the three vectors of the boxes alone.
abbrev pub SameBoxes : RoutingPlan → RoutingPlan → Type 0
SameBoxes p q =
    (p.text_indices ≡ q.text_indices)
    × (p.text_to_layout_id ≡ q.text_to_layout_id)
    × (p.rec_suppress ≡ q.rec_suppress)

bucket_decision-SameBoxes :
    (d : RouterDecision) (to : Destination) (p : RoutingPlan) → SameBoxes (bucket_decision d to p) p
unfolding bucket_decision
bucket_decision-SameBoxes d text p = (refl, refl, refl)
bucket_decision-SameBoxes d table p = (refl, refl, refl)
bucket_decision-SameBoxes d formula p = (refl, refl, refl)
bucket_decision-SameBoxes d skip p = (refl, refl, refl)

bucket_decisions-SameBoxes :
    (ds : List RouterDecision) (p : RoutingPlan) → SameBoxes (bucket_decisions ds p) p
unfolding bucket_decisions
bucket_decisions-SameBoxes [] p = (refl, refl, refl)
bucket_decisions-SameBoxes (d ∷ ds) p =
    let h = bucket_decisions-SameBoxes ds (bucket_decision d d.dest p) in
    let k = bucket_decision-SameBoxes d d.dest p in (h.0 ∙ k.0, h.1 ∙ k.1, h.2 ∙ k.2)

-- The three vectors of the boxes, from the decisions.
abbrev pub AreVectors :
    (fl : Floats) → List (LayoutBox fl) → List RouterDecision → List Box → RoutingPlan → Type 0
AreVectors fl layout ds dets p =
    (p.rec_suppress ≡ map flag (map (is_suppressed fl layout ds) dets))
    × (p.text_indices ≡ free_from 0 (map (is_suppressed fl layout ds) dets))
    × (p.text_to_layout_id ≡ free_owners fl layout ds dets)

bucket_dets-AreVectors :
    (fl : Floats) (layout : List (LayoutBox fl)) (ds bucketed : List RouterDecision)
    (dets : List Box)
    → AreVectors fl layout ds dets
        (bucket_dets fl layout ds 0 dets (bucket_decisions bucketed (fresh_plan fl dets)))
bucket_dets-AreVectors fl layout ds bucketed dets =
    let p = bucket_decisions bucketed (fresh_plan fl dets) in
    let same = bucket_decisions-SameBoxes bucketed (fresh_plan fl dets) in
    (
      bucket_dets-mask fl layout ds dets p [] same.2,
      bucket_dets-texts fl layout ds 0 dets p
          ∙ ap (λ z. z ++ free_from 0 (map (is_suppressed fl layout ds) dets)) same.0,
      bucket_dets-owners fl layout ds 0 dets p
          ∙ ap (λ z. z ++ free_owners fl layout ds dets) same.1,
    )

pub classify-AreVectors :
    (fl : Floats) (cfg : RouterConfig fl) (dets : List Box) (layout : List (LayoutBox fl))
    → AreVectors fl layout (decisions_for fl cfg dets layout) dets (classify fl cfg dets layout)
unfolding classify bucket_decisions
classify-AreVectors fl cfg dets [] =
    let ds = decisions_for fl cfg dets [] in
    rw (all_text-eq fl ds 0 dets (fresh_plan fl dets)) (bucket_dets-AreVectors fl [] ds [] dets)
classify-AreVectors fl cfg dets (lb ∷ lbs) =
    bucket_dets-AreVectors fl (lb ∷ lbs) (decisions_for fl cfg dets (lb ∷ lbs))
      (decisions_for fl cfg dets (lb ∷ lbs)) dets
