-- ===== src/Router/TieLaws.antt =====
-- What `resolve_tie_breakers` of src/router/cua_router_rules.cpp may change: it only ever sends a
-- cell to Text, and never the only table of the page.
use turbo_ocr.Common.{
  Floats, ℕ, zero, suc, ◌≡◌, ◌≢◌, refl, ltb, Bool, true, false, List, [], ◌∷◌, if◌then◌else◌,
  get_elem?, set, All, All-get, ℤ, pos, arith, get-set_ne, Bool-cases, Option-cases, inl, inr,
}
use turbo_ocr.Router.Types.{
  Rect, Box, RouterReason, RouterDecision, LayoutBox, RouterConfig, OverlapStats, PageStats,
}
use turbo_ocr.Router.Rules.{class_priority, is_class, is_text}
use turbo_ocr.Router.TieBreak.{
  Verdict, both_stay, first_loses, second_loses, demote, iou_loser, overlap_loser, pair_verdict,
  update, apply_verdict, Cell, against, tie_rounds, resolve_tie_breakers,
}
use turbo_ocr.Router.RouteLaws.{IsCoherent, route-IsCoherent}
use turbo_ocr.Router.Classify.{decisions_for, route_all, overlap_of, page_stats, cells_of}

demote-IsCoherent : (r : RouterReason) (d : RouterDecision) → IsCoherent d → IsCoherent (demote r d)
unfolding demote
demote-IsCoherent r d h = elim (Bool-cases (is_text d.dest)) [ inl e ↦ rw e h | inr e ↦ rw e refl ]

-- A verdict that spares the first, or the second, cell.
abbrev pub SparesFirst : Verdict → Type 0
SparesFirst (first_loses r) = true ≡ false
SparesFirst _ = Unit

abbrev pub SparesSecond : Verdict → Type 0
SparesSecond (second_loses r) = true ≡ false
SparesSecond _ = Unit

if_lem {κ} : (P : Verdict → Type κ) (b : Bool) (v w : Verdict) → P v → P w → P (if b then v else w)
if_lem P true v w hv hw = hv
if_lem P false v w hv hw = hw

priority_lem :
    (c d : ℤ)
    → is_class c 21 ≡ true
    → is_class d 21 ≡ false
    → ltb (class_priority d) (class_priority c) ≡ true
unfolding class_priority
priority_lem c d h k = ground arith

priority_ge :
    (c d : ℤ)
    → is_class c 21 ≡ true
    → is_class d 21 ≡ false
    → ltb (class_priority c) (class_priority d) ≡ false
unfolding class_priority
priority_ge c d h k = ground arith

set-All :
    (P : RouterDecision → Type 0) (ds : List RouterDecision) (i : ℕ) (v : RouterDecision)
    → P v
    → All P ds
    → All P (set ds i v)
set-All P [] i v hv h = tt
set-All P (d ∷ ds) zero v hv h = (hv, h.1)
set-All P (d ∷ ds) (suc i) v hv h = (h.0, set-All P ds i v hv h.1)

module _ (fl : Floats) (a b : LayoutBox fl) (ra rb : Rect) where
  -- A table against a cell that is none.
  pub pair_verdict-SparesFirst :
      is_class a.class_id 21 ≡ true
      → is_class b.class_id 21 ≡ false
      → SparesFirst (pair_verdict fl a b ra rb)
  unfolding pair_verdict overlap_loser iou_loser
  pair_verdict-SparesFirst h k = rw (priority_lem a.class_id b.class_id h k, h) (ground arith)

  pub pair_verdict-SparesSecond :
      is_class a.class_id 21 ≡ false
      → is_class b.class_id 21 ≡ true
      → SparesSecond (pair_verdict fl a b ra rb)
  unfolding pair_verdict overlap_loser iou_loser
  pair_verdict-SparesSecond h k =
      rw (priority_ge b.class_id a.class_id k h, priority_lem b.class_id a.class_id k h, h, k)
        (ground arith)

update-All :
    (P : RouterDecision → Type 0) (f : RouterDecision → RouterDecision)
    → ((d : RouterDecision) → P d → P (f d))
    → (ds : List RouterDecision) (i : ℕ) → All P ds
    → All P (update f ds i)
unfolding update
update-All P f hf ds i h = elim (Option-cases (get_elem? ds i)) [
  | inl e ↦ rw (e, update) h
  | inr (d, e) ↦ rw (e, update) (set-All P ds i (f d) (hf d (All-get P ds i h e)) h)
]

pub get-update_ne :
    (f : RouterDecision → RouterDecision) (ds : List RouterDecision) (i k : ℕ)
    → i ≢ k
    → get_elem? (update f ds i) k ≡ get_elem? ds k
unfolding update
get-update_ne f ds i k ne = elim (Option-cases (get_elem? ds i)) [
  | inl e ↦ rw (e, update) refl
  | inr (d, e) ↦ rw (e, update) (get-set_ne ds i k (f d) ne)
]

apply_verdict-IsCoherent :
    (i j : ℕ) (v : Verdict) (ds : List RouterDecision)
    → All IsCoherent ds
    → All IsCoherent (apply_verdict i j v ds)
unfolding apply_verdict
apply_verdict-IsCoherent i j both_stay ds h = h
apply_verdict-IsCoherent i j (first_loses r) ds h =
    update-All IsCoherent (demote r) (demote-IsCoherent r) ds i h
apply_verdict-IsCoherent i j (second_loses r) ds h =
    update-All IsCoherent (demote r) (demote-IsCoherent r) ds j h

-- A round spares every place but its two, and of these the one that its verdict spares.
pub spares_other :
    (i j k : ℕ) (v : Verdict) (ds : List RouterDecision)
    → i ≢ k
    → j ≢ k
    → get_elem? (apply_verdict i j v ds) k ≡ get_elem? ds k
unfolding apply_verdict
spares_other i j k both_stay ds hi hj = refl
spares_other i j k (first_loses r) ds hi hj = get-update_ne (demote r) ds i k hi
spares_other i j k (second_loses r) ds hi hj = get-update_ne (demote r) ds j k hj

pub spares_first :
    (i j : ℕ) (v : Verdict) (ds : List RouterDecision)
    → j ≢ i
    → SparesFirst v
    → get_elem? (apply_verdict i j v ds) i ≡ get_elem? ds i
unfolding apply_verdict
spares_first i j both_stay ds ne h = refl
spares_first i j (first_loses r) ds ne h = absurd (cc)
spares_first i j (second_loses r) ds ne h = get-update_ne (demote r) ds j i ne

pub spares_second :
    (i j : ℕ) (v : Verdict) (ds : List RouterDecision)
    → i ≢ j
    → SparesSecond v
    → get_elem? (apply_verdict i j v ds) j ≡ get_elem? ds j
unfolding apply_verdict
spares_second i j both_stay ds ne h = refl
spares_second i j (first_loses r) ds ne h = get-update_ne (demote r) ds i j ne
spares_second i j (second_loses r) ds ne h = absurd (cc)

module _ (fl : Floats) where
  against-IsCoherent :
      (i : ℕ) (a : Cell fl) (j : ℕ) (bs : List (Cell fl)) (ds : List RouterDecision)
      → All IsCoherent ds
      → All IsCoherent (against fl i a j bs ds)
  unfolding against
  against-IsCoherent i a j [] ds h = h
  against-IsCoherent i a j (b ∷ bs) ds h =
      let v = pair_verdict fl a.0 b.0 a.1 b.1 in
      against-IsCoherent i a (suc j) bs (apply_verdict i j v ds)
        (apply_verdict-IsCoherent i j v ds h)

  tie_rounds-IsCoherent :
      (i : ℕ) (cells : List (Cell fl)) (ds : List RouterDecision)
      → All IsCoherent ds
      → All IsCoherent (tie_rounds fl i cells ds)
  unfolding tie_rounds
  tie_rounds-IsCoherent i [] ds h = h
  tie_rounds-IsCoherent i (a ∷ rest) ds h =
      tie_rounds-IsCoherent (suc i) rest (against fl i a (suc i) rest ds)
        (against-IsCoherent i a (suc i) rest ds h)

  route_all-IsCoherent :
      (i : ℕ) (layout : List (LayoutBox fl)) (ov : OverlapStats fl) (page : PageStats fl)
      (cfg : RouterConfig fl)
      → All IsCoherent (route_all fl i layout ov page cfg)
  unfolding route_all
  route_all-IsCoherent i [] ov page cfg = tt
  route_all-IsCoherent i (lb ∷ lbs) ov page cfg =
      (route-IsCoherent fl (pos i) lb ov page cfg, route_all-IsCoherent (suc i) lbs ov page cfg)

  -- For any page: after routing and the tie-breakers, every decision has a formula wrap exactly when
  -- it still goes to the formula stage.
  pub decisions_for-IsCoherent :
      (cfg : RouterConfig fl) (dets : List Box) (layout : List (LayoutBox fl))
      → All IsCoherent (decisions_for fl cfg dets layout)
  unfolding decisions_for resolve_tie_breakers
  decisions_for-IsCoherent cfg dets layout =
      tie_rounds-IsCoherent 0 (cells_of fl layout)
        (route_all fl 0 layout (overlap_of fl dets layout) (page_stats fl cfg layout) cfg)
        (route_all-IsCoherent 0 layout (overlap_of fl dets layout) (page_stats fl cfg layout) cfg)
