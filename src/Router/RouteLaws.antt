-- ===== src/Router/RouteLaws.antt =====
-- What `route` of src/router/cua_router_rules.cpp decides for one layout cell.
use turbo_ocr.Common.{
  Floats, ◌≡◌, refl, ap, sym, subst, ◌∙◌, Bool, true, false, ◌&&◌, Option-cases, Bool-cases, inl,
  inr, ◌⊎◌, ℤ, arith,
}
use turbo_ocr.Router.Types.{
  Destination, text, table, formula, skip, FormulaWrap, no_wrap, ConfidenceTier, trust, verify,
  fallback, RouterReason, RouterDecision, LayoutBox, RouterConfig, CellStats, OverlapStats,
  PageStats,
}
use turbo_ocr.Router.Rules.{destination_for, formula_wrap_for, is_text, tier_for}
use turbo_ocr.Router.Route.{
  class_decision, image_gate, tier_policy, tier_policy_at, demote_fallback, to_text, salvage, route,
  passes_text, stats_at, is_formula_salvage_candidate,
}

abbrev pub is_formula : Destination → Bool
is_formula formula = true
is_formula _ = false

abbrev pub wraps : FormulaWrap → Bool
wraps no_wrap = false
wraps _ = true

-- A cell has a wrap exactly when it goes to the formula stage.
abbrev pub IsCoherent : RouterDecision → Type 0
IsCoherent d = is_formula d.dest ≡ wraps d.wrap

class_lem : (c : ℤ) → is_formula (destination_for c) ≡ wraps (formula_wrap_for c)
unfolding destination_for formula_wrap_for
class_lem c = ground arith

&&-right : (a b : Bool) → (a && b) ≡ true → b ≡ true
&&-right true b h = h
&&-right false b h = absurd (cc)

to_text-IsCoherent :
    (r : RouterReason) (d : RouterDecision) → wraps d.wrap ≡ false → IsCoherent (to_text r d)
to_text-IsCoherent r d h = sym h

demote_fallback-IsCoherent :
    (dest : Destination) (d : RouterDecision)
    → d.dest ≡ dest
    → IsCoherent d
    → IsCoherent (demote_fallback dest d)
demote_fallback-IsCoherent text d e h = h
demote_fallback-IsCoherent table d e h = sym (ap is_formula e) ∙ h
demote_fallback-IsCoherent formula d e h = refl
demote_fallback-IsCoherent skip d e h = sym (ap is_formula e) ∙ h

tier_policy_at-IsCoherent :
    (t : ConfidenceTier) (d : RouterDecision) → IsCoherent d → IsCoherent (tier_policy_at t d)
tier_policy_at-IsCoherent trust d h = h
tier_policy_at-IsCoherent verify d h = h
tier_policy_at-IsCoherent fallback d h = demote_fallback-IsCoherent d.dest d refl h

-- Below the lowest cutoff a cell is Text.
demote_fallback-text :
    (dest : Destination) (d : RouterDecision) → d.dest ≡ dest → (demote_fallback dest d).dest ≡ text
demote_fallback-text text d e = e
demote_fallback-text table d e = refl
demote_fallback-text formula d e = refl
demote_fallback-text skip d e = refl

-- Text, or a formula that the text path reads too.
abbrev pub KeepsText : RouterDecision → Type 0
KeepsText d = (d.dest ≡ text) ⊎ ((d.dest ≡ formula) × (d.also_text ≡ true))

module _ (fl : Floats) (i : ℤ) (lb : LayoutBox fl) (ov : OverlapStats fl) (page : PageStats fl)
    (cfg : RouterConfig fl) where
  class_decision-IsCoherent : IsCoherent (class_decision fl i lb cfg)
  unfolding class_decision
  class_decision-IsCoherent = class_lem lb.class_id

  passes_text-no_wrap :
      (st : CellStats fl)
      → passes_text fl lb st ≡ true
      → wraps (formula_wrap_for lb.class_id) ≡ false
  unfolding formula_wrap_for
  passes_text-no_wrap st h = ground arith

  -- The gate changes nothing or finds a chart or an image, and these have no wrap.
  gated : RouterDecision
  unfolding image_gate class_decision
  gated = image_gate fl lb ov cfg (class_decision fl i lb cfg)

  gated-IsCoherent : IsCoherent gated
  unfolding gated image_gate class_decision
  gated-IsCoherent = elim (Option-cases (stats_at fl ov i)) [
    | inl none_there ↦ rw none_there (class_lem lb.class_id)
    | inr (st, there) ↦
        rw there (elim (Bool-cases (cfg.image_text_fallback && passes_text fl lb st)) [
          | inl h ↦ rw h (sym (passes_text-no_wrap st (&&-right cfg.image_text_fallback _ h)))
          | inr h ↦ rw h (class_lem lb.class_id)
        ])
  ]

  salvage-IsCoherent :
      (d : RouterDecision) → IsCoherent d → IsCoherent (salvage fl lb ov page cfg d)
  unfolding salvage
  salvage-IsCoherent d h =
      elim (Bool-cases
        (is_text d.dest && is_formula_salvage_candidate fl lb d.layout_idx ov page cfg)) [
          | inl found_one ↦ rw found_one refl
          | inr missed ↦ rw missed h
        ]

  -- For any cell, cutoffs and page statistics: `route` sets a formula wrap exactly when it sends the
  -- cell to the formula stage.
  pub route-IsCoherent : IsCoherent (route fl i lb ov page cfg)
  unfolding route tier_policy gated
  route-IsCoherent =
      salvage-IsCoherent (tier_policy gated)
        (tier_policy_at-IsCoherent gated.tier gated gated-IsCoherent)

  gated-tier : gated.tier ≡ tier_for fl lb.class_id lb.score cfg
  unfolding gated image_gate class_decision
  gated-tier = elim (Option-cases (stats_at fl ov i)) [
    | inl none_there ↦ rw none_there refl
    | inr (st, there) ↦
        rw there (elim (Bool-cases (cfg.image_text_fallback && passes_text fl lb st)) [
          | inl h ↦ rw h refl
          | inr h ↦ rw h refl
        ])
  ]

  salvage-KeepsText : (d : RouterDecision) → d.dest ≡ text → KeepsText (salvage fl lb ov page cfg d)
  unfolding salvage
  salvage-KeepsText d h =
      elim (Bool-cases
        (is_text d.dest && is_formula_salvage_candidate fl lb d.layout_idx ov page cfg)) [
          | inl found_one ↦ rw found_one (inr (refl, refl))
          | inr missed ↦ rw missed (inl h)
        ]

  -- A cell whose score is below both cutoffs of its class is never lost to the text path: `route`
  -- sends it to Text, or to the formula stage with its text read as well.
  pub route-fallback :
      tier_for fl lb.class_id lb.score cfg ≡ fallback → KeepsText (route fl i lb ov page cfg)
  unfolding route tier_policy gated
  route-fallback low = salvage-KeepsText (tier_policy gated) (
      subst (λ t. (tier_policy_at t gated).dest ≡ text) (sym (gated-tier ∙ low))
        (demote_fallback-text gated.dest gated refl))
