-- ===== src/Router/Rules.antt =====
-- The pure rules of src/router/cua_router_rules.cpp and include/turbo_ocr/router/router_destination.h:
-- which destination, tier and wrap a class and a score have.
use turbo_ocr.Common.{
  Floats, ℕ, Bool, true, false, ◌||◌, Option, none, some, ◌==◌, leb, if◌then◌else◌, ℤ, pos, negsuc,
  eq_ℤ,
}
use turbo_ocr.Router.Types.{
  Destination, text, table, formula, skip, FormulaWrap, no_wrap, inline, display, ConfidenceTier,
  trust, verify, fallback, RouterConfig,
}

-- class_id == k.
abbrev pub is_class : ℤ → ℕ → Bool
is_class c k = eq_ℤ c (pos k)

abbrev pub supplementary_region_class_id : ℤ
supplementary_region_class_id = negsuc 0

-- The switch: its cases that return Text are those of the default.
unfoldable pub destination_for : ℤ → Destination
destination_for c =
    if is_class c 3
    then skip
    else if is_class c 5
    then formula
    else if is_class c 9
    then skip
    else if is_class c 13
    then skip
    else if is_class c 14
    then skip
    else if is_class c 15
    then formula
    else if is_class c 20
    then skip
    else if is_class c 21
    then table
    else text

abbrev pub default_destination : ℤ → Destination
default_destination c = destination_for c

unfoldable pub class_priority : ℤ → ℕ
class_priority c =
    if is_class c 21
    then 5
    else if is_class c 5
    then 4
    else if is_class c 15
    then 3
    else if is_class c 9 || is_class c 13 || is_class c 20
    then 1
    else if is_class c 3 || is_class c 14
    then 1
    else 2

unfoldable pub formula_wrap_for : ℤ → FormulaWrap
formula_wrap_for c = if is_class c 5 then display else if is_class c 15 then inline else no_wrap

abbrev pub is_text : Destination → Bool
is_text text = true
is_text _ = false

module _ (fl : Floats) where
  -- The score against the two cutoffs.
  abbrev pub tier_at : fl.F → fl.F → fl.F → ConfidenceTier
  tier_at tau_trust tau_verify score =
      if fl.le tau_trust score then trust else if fl.le tau_verify score then verify else fallback

  abbrev pub class_index : ℤ → Option ℕ
  class_index (pos c) = if leb 25 c then none else some c
  class_index (negsuc c) = none

  unfoldable pub tier_for : ℤ → fl.F → RouterConfig fl → ConfidenceTier
  tier_for c score cfg = elim (class_index c) [
    | none ↦ tier_at (fl.ratio 40 100) (fl.ratio 20 100) score
    | some i ↦ tier_at (cfg.tau_trust i) (cfg.tau_verify i) score
  ]

  abbrev pub default_trust : ℕ → fl.F
  default_trust c =
      if c == 21
      then fl.ratio 60 100
      else if c == 5 || c == 15
      then fl.ratio 55 100
      else if c == 14 || c == 3 || c == 20
      then fl.ratio 50 100
      else fl.ratio 40 100

  abbrev pub default_verify : ℕ → fl.F
  default_verify c =
      if c == 21
      then fl.ratio 25 100
      else if c == 5 || c == 15 || c == 14 || c == 3 || c == 20
      then fl.ratio 30 100
      else fl.ratio 20 100

  -- `RouterConfig::defaults()`.
  abbrev pub default_config : RouterConfig fl
  default_config = record {
    tau_trust = default_trust;
    tau_verify = default_verify;
    enable_formula_salvage = true;
    enable_table_verification = true;
    image_text_fallback = true;
  }
