-- ===== src/Validation/GateLaws.antt =====
-- What a request that passes the gate satisfies, and that the query loop has fuel enough.
use turbo_ocr.Common.{
  ℕ, zero, suc, ◌≤◌, ◌<◌, ◌≡◌, refl, ap, ◌∙◌, true, not, ◌||◌, [], ◌∷◌, arith, ◌==◌, Bytes, length,
  leb, leb→le, leb→gt, Bool-cases, inl, inr,
}
use turbo_ocr.Validation.Params.{EndpointSpec}
use turbo_ocr.Validation.Options.{InferOptions}
use turbo_ocr.Validation.OptionsLaws.{Answers}
use turbo_ocr.Validation.ParamsLaws.{IsRoutable}
use turbo_ocr.Validation.Gate.{HttpRequest, Server, split_at, or_empty, split_pairs}

-- The rest behind a mark is shorter than the text.
split_at-shorter : (mark : ℕ) (s : Bytes) → length (or_empty (split_at mark s).1) ≤ length s
unfolding split_at
split_at-shorter mark [] = omega arith
split_at-shorter mark (c ∷ cs) = elim (Bool-cases (c == mark)) [
  | inl e ↦ rw (e, split_at) (omega arith)
  | inr e ↦ rw (e, split_at) (omega (arith, split_at-shorter mark cs))
]

split_at-progress :
    (mark c : ℕ) (cs : Bytes) → length (or_empty (split_at mark (c ∷ cs)).1) ≤ length cs
unfolding split_at
split_at-progress mark c cs = elim (Bool-cases (c == mark)) [
  | inl e ↦ rw (e, split_at) (omega arith)
  | inr e ↦ rw (e, split_at) (split_at-shorter mark cs)
]

-- One more round changes nothing.
split_pairs-suc :
    (fuel : ℕ) (q : Bytes) → length q ≤ fuel → split_pairs (suc fuel) q ≡ split_pairs fuel q
unfolding split_pairs
split_pairs-suc zero [] h = refl
split_pairs-suc (suc fuel) [] h = refl
split_pairs-suc zero (c ∷ cs) h = absurd (omega arith)
split_pairs-suc (suc fuel) (c ∷ cs) h = ap (◌∷◌ (split_at b'&' (c ∷ cs)).0) (
    split_pairs-suc fuel (or_empty (split_at b'&' (c ∷ cs)).1)
      (omega (arith, split_at-progress b'&' c cs)))

-- The loop over a query string ends by itself: with any fuel of at least the query's length it finds
-- the same pairs.
split_pairs-fuel :
    (fuel : ℕ) (q : Bytes) → length q ≤ fuel → split_pairs fuel q ≡ split_pairs (length q) q
split_pairs-fuel zero q h = ap (λ n. split_pairs n q) (omega arith)
split_pairs-fuel (suc fuel) q h = elim (Bool-cases (leb (length q) fuel)) [
  | inl e ↦
      let le : length q ≤ fuel = leb→le (length q) fuel e in
      split_pairs-suc fuel q le ∙ split_pairs-fuel fuel q le
  | inr e ↦
      let gt : fuel < length q = leb→gt (length q) fuel e in ap (λ n. split_pairs n q) (omega arith)
]

-- What the gate promises a handler.
pub record Admitted (req : HttpRequest) (spec : EndpointSpec) (s : Server) (o : InferOptions)
    : Type 0 where
  pub answers : Answers s.build req.parameter o
  pub layout_only : (o.want_text || spec.layout_only_allowed) ≡ true
  pub tables_loaded : (not o.want_tables || s.table_available) ≡ true
  pub formulas_loaded : (not o.want_formulas || s.formula_available) ≡ true
  pub table_route : IsRoutable s.valid_route_table o.routing_override.table
  pub formula_route : IsRoutable s.valid_route_formula o.routing_override.formula
