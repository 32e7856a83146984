-- ===== src/Validation/LenientScan.antt =====
-- The loop of `validate_params` in lenient mode.
use turbo_ocr.Common.{
  ◌≡◌, refl, ◌∙◌, sym, ap, subst, ◌⊎◌, inl, inr, false, not, ◌&&◌, ◌||◌, List, [], ◌∷◌, ◌++◌,
  append-nil, append_assoc, arith, if◌then◌else◌, Bytes, codes, bytes_eq, bytes_eq_iff,
  bytes_eq_comm, Bool-cases,
}
use turbo_ocr.Validation.Check.{ok}
use turbo_ocr.Validation.Params.{
  EndpointSpec, routing_params, in_group, is_known_param, spec_allows, Scan, scan_other, scan_param,
  scan_params,
}

-- The names that lenient mode reports: known to some endpoint, and not taken by this one.
abbrev pub dropped_names : EndpointSpec → List (Bytes × Bytes) → List Bytes
dropped_names spec [] = []
dropped_names spec ((name, value) ∷ params) =
    if not (in_group routing_params name || spec_allows spec name) && is_known_param name
    then name ∷ dropped_names spec params
    else dropped_names spec params

-- The value of the last parameter of that name, else `value`.
unfoldable pub last_value : Bytes → Bytes → List (Bytes × Bytes) → Bytes
last_value name value [] = value
last_value name value ((key, v) ∷ params) =
    last_value name (if bytes_eq key name then v else value) params

-- A parameter names a table route, a formula route, or no route.
route-cases :
    (name : Bytes)
    → (name ≡ codes "route_table")
      ⊎ ((name ≡ codes "route_formula")
          ⊎ ((in_group routing_params name ≡ false)
              × (bytes_eq name (codes "route_table") ≡ false)
              × (bytes_eq name (codes "route_formula") ≡ false)))
unfolding in_group
route-cases name = elim (Bool-cases (bytes_eq name (codes "route_table"))) [
  | inl t ↦ inl ((bytes_eq_iff name _).0 t)
  | inr t ↦ elim (Bool-cases (bytes_eq name (codes "route_formula"))) [
    | inl f ↦ inr (inl ((bytes_eq_iff name _).0 f))
    | inr f ↦ inr (
        inr (
          rw
              (
                bytes_eq_comm (codes "route_table") name,
                t,
                bytes_eq_comm (codes "route_formula") name,
                f,
              )
              refl,
          t,
          f,
        ))
  ]
]

-- What is left to scan, and the locals that lenient mode then has.
abbrev pub lenient_scan : EndpointSpec → List (Bytes × Bytes) → Scan → Scan
lenient_scan spec params s = record {
  route_table = last_value (codes "route_table") s.route_table params;
  route_formula = last_value (codes "route_formula") s.route_formula params;
  ignored = s.ignored ++ dropped_names spec params;
}

-- One round takes one parameter off what is left.
abbrev IsRound : EndpointSpec → Bytes → Bytes → Scan → Type 0
IsRound spec name value s =
    (t : Scan) × (scan_param spec false name value s ≡ ok t)
    × ((rest : List (Bytes × Bytes))
        → lenient_scan spec rest t ≡ lenient_scan spec ((name, value) ∷ rest) s)

route_table-IsRound :
    (spec : EndpointSpec) (value : Bytes) (s : Scan) → IsRound spec (codes "route_table") value s
unfolding scan_param last_value in_group bytes_eq
route_table-IsRound spec value s = (record s { route_table = value }, refl, λ rest. refl)

route_formula-IsRound :
    (spec : EndpointSpec) (value : Bytes) (s : Scan) → IsRound spec (codes "route_formula") value s
unfolding scan_param last_value in_group bytes_eq
route_formula-IsRound spec value s = (record s { route_formula = value }, refl, λ rest. refl)

scan_param-lenient :
    (spec : EndpointSpec) (name value : Bytes) (s : Scan) → IsRound spec name value s
unfolding scan_param scan_other last_value
scan_param-lenient spec name value s = elim (route-cases name) [
  | inl t ↦ subst (λ n. IsRound spec n value s) (sym t) (route_table-IsRound spec value s)
  | inr (inl f) ↦ subst (λ n. IsRound spec n value s) (sym f) (route_formula-IsRound spec value s)
  | inr (inr (n, t, f)) ↦ elim (Bool-cases (spec_allows spec name)) [
    | inl a ↦ (s, ground (arith, n, a), λ rest. rw (t, f, n, a, dropped_names) refl)
    | inr d ↦ elim (Bool-cases (is_known_param name)) [
      | inl k ↦ (
        record s { ignored = s.ignored ++ name ∷ [] },
        ground (arith, n, d, k),
        λ rest.
            rw
              (
                t,
                f,
                n,
                d,
                k,
                dropped_names,
                append_assoc s.ignored (name ∷ []) (dropped_names spec rest),
              )
              refl,
      )
      | inr u ↦ (s, ground (arith, n, d, u), λ rest. rw (t, f, n, d, u, dropped_names) refl)
    ]
  ]
]

pub scan_params-lenient :
    (spec : EndpointSpec) (params : List (Bytes × Bytes)) (s : Scan)
    → scan_params spec false params s ≡ ok (lenient_scan spec params s)
unfolding scan_params last_value
scan_params-lenient spec [] s = rw (append-nil s.ignored) refl
scan_params-lenient spec ((name, value) ∷ params) s =
    let (t, first, same) = scan_param-lenient spec name value s in
    rw first (scan_params-lenient spec params t ∙ ap ok (same params))
