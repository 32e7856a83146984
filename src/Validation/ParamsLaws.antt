-- ===== src/Validation/ParamsLaws.antt =====
-- What `validate_params` lets through, and what it reports.
use turbo_ocr.Common.{
  ◌≡◌, refl, ◌∙◌, subst, ◌⊎◌, inl, inr, Bool, true, false, ◌&&◌, ◌||◌, List, [], ◌∷◌, arith, Bytes,
  codes, is_empty, All, Bool-cases,
}
use turbo_ocr.Validation.Check.{text, ok, err, ◌>>=◌, bind-ok, ok-injective, invalid_parameter}
use turbo_ocr.Validation.Params.{
  RoutingSupport, supported, unsupported, EndpointSpec, RequestRouting, routing_params, in_group,
  is_known_param, spec_allows, contains, override_name, apply_routing_override, Scan, scan_other,
  scan_param, scan_params, no_scan, validate_params,
}
use turbo_ocr.Validation.LenientScan.{dropped_names, last_value, scan_params-lenient}

-- A parameter that the endpoint acts on.
abbrev pub IsTaken : EndpointSpec → Bytes × Bytes → Type 0
IsTaken spec kv = (in_group routing_params kv.0 || spec_allows spec kv.0) ≡ true

scan_param-IsTaken :
    (spec : EndpointSpec) (name value : Bytes) (s : Scan) {t : Scan}
    → scan_param spec true name value s ≡ ok t
    → IsTaken spec (name, value) × (t.ignored ≡ s.ignored)
unfolding scan_param scan_other
scan_param-IsTaken spec name value s e = ground arith

scan_params-IsTaken :
    (spec : EndpointSpec) (params : List (Bytes × Bytes)) (s : Scan) {t : Scan}
    → scan_params spec true params s ≡ ok t
    → All (IsTaken spec) params × (t.ignored ≡ s.ignored)
unfolding scan_params
scan_params-IsTaken spec [] s e = (tt, cc)
scan_params-IsTaken spec ((name, value) ∷ params) s e =
    let (u, first, rest) = bind-ok (scan_param spec true name value s) _ e in
    let (taken, same) = scan_param-IsTaken spec name value s first in
    let (all, same') = scan_params-IsTaken spec params u rest in ((taken, all), same' ∙ same)

-- A backend name that an override sets: none, or one that is configured.
abbrev pub IsRoutable : List Bytes → Bytes → Type 0
IsRoutable valid name = (name ≡ []) ⊎ (contains valid name ≡ true)

override_name-IsRoutable :
    (param : Bytes) (valid : List Bytes) (name current : Bytes) {t : Bytes}
    → override_name param valid name current ≡ ok t
    → IsRoutable valid current
    → IsRoutable valid t
unfolding override_name
override_name-IsRoutable param valid [] current e h = subst (IsRoutable valid) (ok-injective e) h
override_name-IsRoutable param valid (c ∷ cs) current e h =
    elim (Bool-cases (contains valid (c ∷ cs))) [
      | inl k ↦ subst (IsRoutable valid) (ok-injective (rw k at e)) (inr k)
      | inr k ↦ let bad = rw k at e in absurd (cc)
    ]

abbrev pub no_routing : RequestRouting
no_routing = record { table = []; formula = [] }

apply_routing_override-IsRoutable :
    (table formula : Bytes) (spec : EndpointSpec) (vt vf : List Bytes) {r : RequestRouting}
    → apply_routing_override table formula spec vt vf no_routing ≡ ok r
    → IsRoutable vt r.table × IsRoutable vf r.formula
unfolding apply_routing_override
apply_routing_override-IsRoutable table formula spec vt vf {r} e =
    elim (Bool-cases (is_empty table && is_empty formula)) [
      | inl none_given ↦
          let same = ok-injective (rw none_given at e) in rw (← same) (inl refl, inl refl)
      | inr given ↦ go spec.routing (rw given at e)
    ]
  where
    go :
        (s : RoutingSupport)
        → (elim s [
          | unsupported ↦ err invalid_parameter (text spec.routing_unsupported_reason)
          | supported ↦ override_name (codes "route_table") vt table [] >>= λ t.
              override_name (codes "route_formula") vf formula [] >>= λ f.
              ok (record { table = t; formula = f })
        ])
          ≡ ok r
        → IsRoutable vt r.table × IsRoutable vf r.formula
    go unsupported e = cc
    go supported e =
        let (t, et, rest) = bind-ok (override_name (codes "route_table") vt table []) _ e in
        let (f, ef, last) = bind-ok (override_name (codes "route_formula") vf formula []) _ rest in
        rw (← ok-injective last) (
          override_name-IsRoutable _ vt table [] et (inl refl),
          override_name-IsRoutable _ vf formula [] ef (inl refl),
        )

module _ (params : List (Bytes × Bytes)) (spec : EndpointSpec) (vt vf : List Bytes) where
  -- In strict mode a request passes only if this endpoint acts on every one of its parameters, and then
  -- nothing was ignored.
  pub validate_params-strict :
      (out : RequestRouting) {r : RequestRouting × List Bytes}
      → validate_params params spec vt vf true out ≡ ok r
      → All (IsTaken spec) params × (r.1 ≡ [])
  unfolding validate_params
  validate_params-strict out {r} e =
      let (s, scanned, rest) = bind-ok (scan_params spec true params no_scan) _ e in
      let (routing, _, last) =
        bind-ok (apply_routing_override s.route_table s.route_formula spec vt vf out) _ rest in
      let (taken, same) = scan_params-IsTaken spec params no_scan scanned in
      (taken, rw (← ok-injective last) same)

  -- In lenient mode no parameter name is an error: a request fails only if its last `route_table` and
  -- `route_formula` fail as a routing override, and the names reported as ignored are those that another
  -- endpoint knows and this one does not take, in the order of the request.
  pub validate_params-lenient :
      (out : RequestRouting)
      → validate_params params spec vt vf false out ≡ (
          apply_routing_override
            (last_value (codes "route_table") [] params)
            (last_value (codes "route_formula") [] params)
            spec
            vt
            vf
            out
          >>= λ r. ok (r, dropped_names spec params))
  unfolding validate_params
  validate_params-lenient out = rw (scan_params-lenient spec params no_scan) refl

  -- In both modes a routing override that passes names a configured backend, or nothing.
  pub validate_params-IsRoutable :
      (strict : Bool) {r : RequestRouting × List Bytes}
      → validate_params params spec vt vf strict no_routing ≡ ok r
      → IsRoutable vt r.0.table × IsRoutable vf r.0.formula
  unfolding validate_params
  validate_params-IsRoutable strict {r} e =
      let (s, scanned, rest) = bind-ok (scan_params spec strict params no_scan) _ e in
      let (routing, applied, last) =
        bind-ok (apply_routing_override s.route_table s.route_formula spec vt vf no_routing) _
          rest in
      rw (← ok-injective last)
        (apply_routing_override-IsRoutable s.route_table s.route_formula spec vt vf applied)

-- Every parameter that some endpoint acts on is in the universe of known parameters, so strict and
-- lenient mode cannot disagree on it by an omission in the tables.
spec_allows-known :
    (spec : EndpointSpec) (name : Bytes)
    → (in_group routing_params name || spec_allows spec name) ≡ true
    → is_known_param name ≡ true
unfolding spec_allows is_known_param
spec_allows-known spec name h = ground arith
