-- ===== src/Validation/Params.antt =====
-- validation/request_validation.h: which parameters an endpoint takes, and the routing overrides.
use turbo_ocr.Common.{
  Bool, false, ◌&&◌, ◌||◌, List, [], ◌∷◌, ◌++◌, if◌then◌else◌, Bytes, codes, bytes_eq, is_empty,
}
use turbo_ocr.Validation.Check.{text, about, Check, ok, err, ◌>>=◌, invalid_parameter}

pub data RoutingSupport : Type 0 where
  supported unsupported : RoutingSupport

pub record EndpointSpec : Type 0 where
  pub ocr_options : Bool
  pub layout_only_allowed : Bool
  pub routing : RoutingSupport
  pub routing_unsupported_reason : Bytes
  pub pixel_dims : Bool
  pub pdf_options : Bool
  pub markdown_embed : Bool

-- `backend_routing::RequestRouting`: empty names keep the configured route.
pub record RequestRouting : Type 0 where
  pub table : Bytes
  pub formula : Bytes

abbrev pub ocr_option_params : List Bytes
ocr_option_params =
    codes "layout"
    ∷ codes "reading_order"
    ∷ codes "as_blocks"
    ∷ codes "tables"
    ∷ codes "formulas"
    ∷ codes "text"
    ∷ []

abbrev pub routing_params : List Bytes
routing_params = codes "route_table" ∷ codes "route_formula" ∷ []

abbrev pub pixel_dim_params : List Bytes
pixel_dim_params = codes "width" ∷ codes "height" ∷ codes "channels" ∷ []

abbrev pub pdf_params : List Bytes
pdf_params =
    codes "dpi"
    ∷ codes "mode"
    ∷ codes "markdown"
    ∷ codes "as_pages"
    ∷ codes "images"
    ∷ codes "format"
    ∷ codes "lossless"
    ∷ codes "png_compression"
    ∷ codes "quality"
    ∷ codes "max_side"
    ∷ codes "autorotate"
    ∷ []

abbrev pub markdown_params : List Bytes
markdown_params = codes "embed" ∷ []

unfoldable pub in_group : List Bytes → Bytes → Bool
unfolding bytes_eq
in_group [] name = false
in_group (p ∷ ps) name = bytes_eq p name || in_group ps name

unfoldable pub is_known_param : Bytes → Bool
is_known_param name =
    in_group ocr_option_params name
    || (in_group routing_params name
        || (in_group pixel_dim_params name
            || (in_group pdf_params name || in_group markdown_params name)))

unfoldable pub spec_allows : EndpointSpec → Bytes → Bool
spec_allows spec name =
    (spec.ocr_options && in_group ocr_option_params name)
    || ((spec.pixel_dims && in_group pixel_dim_params name)
        || ((spec.pdf_options && in_group pdf_params name)
            || (spec.markdown_embed && in_group markdown_params name)))

-- `valid.find(name) != valid.end()` on a set of names.
abbrev pub contains : List Bytes → Bytes → Bool
contains = in_group

abbrev pub routing_unknown_override : Bytes
routing_unknown_override = codes "ROUTING_UNKNOWN_OVERRIDE"

-- One modality: an empty name overrides nothing, another must be a configured backend.
unfoldable pub override_name : Bytes → List Bytes → Bytes → Bytes → Check Bytes
override_name param valid name current =
    if is_empty name
    then ok current
    else if contains valid name
    then ok name
    else err routing_unknown_override (about param name)

unfoldable pub apply_routing_override :
    Bytes → Bytes → EndpointSpec → List Bytes → List Bytes → RequestRouting → Check RequestRouting
apply_routing_override table formula spec valid_table valid_formula out =
    if is_empty table && is_empty formula then ok out else elim spec.routing [
      | unsupported ↦ err invalid_parameter (text spec.routing_unsupported_reason)
      | supported ↦ override_name (codes "route_table") valid_table table out.table >>= λ t.
          override_name (codes "route_formula") valid_formula formula out.formula >>= λ f.
          ok (record { table = t; formula = f })
    ]

-- The local variables of the loop in `validate_params`, with `ignored_out`.
pub record Scan : Type 0 where
  pub route_table : Bytes
  pub route_formula : Bytes
  pub ignored : List Bytes

-- A parameter of category 2 or 3: known but not supported here, or unknown.
unfoldable pub scan_other : Bool → Bytes → Scan → Check Scan
scan_other strict name s =
    if is_known_param name
    then if strict
      then err invalid_parameter (about (codes "not supported") name)
      else ok (record s { ignored = s.ignored ++ name ∷ [] })
    else if strict
    then err invalid_parameter (about (codes "unknown") name)
    else ok s

-- One round of the loop.
unfoldable pub scan_param : EndpointSpec → Bool → Bytes → Bytes → Scan → Check Scan
scan_param spec strict name value s =
    if in_group routing_params name
    then if bytes_eq name (codes "route_table")
      then ok (record s { route_table = value })
      else ok (record s { route_formula = value })
    else if spec_allows spec name
    then ok s
    else scan_other strict name s

unfoldable pub scan_params : EndpointSpec → Bool → List (Bytes × Bytes) → Scan → Check Scan
scan_params spec strict [] s = ok s
scan_params spec strict ((name, value) ∷ params) s =
    scan_param spec strict name value s >>= scan_params spec strict params

abbrev pub no_scan : Scan
no_scan = record { route_table = []; route_formula = []; ignored = [] }

-- The result holds the routing override and the names that were ignored.
unfoldable pub validate_params :
    List (Bytes × Bytes)
    → EndpointSpec
    → List Bytes
    → List Bytes
    → Bool
    → RequestRouting
    → Check (RequestRouting × List Bytes)
validate_params params spec valid_table valid_formula strict out =
    scan_params spec strict params no_scan >>= λ s.
    apply_routing_override s.route_table s.route_formula spec valid_table valid_formula out >>= λ r.
    ok (r, s.ignored)
