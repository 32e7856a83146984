-- ===== src/Validation/Tests.antt =====
-- Concrete requests, and the theorems about validation at them.
use turbo_ocr.Common.{
  ◌≡◌, ◌≤◌, ◌*◌, refl, Bool, true, false, ◌||◌, if◌then◌else◌, List, [], ◌∷◌, All, Bytes, codes,
  bytes_eq, replicate,
}
use turbo_ocr.Validation.Check.{ok, ◌>>=◌}
use turbo_ocr.Validation.Params.{
  EndpointSpec, RequestRouting, supported, in_group, is_known_param, spec_allows, validate_params,
  scan_params, scan_param, scan_other, apply_routing_override, override_name, routing_params,
}
use turbo_ocr.Validation.LenientScan.{dropped_names, last_value}
use turbo_ocr.Validation.ParamsLaws.{
  IsTaken, IsRoutable, no_routing, validate_params-strict, validate_params-lenient,
  validate_params-IsRoutable,
}
use turbo_ocr.Validation.Options.{Request, InferOptions, default_options, Build}
use turbo_ocr.Validation.Gate.{HttpRequest, Server}
use turbo_ocr.Validation.PixelDims.{
  PixelRequest, PixelDims, resolve, parse_value, from_chars, magnitude, digits_value,
  resolve_pixel_dims, checked_dims, required_dims, positive_dims, validate_pixel_payload, same_int,
}
use turbo_ocr.Validation.PixelLaws.{IsRaster, validate_pixel_payload_lem}
use turbo_ocr.Decode.SizeClass.{SizeLimits, classify_image_size}

abbrev image_spec : EndpointSpec
image_spec = record {
  ocr_options = true;
  layout_only_allowed = true;
  routing = supported;
  routing_unsupported_reason = [];
  pixel_dims = false;
  pdf_options = false;
  markdown_embed = false;
}

abbrev backends : List Bytes
backends = codes "vlm" ∷ []

abbrev params : List (Bytes × Bytes)
params = (codes "layout", codes "1") ∷ (codes "route_table", codes "vlm") ∷ []

abbrev no_names : List Bytes
no_names = []

abbrev routed : RequestRouting
routed = record { table = codes "vlm"; formula = [] }

validated :
    (strict : Bool)
    → validate_params params image_spec backends [] strict no_routing ≡ ok (routed, [])
unfolding validate_params scan_params scan_param scan_other apply_routing_override override_name
    in_group is_known_param spec_allows bytes_eq
validated strict = refl

validate_params-strict_example : All (IsTaken image_spec) params × (no_names ≡ [])
validate_params-strict_example =
    validate_params-strict params image_spec backends [] no_routing (validated true)

validate_params-lenient_example : validate_params params image_spec backends [] false no_routing ≡ (
    apply_routing_override
      (last_value (codes "route_table") [] params)
      (last_value (codes "route_formula") [] params)
      image_spec
      backends
      []
      no_routing
    >>= λ r. ok (r, dropped_names image_spec params))
validate_params-lenient_example = validate_params-lenient params image_spec backends [] no_routing

validate_params-IsRoutable_example : IsRoutable backends (codes "vlm") × IsRoutable [] []
validate_params-IsRoutable_example =
    validate_params-IsRoutable params image_spec backends [] false (validated false)

takes_layout :
    (in_group routing_params (codes "layout") || spec_allows image_spec (codes "layout")) ≡ true
unfolding in_group spec_allows bytes_eq
takes_layout = refl

-- A request with `as_blocks=1`.
abbrev blocks_request : Request
blocks_request key = if bytes_eq key (codes "as_blocks") then codes "1" else []

abbrev gpu_build : Build
gpu_build = record { cpu_only = false; layout_available = true; allow_image_only = false }

abbrev blocks_options : InferOptions
blocks_options = record default_options {
  want_blocks = true;
  want_reading_order = true;
  want_layout = true;
}

abbrev server : Server
server = record {
  build = gpu_build;
  table_available = true;
  formula_available = false;
  valid_route_table = backends;
  valid_route_formula = [];
  strict = true;
  url_decode = λ s. s;
}

abbrev blocks_http : HttpRequest
blocks_http = record { query = codes "as_blocks=1&route_table=vlm"; parameter = blocks_request }

-- A grey image of 2 x 3 with its sides in the query.
abbrev grey_query : Bytes → Bytes
grey_query key =
    if bytes_eq key (codes "width")
    then codes "2"
    else if bytes_eq key (codes "height")
    then codes "3"
    else codes "1"

abbrev grey_request : PixelRequest
grey_request = record { query = grey_query; header = λ key. []; body = replicate 6 0 }

abbrev grey : PixelDims
grey = record { width = 2; height = 3; channels = 1; used_legacy_header = false }

abbrev pixel_limits : SizeLimits
pixel_limits = record { max_image_dim = 16384; max_image_pixels = 100000000 }

grey_valid : validate_pixel_payload pixel_limits grey_request ≡ ok grey
unfolding validate_pixel_payload resolve_pixel_dims resolve parse_value from_chars magnitude
    digits_value same_int checked_dims required_dims positive_dims classify_image_size bytes_eq
grey_valid = refl

validate_pixel_payload_lem_example :
    IsRaster grey
    × (6 ≡ grey.width * grey.height * grey.channels)
    × (grey.width ≤ 16384)
    × (grey.height ≤ 16384)
    × (grey.width * grey.height ≤ 100000000)
validate_pixel_payload_lem_example = validate_pixel_payload_lem pixel_limits grey_request grey_valid
