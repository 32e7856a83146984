-- ===== src/Validation/Gate.antt =====
-- validation/request_gate.h: the parameters of the query string, and the one call that every handler
-- makes. drogon's `urlDecode` is a parameter.
use turbo_ocr.Common.{
  ℕ, suc, Bool, true, false, not, ◌&&◌, ◌||◌, Option, none, some, List, [], ◌∷◌, ◌==◌, ltb,
  if◌then◌else◌, Bytes, codes, bytes_eq, is_empty, length,
}
use turbo_ocr.Validation.Check.{text, Check, ok, ◌>>=◌, ◌>>◌, fail_if, invalid_parameter}
use turbo_ocr.Validation.Params.{EndpointSpec, validate_params}
use turbo_ocr.Validation.Options.{
  Request, InferOptions, default_options, Build, parse_query_options, check_structure_backends,
}

-- The text up to the first `mark`, and the text behind it if there is one.
unfoldable pub split_at : ℕ → Bytes → Bytes × Option Bytes
split_at mark [] = ([], none)
split_at mark (c ∷ cs) =
    let rest = split_at mark cs in if c == mark then ([], some cs) else (c ∷ rest.0, rest.1)

-- `std::string` order, by which a std::map is sorted.
unfoldable pub bytes_lt : Bytes → Bytes → Bool
bytes_lt [] [] = false
bytes_lt [] (_ ∷ _) = true
bytes_lt (_ ∷ _) [] = false
bytes_lt (x ∷ xs) (y ∷ ys) = ltb x y || (x == y && bytes_lt xs ys)

-- `out[k] = v`.
unfoldable pub insert : Bytes → Bytes → List (Bytes × Bytes) → List (Bytes × Bytes)
insert k v [] = (k, v) ∷ []
insert k v ((j, w) ∷ m) =
    if bytes_eq k j
    then (k, v) ∷ m
    else if bytes_lt k j
    then (k, v) ∷ (j, w) ∷ m
    else (j, w) ∷ insert k v m

abbrev pub or_empty : Option Bytes → Bytes
or_empty none = []
or_empty (some v) = v

-- One `k=v` pair; a pair with no name is skipped.
unfoldable pub add_pair : (Bytes → Bytes) → Bytes → List (Bytes × Bytes) → List (Bytes × Bytes)
add_pair url_decode kv out =
    let (k, v) = split_at b'=' kv in
    if is_empty k then out else insert (url_decode k) (url_decode (or_empty v)) out

-- The pairs between `&`s, on fuel: every round but the last takes at least one byte.
unfoldable pub split_pairs : ℕ → Bytes → List Bytes
split_pairs fuel [] = []
split_pairs ℕ.zero (c ∷ cs) = []
split_pairs (suc fuel) (c ∷ cs) =
    let (pair, rest) = split_at b'&' (c ∷ cs) in pair ∷ split_pairs fuel (or_empty rest)

unfoldable pub add_pairs :
    (Bytes → Bytes) → List Bytes → List (Bytes × Bytes) → List (Bytes × Bytes)
add_pairs url_decode [] out = out
add_pairs url_decode (kv ∷ kvs) out = add_pairs url_decode kvs (add_pair url_decode kv out)

-- What `validate_request` reads of a request.
pub record HttpRequest : Type 0 where
  pub query : Bytes
  pub parameter : Request

-- The capabilities that the server passes to the gate.
pub record Server : Type 0 where
  pub build : Build
  pub table_available : Bool
  pub formula_available : Bool
  pub valid_route_table : List Bytes
  pub valid_route_formula : List Bytes
  pub strict : Bool
  pub url_decode : Bytes → Bytes

unfoldable pub query_only_params : (Bytes → Bytes) → Bytes → List (Bytes × Bytes)
query_only_params url_decode q = add_pairs url_decode (split_pairs (suc (length q)) q) []

unfoldable pub parse_if : Bool → Build → Request → Check InferOptions
parse_if ocr_options b req = if ocr_options then parse_query_options b req else ok default_options

unfoldable pub check_if : Bool → InferOptions → Server → Check (Unit {0})
check_if ocr_options o s =
    if ocr_options then check_structure_backends o s.table_available s.formula_available else ok tt

-- The gate on the parameters already read from the query string. The result holds the options and the
-- names for the X-Ignored-Params header; an error is the 400 response.
unfoldable pub validate_with :
    List (Bytes × Bytes) → Request → EndpointSpec → Server → Check (InferOptions × List Bytes)
validate_with params req spec s = do
  o ← parse_if spec.ocr_options s.build req
  r ←
      validate_params params spec s.valid_route_table s.valid_route_formula s.strict
        o.routing_override
  fail_if (not o.want_text && not spec.layout_only_allowed) invalid_parameter
      (text (codes "layout-only is not supported on this endpoint"))
  check_if spec.ocr_options o s
  ok (record o { routing_override = r.0 }, r.1)

unfoldable pub validate_request :
    HttpRequest → EndpointSpec → Server → Check (InferOptions × List Bytes)
validate_request req spec s =
    validate_with (query_only_params s.url_decode req.query) req.parameter spec s
