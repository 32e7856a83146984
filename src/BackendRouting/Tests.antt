-- ===== src/BackendRouting/Tests.antt =====
-- A routing file with a local and a remote backend, and the theorems about routing at it. A JSON value
-- is a number here: 0 is the file, 1 and 2 its backends, 3 a route's text.
use turbo_ocr.Common.{
  ℕ, ◌≡◌, refl, true, false, Option, none, some, List, [], ◌∷◌, if◌then◌else◌, ◌==◌, Bytes, codes,
  bytes_eq,
}
use turbo_ocr.Validation.Check.{ok}
use turbo_ocr.Validation.Params.{
  EndpointSpec, supported, RequestRouting, in_group, spec_allows, is_known_param, override_name,
  apply_routing_override, scan_other, scan_param, scan_params, validate_params,
}
use turbo_ocr.BackendRouting.Table.{Table, find, put, bytes_lt}
use turbo_ocr.BackendRouting.Spec.{
  openai, Parser, BackendSpec, default_spec, RoutingTable, engine_valid_for, parser_name,
  parse_parser,
}
use turbo_ocr.BackendRouting.Env.{
  Environment, default_word, resolve_api_key, synth_from_env, table_backend_env, local_backend,
}
use turbo_ocr.BackendRouting.Parse.{Json, catch, parse_local, parse_openai, parse_backend}
use turbo_ocr.BackendRouting.Load.{
  check_route, check_routes, fill_route, fill_routes, parse_backends, parse_routes, parse_root,
  parse_file, load_routing_config,
}
use turbo_ocr.BackendRouting.Resolve.{openai_names, routable_backend_names, resolve}
use turbo_ocr.BackendRouting.ResolveLaws.{Resolves, validate_params-Resolves}
use turbo_ocr.BackendRouting.ParseLaws.{IsCallable, parse_backend-IsCallable}
use turbo_ocr.Validation.ParamsLaws.{no_routing}

abbrev fields_of : ℕ → Table Bytes
fields_of j =
    if j == 1
    then (codes "kind", codes "openai")
      ∷ (codes "base_url", codes "http://h")
      ∷ (codes "model", codes "m")
      ∷ (codes "prompt", codes "Table:")
      ∷ (codes "api_key", codes "env:K")
      ∷ []
    else if j == 2
    then (codes "kind", codes "local") ∷ (codes "engine", codes "auto") ∷ []
    else []

abbrev lookup : Table Bytes → Bytes → Option Bytes
lookup [] key = none
lookup ((k, v) ∷ rest) key = if bytes_eq k key then some v else lookup rest key

abbrev or_value : Option Bytes → Bytes → Bytes
or_value none default = default
or_value (some v) default = v

abbrev file_json : Json
file_json = record {
  J = ℕ;
  parse = λ s. some 1;
  read = λ s. some 0;
  value_string = λ j key default. some (or_value (lookup (fields_of j) key) default);
  value_int = λ j key default. some default;
  string_member = λ j key. lookup (fields_of j) key;
  object_members = λ j key.
      if bytes_eq key (codes "backends")
      then (codes "fast", 2) ∷ (codes "remote", 1) ∷ []
      else (codes "formula", 3) ∷ [];
  as_string = λ j. if j == 3 then some (codes "fast") else none;
}

abbrev file_env : Environment
file_env name =
    if bytes_eq name (codes "TURBO_ROUTING_CONFIG")
    then some (codes "routes.json")
    else if bytes_eq name (codes "K")
    then some (codes "s3cret")
    else none

abbrev any_file : Bytes → Option Bytes
any_file path = some []

abbrev remote : BackendSpec
remote = record default_spec {
  name = codes "remote";
  kind = openai;
  base_url = codes "http://h";
  model = codes "m";
  prompt = codes "Table:";
  api_key = codes "s3cret";
}

abbrev loaded : RoutingTable
loaded = record {
  backends =
      (codes "fast", local_backend (codes "fast") (codes "auto")) ∷ (codes "remote", remote) ∷ [];
  routes =
      (codes "formula", codes "fast")
      ∷ (codes "table", default_word)
      ∷ (codes "text", default_word)
      ∷ [];
}

load_file : load_routing_config file_json file_env any_file ≡ ok loaded
unfolding load_routing_config parse_file parse_root parse_routes parse_backends fill_routes
    fill_route check_routes check_route parse_backend parse_openai parse_local catch resolve_api_key
    parse_parser synth_from_env table_backend_env find put bytes_lt bytes_eq engine_valid_for
load_file = refl

abbrev query : List (Bytes × Bytes)
query = (codes "route_table", codes "remote") ∷ []

abbrev endpoint : EndpointSpec
endpoint = record {
  ocr_options = true;
  layout_only_allowed = false;
  routing = supported;
  routing_unsupported_reason = [];
  pixel_dims = false;
  pdf_options = false;
  markdown_embed = false;
}

abbrev outcome : RequestRouting × List Bytes
outcome = (record { table = codes "remote"; formula = [] }, [])

query_passes :
    validate_params query endpoint
      (routable_backend_names loaded (codes "table"))
      (routable_backend_names loaded (codes "formula"))
      true
      no_routing
    ≡ ok outcome
unfolding validate_params scan_params scan_param scan_other apply_routing_override override_name
    in_group spec_allows is_known_param routable_backend_names openai_names find bytes_eq
query_passes = refl

resolve-remote : resolve loaded (codes "table") (codes "remote") ≡ ok (some remote)
unfolding resolve find bytes_eq
resolve-remote = refl

parser_names : (p : Parser) → parse_parser (parser_name p) ≡ some p
unfolding parse_parser bytes_eq
parser_names Parser.otsl = refl
parser_names Parser.latex = refl
parser_names Parser.plain = refl
parser_names Parser.raw = refl

validate_params-Resolves_example :
    Resolves loaded (codes "table") (codes "remote") × Resolves loaded (codes "formula") []
validate_params-Resolves_example =
    validate_params-Resolves file_json file_env any_file query endpoint true load_file query_passes

remote_parses : parse_backend file_json file_env (codes "remote") 1 ≡ ok remote
unfolding parse_backend parse_openai catch resolve_api_key parse_parser bytes_eq
remote_parses = refl

parse_backend-IsCallable_example : (remote.name ≡ codes "remote") × IsCallable file_env remote
parse_backend-IsCallable_example =
    parse_backend-IsCallable file_env file_json (codes "remote") 1 remote_parses
