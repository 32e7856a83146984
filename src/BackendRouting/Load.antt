-- ===== src/BackendRouting/Load.antt =====
-- `parse_file` and `load_routing_config`. The file system is a parameter.
use turbo_ocr.Common.{
  Option, none, some, List, [], ◌∷◌, if◌then◌else◌, Bytes, codes, bytes_eq, is_empty,
}
use turbo_ocr.Validation.Check.{Check, ok, err, about, ◌>>=◌, ◌>>◌, fail_if}
use turbo_ocr.BackendRouting.Table.{Table, find, put}
use turbo_ocr.BackendRouting.Spec.{BackendSpec, default_spec, RoutingTable}
use turbo_ocr.BackendRouting.Env.{Environment, env_or, synth_from_env, default_word}
use turbo_ocr.BackendRouting.Parse.{Json, bad_kind, mismatched, parse_backend}

abbrev pub or_spec : Option BackendSpec → BackendSpec
or_spec none = default_spec
or_spec (some b) = b

abbrev pub or_empty : Option Bytes → Bytes
or_empty none = []
or_empty (some s) = s

-- A route to what is found under its name.
abbrev pub check_target : Bytes → Bytes → Option BackendSpec → Check (Unit {0})
check_target modality name none = err (codes "ROUTING_DANGLING_REF") (about modality name)
check_target modality name (some b) =
    fail_if (mismatched modality b) (codes "ROUTING_MODALITY_MISMATCH") (about name b.engine)

unfoldable pub check_route : Table BackendSpec → Bytes → Bytes → Check (Unit {0})
check_route backends modality name =
    if bytes_eq name default_word
    then ok tt
    else if bytes_eq modality (codes "text")
    then err (codes "ROUTING_TEXT_NOT_ROUTABLE") (about modality name)
    else check_target modality name (find name backends)

unfoldable pub check_routes : Table BackendSpec → Table Bytes → Check (Unit {0})
check_routes backends [] = ok tt
check_routes backends ((modality, name) ∷ rest) =
    check_route backends modality name >> check_routes backends rest

-- The backend that an env-synthesized route refers to.
abbrev pub pull_backend :
    RoutingTable → Bytes → Table BackendSpec → Option BackendSpec → Table BackendSpec
pull_backend env er backends (some b) = backends
pull_backend env er backends none =
    if bytes_eq er default_word then backends else put er (or_spec (find er env.backends)) backends

-- One round of the loop that fills what the file omits; `try_emplace`.
unfoldable pub fill_route : RoutingTable → Bytes → Option Bytes → RoutingTable → RoutingTable
fill_route env m (some there) t = t
fill_route env m none t =
    let er = or_empty (find m env.routes) in
    record {
      routes = put m er t.routes;
      backends = pull_backend env er t.backends (find er t.backends);
    }

abbrev pub fill_modality : RoutingTable → Bytes → RoutingTable → RoutingTable
fill_modality env m t = fill_route env m (find m t.routes) t

unfoldable pub fill_routes : RoutingTable → RoutingTable → RoutingTable
fill_routes env t =
    fill_modality env (codes "formula")
      (fill_modality env (codes "table") (fill_modality env (codes "text") t))

module _ (json : Json) (getenv : Environment) (read_file : Bytes → Option Bytes) where
  unfoldable pub parse_backends :
      List (Bytes × json.J) → Table BackendSpec → Check (Table BackendSpec)
  parse_backends [] t = ok t
  parse_backends ((name, j) ∷ rest) t =
      parse_backend json getenv name j >>= λ b. parse_backends rest (put name b t)

  abbrev pub put_route : Bytes → Option Bytes → Table Bytes → Table Bytes
  put_route modality none t = t
  put_route modality (some name) t = put modality name t

  unfoldable pub parse_routes : List (Bytes × json.J) → Table Bytes → Table Bytes
  parse_routes [] t = t
  parse_routes ((modality, j) ∷ rest) t =
      parse_routes rest (put_route modality (json.as_string j) t)

  unfoldable pub parse_root : json.J → Check RoutingTable
  parse_root root =
      let routes = parse_routes (json.object_members root (codes "routes")) [] in
      parse_backends (json.object_members root (codes "backends")) [] >>= λ backends.
      check_routes backends routes
      >> ok (fill_routes (synth_from_env getenv) (record { backends = backends; routes = routes }))

  abbrev pub parse_json : Bytes → Option json.J → Check RoutingTable
  parse_json path none = err bad_kind (about path (codes "invalid JSON"))
  parse_json path (some root) = parse_root root

  abbrev pub parse_text : Bytes → Option Bytes → Check RoutingTable
  parse_text path none = err bad_kind (about path (codes "cannot open"))
  parse_text path (some file_text) = parse_json path (json.read file_text)

  unfoldable pub parse_file : Bytes → Check RoutingTable
  parse_file path = parse_text path (read_file path)

  unfoldable pub load_routing_config : Check RoutingTable
  load_routing_config =
      let cfg = env_or getenv (codes "TURBO_ROUTING_CONFIG") [] in
      if is_empty cfg then ok (synth_from_env getenv) else parse_file cfg
