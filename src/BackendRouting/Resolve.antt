-- ===== src/BackendRouting/Resolve.antt =====
-- `routable_backend_names` and `resolve`.
use turbo_ocr.Common.{
  Option, none, some, List, [], ◌∷◌, ◌++◌, if◌then◌else◌, Bytes, codes, bytes_eq, is_empty,
}
use turbo_ocr.Validation.Check.{Check, ok, err, about}
use turbo_ocr.BackendRouting.Table.{Table, find}
use turbo_ocr.BackendRouting.Spec.{local, openai, BackendSpec, RoutingTable}
use turbo_ocr.BackendRouting.Env.{default_word}

-- The names of the openai backends. A std::set is the list of what was put in.
unfoldable pub openai_names : Table BackendSpec → List Bytes
openai_names [] = []
openai_names ((name, spec) ∷ rest) =
    let later = openai_names rest in elim spec.kind [ local ↦ later | openai ↦ name ∷ later ]

abbrev pub default_name : Option Bytes → List Bytes
default_name none = []
default_name (some name) = if bytes_eq name default_word then [] else name ∷ []

unfoldable pub routable_backend_names : RoutingTable → Bytes → List Bytes
routable_backend_names tbl modality =
    openai_names tbl.backends ++ default_name (find modality tbl.routes)

abbrev pub named_backend : Bytes → Option BackendSpec → Check (Option BackendSpec)
named_backend name none = err (codes "ROUTING_UNKNOWN_OVERRIDE") (about name (codes "override"))
named_backend name (some b) = ok (some b)

abbrev pub routed_backend : Table BackendSpec → Option Bytes → Option BackendSpec
routed_backend backends none = none
routed_backend backends (some name) =
    if bytes_eq name default_word then none else find name backends

-- `ok none` is the null pointer, the built-in path.
unfoldable pub resolve : RoutingTable → Bytes → Bytes → Check (Option BackendSpec)
resolve tbl modality override_name =
    if is_empty override_name
    then ok (routed_backend tbl.backends (find modality tbl.routes))
    else named_backend override_name (find override_name tbl.backends)
