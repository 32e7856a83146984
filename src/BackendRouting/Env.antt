-- ===== src/BackendRouting/Env.antt =====
-- `env_or` of include/turbo_ocr/common/env_utils.h, `resolve_api_key` and `synth_from_env`. The
-- environment is a parameter; log lines are left out.
use turbo_ocr.Common.{
  not, Option, none, some, [], ◌∷◌, ◌==◌, if◌then◌else◌, Bytes, codes, bytes_eq, is_empty, take,
  drop,
}
use turbo_ocr.Validation.Check.{Check, ok, err, about}
use turbo_ocr.BackendRouting.Table.{put}
use turbo_ocr.BackendRouting.Spec.{BackendSpec, default_spec, RoutingTable, empty_table}

-- What `std::getenv` finds under a name.
abbrev pub Environment : Type 0
Environment = Bytes → Option Bytes

-- `c_str()`: up to a zero byte.
abbrev pub c_str : Bytes → Bytes
c_str [] = []
c_str (c ∷ cs) = let rest = c_str cs in if c == 0 then [] else c ∷ rest

abbrev pub default_word : Bytes
default_word = codes "default"

abbrev pub local_backend : Bytes → Bytes → BackendSpec
local_backend name engine = record default_spec { name = name; engine = engine }

abbrev pub or_default : Bytes → Option Bytes → Bytes
or_default default none = default
or_default default (some v) = if is_empty v then default else v

abbrev pub with_route : Bytes → Bytes → RoutingTable → RoutingTable
with_route modality name t = record t { routes = put modality name t.routes }

abbrev pub with_backend : Bytes → BackendSpec → RoutingTable → RoutingTable
with_backend name spec t = record t { backends = put name spec t.backends }

module _ (getenv : Environment) where
  abbrev pub env_or : Bytes → Bytes → Bytes
  env_or name default = or_default default (getenv (c_str name))

  unfoldable pub resolve_api_key : Bytes → Bytes → Check Bytes
  resolve_api_key name raw =
      let value = env_or (drop 4 raw) [] in
      if is_empty raw
      then ok []
      else if not (bytes_eq (take 4 raw) (codes "env:"))
      then err (codes "ROUTING_MISSING_SECRET") (about name (codes "api_key"))
      else if is_empty value
      then err (codes "ROUTING_MISSING_SECRET") (about name (drop 4 raw))
      else ok value

  -- The table backend that the environment asks for, or implies.
  unfoldable pub table_backend_env : Bytes
  table_backend_env =
      let tb = env_or (codes "TABLE_BACKEND") [] in
      if not (is_empty tb)
      then tb
      else if not (is_empty (env_or (codes "TABLE_SLANEXT_ENCODER_ONNX") []))
      then codes "slanext"
      else if not (is_empty (env_or (codes "VLLM_TABLE_BASE_URL") []))
      then codes "vlm"
      else []

  abbrev pub synth_table : RoutingTable → RoutingTable
  synth_table t =
      let tb = table_backend_env in
      if is_empty tb
      then with_route (codes "table") default_word t
      else with_route (codes "table") (codes "table-env")
          (with_backend (codes "table-env") (local_backend (codes "table-env") tb) t)

  unfoldable pub synth_from_env : RoutingTable
  unfolding table_backend_env
  synth_from_env =
      let fb = env_or (codes "FORMULA_BACKEND") (codes "ppformulanet_s") in
      with_route (codes "text") default_word (
        synth_table (
          with_route (codes "formula") (codes "formula-env") (
            with_backend (codes "formula-env") (local_backend (codes "formula-env") fb)
              empty_table)))
