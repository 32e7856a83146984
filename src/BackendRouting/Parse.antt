-- ===== src/BackendRouting/Parse.antt =====
-- `parse_backend` and `parse_inline_backend`. nlohmann::json is a parameter: its documented accessors,
-- with `none` for an exception. A RoutingConfigError is its ROUTING_* code.
use turbo_ocr.Common.{
  Bool, false, not, ◌||◌, ◌&&◌, Option, none, some, List, [], if◌then◌else◌, Bytes, codes, bytes_eq,
  is_empty, ℤ, pos,
}
use turbo_ocr.Validation.Check.{Check, ok, err, about, ◌>>=◌, ◌>>◌, fail_if}
use turbo_ocr.BackendRouting.Spec.{
  Kind, local, openai, Parser, BackendSpec, default_spec, engine_valid_for, parse_parser,
}
use turbo_ocr.BackendRouting.Env.{Environment, resolve_api_key}

pub record Json : Type 1 where
  pub J : Type 0
  -- `json::parse`
  pub parse : Bytes → Option J
  -- `stream >> j`, which takes the first value of a text.
  pub read : Bytes → Option J
  -- `j.value(key, "default")` and `j.value(key, 0)`: the default when the key is missing, an
  -- exception when `j` is no object or the member is of another type.
  pub value_string : J → Bytes → Bytes → Option Bytes
  pub value_int : J → Bytes → ℤ → Option ℤ
  -- `j.contains(key) && j[key].is_string()` and then `get<std::string>()`.
  pub string_member : J → Bytes → Option Bytes
  -- The members of `j[key]` in the order of their keys, when it is there and an object.
  pub object_members : J → Bytes → List (Bytes × J)
  -- `is_string()` and then `get<std::string>()`.
  pub as_string : J → Option Bytes

abbrev pub bad_kind : Bytes
bad_kind = codes "ROUTING_BAD_KIND"

-- An accessor's exception is mapped to ROUTING_BAD_KIND.
unfoldable pub catch : {V : Type 0} → Bytes → Option V → Check V
catch name none = err bad_kind (about name (codes "invalid backend field"))
catch name (some v) = ok v

abbrev pub parse_kind : Bytes → Bytes → Check Kind
parse_kind name s =
    if bytes_eq s (codes "local")
    then ok local
    else if bytes_eq s (codes "openai")
    then ok openai
    else err bad_kind (about name s)

abbrev pub known_parser : Bytes → Bytes → Option Parser → Check Parser
known_parser name s none = err bad_kind (about name s)
known_parser name s (some p) = ok p

-- The three cases of a backend that its modality cannot use.
abbrev pub mismatched : Bytes → BackendSpec → Bool
mismatched modality b = elim b.kind [
  | local ↦
      (bytes_eq modality (codes "formula") || bytes_eq modality (codes "table"))
      && not (engine_valid_for modality b.engine)
  | openai ↦ false
]

module _ (json : Json) (getenv : Environment) where
  abbrev pub text_field : json.J → Bytes → Bytes → Bytes → Check Bytes
  text_field j name key default = catch name (json.value_string j key default)

  abbrev pub int_field : json.J → Bytes → Bytes → ℤ → Check ℤ
  int_field j name key default = catch name (json.value_int j key default)

  unfoldable pub parse_local : Bytes → json.J → Check BackendSpec
  parse_local name j = text_field j name (codes "engine") [] >>= λ engine.
      text_field j name (codes "model_path") [] >>= λ model_path.
      fail_if (is_empty engine) (codes "ROUTING_UNKNOWN_ENGINE") (about name (codes "engine"))
      >> ok (record default_spec {
        name = name;
        kind = local;
        engine = engine;
        model_path = model_path;
        fallback = json.string_member j (codes "fallback");
      })

  unfoldable pub parse_openai : Bytes → json.J → Check BackendSpec
  parse_openai name j = text_field j name (codes "base_url") [] >>= λ base_url.
      text_field j name (codes "model") [] >>= λ model.
      text_field j name (codes "prompt") [] >>= λ prompt.
      fail_if (is_empty base_url) (codes "ROUTING_UNKNOWN_ENGINE") (about name (codes "base_url"))
      >> (fail_if (is_empty model) (codes "ROUTING_UNKNOWN_ENGINE") (about name (codes "model"))
          >> (fail_if (is_empty prompt) (codes "ROUTING_EMPTY_PROMPT") (about name (codes "prompt"))
              >> (text_field j name (codes "parser") (codes "raw") >>= λ ps.
                  known_parser name ps (parse_parser ps) >>= λ parser.
                  text_field j name (codes "api_key") [] >>= λ key.
                  resolve_api_key getenv name key >>= λ api_key.
                  int_field j name (codes "max_tokens") (pos 1024) >>= λ max_tokens.
                  int_field j name (codes "timeout_s") (pos 30) >>= λ timeout_s.
                  int_field j name (codes "batch") (pos 8) >>= λ batch. ok (record default_spec {
                    name = name;
                    kind = openai;
                    base_url = base_url;
                    model = model;
                    prompt = prompt;
                    parser = parser;
                    api_key = api_key;
                    max_tokens = max_tokens;
                    timeout_s = timeout_s;
                    batch = batch;
                    fallback = json.string_member j (codes "fallback");
                  }))))

  abbrev pub parse_by_kind : Bytes → json.J → Kind → Check BackendSpec
  parse_by_kind name j local = parse_local name j
  parse_by_kind name j openai = parse_openai name j

  unfoldable pub parse_backend : Bytes → json.J → Check BackendSpec
  parse_backend name j = text_field j name (codes "kind") [] >>= λ s.
      parse_kind name s >>= λ kind. parse_by_kind name j kind

  abbrev pub parse_inline_json : Bytes → Option json.J → Check BackendSpec
  parse_inline_json modality none = err bad_kind (about (codes "inline") (codes "invalid JSON"))
  parse_inline_json modality (some j) = parse_backend (codes "inline") j >>= λ b.
      fail_if (mismatched modality b) (codes "ROUTING_MODALITY_MISMATCH")
        (about (codes "inline") b.engine)
      >> ok b

  unfoldable pub parse_inline_backend : Bytes → Bytes → Check BackendSpec
  parse_inline_backend modality json_text = parse_inline_json modality (json.parse json_text)
