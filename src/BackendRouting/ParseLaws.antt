-- ===== src/BackendRouting/ParseLaws.antt =====
-- A backend that parses can be called, and its key is no literal secret.
use turbo_ocr.Common.{
  ◌≡◌, ◌⊎◌, refl, sym, subst, false, [], Bytes, codes, bytes_eq, Bool-cases, inl, inr, is_empty,
  pos, take, drop,
}
use turbo_ocr.Validation.Check.{ok, bind-ok, fail_if-ok, ok-injective}
use turbo_ocr.BackendRouting.Spec.{Kind, local, openai, BackendSpec, parse_parser}
use turbo_ocr.BackendRouting.Env.{Environment, env_or, resolve_api_key}
use turbo_ocr.BackendRouting.Parse.{
  Json, parse_kind, known_parser, text_field, int_field, parse_local, parse_openai, parse_by_kind,
  parse_backend,
}

module _ (getenv : Environment) where
  -- No key, or what the environment holds under some name.
  abbrev pub IsFromEnv : Bytes → Type 0
  IsFromEnv key = (key ≡ []) ⊎ ((var : Bytes) × (key ≡ env_or getenv var []))

  resolve_api_key-IsFromEnv :
      (name raw : Bytes) {key : Bytes} → resolve_api_key getenv name raw ≡ ok key → IsFromEnv key
  unfolding resolve_api_key
  resolve_api_key-IsFromEnv name raw e =
      let value = env_or getenv (drop 4 raw) [] in
      elim (Bool-cases (is_empty raw)) [
        | inl empty ↦ inl (sym (ok-injective (rw empty at e)))
        | inr given ↦ elim (Bool-cases (bytes_eq (take 4 raw) (codes "env:"))) [
          | inr literal ↦ let bad = rw (given, literal) at e in absurd (cc)
          | inl indirect ↦ elim (Bool-cases (is_empty value)) [
            | inl unset ↦ let bad = rw (given, indirect, unset) at e in absurd (cc)
            | inr found ↦ inr (drop 4 raw, sym (ok-injective (rw (given, indirect, found) at e)))
          ]
        ]
      ]

  -- A local backend has an engine; an openai one a server, a model and a prompt, and a key that is
  -- taken from the environment.
  pub data IsCallable (b : BackendSpec) : Type 0 where
    by_engine : b.kind ≡ local → is_empty b.engine ≡ false → IsCallable b
    by_server :
        b.kind ≡ openai
        → is_empty b.base_url ≡ false
        → is_empty b.model ≡ false
        → is_empty b.prompt ≡ false
        → IsFromEnv b.api_key
        → IsCallable b

  module _ (json : Json) where
    abbrev Parsed : Bytes → BackendSpec → Type 0
    Parsed name b = (b.name ≡ name) × IsCallable b

    parse_local-Parsed :
        (name : Bytes) (j : json.J) {b : BackendSpec}
        → parse_local json getenv name j ≡ ok b
        → Parsed name b
    unfolding parse_local
    parse_local-Parsed name j {b} e =
        let (engine, _, r1) = bind-ok (text_field json getenv j name (codes "engine") []) _ e in
        let (path, _, r2) = bind-ok (text_field json getenv j name (codes "model_path") []) _ r1 in
        let (checked, r3) = fail_if-ok (is_empty engine) _ _ _ r2 in
        subst (Parsed name) (ok-injective r3) (refl, by_engine refl checked)

    parse_openai-Parsed :
        (name : Bytes) (j : json.J) {b : BackendSpec}
        → parse_openai json getenv name j ≡ ok b
        → Parsed name b
    unfolding parse_openai
    parse_openai-Parsed name j {b} e =
        let text = text_field json getenv j name in
        let (url, _, r1) = bind-ok (text (codes "base_url") []) _ e in
        let (model, _, r2) = bind-ok (text (codes "model") []) _ r1 in
        let (prompt, _, r3) = bind-ok (text (codes "prompt") []) _ r2 in
        let (has_url, r4) = fail_if-ok (is_empty url) _ _ _ r3 in
        let (has_model, r5) = fail_if-ok (is_empty model) _ _ _ r4 in
        let (has_prompt, r6) = fail_if-ok (is_empty prompt) _ _ _ r5 in
        let (ps, _, r7) = bind-ok (text (codes "parser") (codes "raw")) _ r6 in
        let (parser, _, r8) = bind-ok (known_parser name ps (parse_parser ps)) _ r7 in
        let (raw, _, r9) = bind-ok (text (codes "api_key") []) _ r8 in
        let (key, resolved, r10) = bind-ok (resolve_api_key getenv name raw) _ r9 in
        let (tokens, _, r11) =
          bind-ok (int_field json getenv j name (codes "max_tokens") (pos 1024)) _ r10 in
        let (timeout, _, r12) =
          bind-ok (int_field json getenv j name (codes "timeout_s") (pos 30)) _ r11 in
        let (batch, _, last) =
          bind-ok (int_field json getenv j name (codes "batch") (pos 8)) _ r12 in
        subst (Parsed name) (ok-injective last) (
          refl,
          by_server refl has_url has_model has_prompt (resolve_api_key-IsFromEnv name raw resolved),
        )

    parse_by_kind-Parsed :
        (name : Bytes) (j : json.J) (k : Kind) {b : BackendSpec}
        → parse_by_kind json getenv name j k ≡ ok b
        → Parsed name b
    parse_by_kind-Parsed name j local e = parse_local-Parsed name j e
    parse_by_kind-Parsed name j openai e = parse_openai-Parsed name j e

    -- A backend that parses has the name it stands under, and can be called: with an engine when it is
    -- local; else with a server, a model and a prompt, and a key that is empty or held by the environment.
    pub parse_backend-IsCallable :
        (name : Bytes) (j : json.J) {b : BackendSpec}
        → parse_backend json getenv name j ≡ ok b
        → (b.name ≡ name) × IsCallable b
    unfolding parse_backend
    parse_backend-IsCallable name j e =
        let (s, _, r1) = bind-ok (text_field json getenv j name (codes "kind") []) _ e in
        let (k, _, r2) = bind-ok (parse_kind name s) _ r1 in parse_by_kind-Parsed name j k r2
