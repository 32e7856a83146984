-- ===== src/BackendRouting/ResolveLaws.antt =====
-- In a loaded table a name that is offered for a request, and a route, lead to a backend.
use turbo_ocr.Common.{
  ◌≡◌, ◌⊎◌, refl, sym, ap, subst, ◌∙◌, Bool, true, false, Option, none, some, List, [], ◌∷◌, ◌++◌,
  Bytes, codes, bytes_eq, Bool-cases, inl, inr, arith, is_empty,
}
use turbo_ocr.Validation.Check.{ok}
use turbo_ocr.Validation.Params.{EndpointSpec, RequestRouting, in_group, validate_params}
use turbo_ocr.Validation.ParamsLaws.{IsRoutable, no_routing, validate_params-IsRoutable}
use turbo_ocr.BackendRouting.Table.{Table, find}
use turbo_ocr.BackendRouting.TableLaws.{bytes_eq_refl, bytes_eq→≡}
use turbo_ocr.BackendRouting.Spec.{BackendSpec, RoutingTable}
use turbo_ocr.BackendRouting.Env.{Environment, default_word}
use turbo_ocr.BackendRouting.Parse.{Json}
use turbo_ocr.BackendRouting.Load.{load_routing_config}
use turbo_ocr.BackendRouting.Resolve.{openai_names, default_name, routable_backend_names, resolve}
use turbo_ocr.BackendRouting.Soundness.{IsConfigured, IsSound}
use turbo_ocr.BackendRouting.LoadLaws.{load_routing_config-IsComplete}

openai_names-IsConfigured :
    (backends : Table BackendSpec) (name : Bytes)
    → in_group (openai_names backends) name ≡ true
    → IsConfigured backends name
unfolding in_group openai_names find
openai_names-IsConfigured [] name h = absurd (cc)
openai_names-IsConfigured ((k, spec) ∷ rest) name h = elim (Bool-cases (bytes_eq k name)) [
  | inl same ↦ (spec, rw same refl)
  | inr other ↦
      let later : in_group (openai_names rest) name ≡ true = ground (arith, other, h) in
      let (b, e) = openai_names-IsConfigured rest name later in (b, rw other e)
]

in_group-append :
    (xs ys : List Bytes) (name : Bytes)
    → in_group (xs ++ ys) name ≡ true
    → (in_group xs name ≡ true) ⊎ (in_group ys name ≡ true)
unfolding in_group
in_group-append [] ys name h = inr h
in_group-append (x ∷ xs) ys name h = elim (Bool-cases (bytes_eq x name)) [
  | inl e ↦ inl (rw e refl)
  | inr e ↦ elim (in_group-append xs ys name (rw e at h)) [ inl l ↦ inl (rw e l) | inr r ↦ inr r ]
]

not_default : (n : Bytes) → n ≡ default_word → bytes_eq n default_word ≡ false → ⊥
not_default n same d =
    let e : true ≡ false =
      sym (bytes_eq_refl default_word) ∙ ap (λ m. bytes_eq m default_word) (sym same) ∙ d in
    absurd (cc)

default_name-IsConfigured :
    (t : RoutingTable) (m name : Bytes) (o : Option Bytes)
    → find m t.routes ≡ o
    → IsSound t
    → in_group (default_name o) name ≡ true
    → IsConfigured t.backends name
unfolding in_group
default_name-IsConfigured t m name none e s h = absurd (cc)
default_name-IsConfigured t m name (some n) e s h = elim (Bool-cases (bytes_eq n default_word)) [
  | inl d ↦ let bad = rw d at h in absurd (cc)
  | inr d ↦ elim (s.0 m n e) [
    | inl default ↦ absurd (not_default n default d)
    | inr configured ↦
        let picked = rw d at h in
        subst (IsConfigured t.backends) (bytes_eq→≡ n name (ground arith)) configured
  ]
]

pub routable-IsConfigured :
    (t : RoutingTable) (m name : Bytes)
    → IsSound t
    → in_group (routable_backend_names t m) name ≡ true
    → IsConfigured t.backends name
unfolding routable_backend_names
routable-IsConfigured t m name s h =
    elim (in_group-append (openai_names t.backends) (default_name (find m t.routes)) name h) [
      | inl l ↦ openai_names-IsConfigured t.backends name l
      | inr r ↦ default_name-IsConfigured t m name (find m t.routes) refl s r
    ]

-- Where a modality goes: with no override to the built-in path when its route says "default", else to
-- the route's backend; with one to the backend of that name.
pub data Leads (t : RoutingTable) (m name : Bytes) : Option BackendSpec → Type 0 where
  built_in : name ≡ [] → find m t.routes ≡ some default_word → Leads t m name none
  routed :
      {n : Bytes} {b : BackendSpec}
      → name ≡ []
      → find m t.routes ≡ some n
      → find n t.backends ≡ some b
      → Leads t m name (some b)
  overridden : {b : BackendSpec} → find name t.backends ≡ some b → Leads t m name (some b)

abbrev pub Resolves : RoutingTable → Bytes → Bytes → Type 0
Resolves t m name = (o : Option BackendSpec) × (resolve t m name ≡ ok o) × Leads t m name o

no_override-Resolves :
    (t : RoutingTable) (m n : Bytes) → IsSound t → find m t.routes ≡ some n → Resolves t m []
unfolding resolve bytes_eq
no_override-Resolves t m n s e = elim (s.0 m n e) [
  | inl default ↦ (none, rw (e, default) refl, built_in refl (e ∙ ap some default))
  | inr (b, there) ↦ elim (Bool-cases (bytes_eq n default_word)) [
    | inl d ↦ (none, rw (e, d) refl, built_in refl (e ∙ ap some (bytes_eq→≡ n default_word d)))
    | inr d ↦ (some b, rw (e, d, there) refl, routed refl e there)
  ]
]

override-Resolves :
    (t : RoutingTable) (m c : Bytes)
    → is_empty c ≡ false
    → IsConfigured t.backends c
    → Resolves t m c
unfolding resolve
override-Resolves t m c e (b, there) = (some b, rw (e, there) refl, overridden there)

routable-Resolves :
    (t : RoutingTable) (m name n : Bytes)
    → IsSound t
    → find m t.routes ≡ some n
    → IsRoutable (routable_backend_names t m) name
    → Resolves t m name
routable-Resolves t m [] n s e r = no_override-Resolves t m n s e
routable-Resolves t m (c ∷ cs) n s e (inl empty) = absurd (cc)
routable-Resolves t m (c ∷ cs) n s e (inr listed) =
    override-Resolves t m (c ∷ cs) refl (routable-IsConfigured t m (c ∷ cs) s listed)

-- When a table is loaded, from a file or the environment, and a request's parameters pass against the
-- names that the table offers, then for both modalities the name resolves without an error: to the
-- built-in path only when there is no override and the route is "default", else to the configured
-- backend of the override, or of the route when there is none.
pub validate_params-Resolves :
    (json : Json) (getenv : Environment) (read_file : Bytes → Option Bytes)
    (params : List (Bytes × Bytes)) (spec : EndpointSpec) (strict : Bool) {t : RoutingTable}
    {r : RequestRouting × List Bytes}
    → load_routing_config json getenv read_file ≡ ok t
    → validate_params params spec
        (routable_backend_names t (codes "table"))
        (routable_backend_names t (codes "formula"))
        strict
        no_routing
      ≡ ok r
    → Resolves t (codes "table") r.0.table × Resolves t (codes "formula") r.0.formula
validate_params-Resolves json getenv read_file params spec strict {t} {r} loaded valid =
    let (sound, text, (n, table), (k, formula)) =
      load_routing_config-IsComplete getenv json read_file loaded in
    let names =
      validate_params-IsRoutable params spec (routable_backend_names t (codes "table"))
        (routable_backend_names t (codes "formula")) strict valid in
    (
      routable-Resolves t (codes "table") r.0.table n sound table names.0,
      routable-Resolves t (codes "formula") r.0.formula k sound formula names.1,
    )
