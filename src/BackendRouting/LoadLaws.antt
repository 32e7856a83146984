-- ===== src/BackendRouting/LoadLaws.antt =====
-- A loaded table routes each modality, to nothing that it does not have.
use turbo_ocr.Common.{
  ◌≡◌, refl, subst, Option, none, some, [], ◌∷◌, Bytes, codes, bytes_eq, Bool-cases, inl, inr,
  is_empty,
}
use mathlib.Core.Option.{some-injective}
use turbo_ocr.Validation.Check.{ok, bind-ok, ok-injective}
use turbo_ocr.BackendRouting.Table.{Table, find}
use turbo_ocr.BackendRouting.TableLaws.{find-put, bytes_eq_refl, bytes_eq→≡}
use turbo_ocr.BackendRouting.Spec.{BackendSpec, RoutingTable}
use turbo_ocr.BackendRouting.Env.{Environment, env_or, synth_from_env, default_word}
use turbo_ocr.BackendRouting.Parse.{Json}
use turbo_ocr.BackendRouting.Load.{
  or_spec, or_empty, check_target, check_route, check_routes, pull_backend, fill_route,
  fill_modality, fill_routes, parse_backends, parse_routes, parse_root, parse_json, parse_text,
  parse_file, load_routing_config,
}
use turbo_ocr.BackendRouting.Soundness.{
  IsConfigured, IsServed, IsSound, IsRouted, IsComplete, put-IsConfigured_self, put-IsServed,
  with_route-IsSound,
}
use turbo_ocr.BackendRouting.EnvLaws.{not_text, synth_from_env-IsComplete}

check_target-IsConfigured :
    (backends : Table BackendSpec) (modality name : Bytes) (o : Option BackendSpec) {u : Unit {0}}
    → find name backends ≡ o
    → check_target modality name o ≡ ok u
    → IsConfigured backends name
check_target-IsConfigured backends modality name none e h = absurd (cc)
check_target-IsConfigured backends modality name (some b) e h = (b, e)

-- What passes the check is served, and not by a backend when it is text.
check_route-IsServed :
    (backends : Table BackendSpec) (modality name : Bytes) {u : Unit {0}}
    → check_route backends modality name ≡ ok u
    → IsServed backends name × (modality ≡ codes "text" → name ≡ default_word)
unfolding check_route
check_route-IsServed backends modality name h = elim (Bool-cases (bytes_eq name default_word)) [
  | inl e ↦ let d = bytes_eq→≡ name default_word e in (inl d, λ _. d)
  | inr e ↦ elim (Bool-cases (bytes_eq modality (codes "text"))) [
    | inl t ↦ let bad = rw (e, t) at h in absurd (cc)
    | inr t ↦ (
      inr (
          check_target-IsConfigured backends modality name (find name backends) refl
            (rw (e, t) at h)),
      λ same. absurd (not_text modality same t),
    )
  ]
]

check_routes-IsSound :
    (backends : Table BackendSpec) (routes : Table Bytes) {u : Unit {0}}
    → check_routes backends routes ≡ ok u
    → (m name : Bytes) → find m routes ≡ some name
    → IsServed backends name × (m ≡ codes "text" → name ≡ default_word)
unfolding check_routes find
check_routes-IsSound backends [] h m name e = absurd (cc)
check_routes-IsSound backends ((k, n) ∷ rest) h m name e =
    let (u, first, later) = bind-ok (check_route backends k n) _ h in
    elim (Bool-cases (bytes_eq k m)) [
      | inl same ↦
          let found : n ≡ name = some-injective _ _ (rw same at e) in
          subst (λ x. IsServed backends x × (m ≡ codes "text" → x ≡ default_word)) found
            (subst (λ x. IsServed backends n × (x ≡ codes "text" → n ≡ default_word))
              (bytes_eq→≡ k m same) (check_route-IsServed backends k n first))
      | inr other ↦ check_routes-IsSound backends rest later m name (rw other at e)
    ]

-- The backend of a route that is filled in is there, and none is lost.
pull_backend-keeps :
    (env : RoutingTable) (er name : Bytes) (bs : Table BackendSpec) (o : Option BackendSpec)
    → IsServed bs name
    → IsServed (pull_backend env er bs o) name
pull_backend-keeps env er name bs (some b) s = s
pull_backend-keeps env er name bs none s = elim (Bool-cases (bytes_eq er default_word)) [
  | inl e ↦ rw e s
  | inr e ↦ rw e (put-IsServed er (or_spec (find er env.backends)) bs name s)
]

pull_backend-IsServed :
    (env : RoutingTable) (er : Bytes) (bs : Table BackendSpec) (o : Option BackendSpec)
    → find er bs ≡ o
    → IsServed (pull_backend env er bs o) er
pull_backend-IsServed env er bs (some b) e = inr (b, e)
pull_backend-IsServed env er bs none e = elim (Bool-cases (bytes_eq er default_word)) [
  | inl d ↦ inl (bytes_eq→≡ er default_word d)
  | inr d ↦ rw d (inr (put-IsConfigured_self er (or_spec (find er env.backends)) bs))
]

fill_route-IsSound :
    (env : RoutingTable) (m : Bytes) (t : RoutingTable) (o : Option Bytes)
    → (m ≡ codes "text" → or_empty (find m env.routes) ≡ default_word)
    → IsSound t
    → IsSound (fill_route env m o t)
unfolding fill_route
fill_route-IsSound env m t (some name) d sound = sound
fill_route-IsSound env m t none d (served, text_default) =
    let er = or_empty (find m env.routes) in
    let pulled = pull_backend env er t.backends (find er t.backends) in
    with_route-IsSound m er (record t { backends = pulled })
      (
        (λ k n e. pull_backend-keeps env er n t.backends (find er t.backends) (served k n e)),
        text_default,
      )
      (pull_backend-IsServed env er t.backends (find er t.backends) refl) d

fill_route-IsRouted :
    (env : RoutingTable) (m k : Bytes) (t : RoutingTable) (o : Option Bytes)
    → IsRouted t k
    → IsRouted (fill_route env m o t) k
unfolding fill_route
fill_route-IsRouted env m k t (some name) r = r
fill_route-IsRouted env m k t none (name, e) =
    let er = or_empty (find m env.routes) in
    elim (Bool-cases (bytes_eq m k)) [
      | inl same ↦ (er, rw (find-put m k er t.routes, same) refl)
      | inr other ↦ (name, rw (find-put m k er t.routes, other) e)
    ]

fill_route-routes :
    (env : RoutingTable) (m : Bytes) (t : RoutingTable) (o : Option Bytes)
    → find m t.routes ≡ o
    → IsRouted (fill_route env m o t) m
unfolding fill_route
fill_route-routes env m t (some name) e = (name, e)
fill_route-routes env m t none e =
    let er = or_empty (find m env.routes) in
    (er, rw (find-put m m er t.routes, bytes_eq_refl m) refl)

module _ (getenv : Environment) where
  -- Filling what a file omits makes a sound table complete.
  fill_routes-IsComplete :
      (t : RoutingTable) → IsSound t → IsComplete (fill_routes (synth_from_env getenv) t)
  unfolding fill_routes bytes_eq
  fill_routes-IsComplete t sound =
      let env = synth_from_env getenv in
      let (env_sound, (name, text_route), r1, r2) = synth_from_env-IsComplete getenv in
      let text_default : or_empty (find (codes "text") env.routes) ≡ default_word =
        rw text_route (env_sound.1 name text_route) in
      let t1 = fill_modality env (codes "text") t in
      let t2 = fill_modality env (codes "table") t1 in
      let s1 =
        fill_route-IsSound env (codes "text") t (find (codes "text") t.routes) (λ _. text_default)
          sound in
      let s2 =
        fill_route-IsSound env (codes "table") t1 (find (codes "table") t1.routes)
          (λ e. absurd (not_text _ e refl)) s1 in
      let s3 =
        fill_route-IsSound env (codes "formula") t2 (find (codes "formula") t2.routes)
          (λ e. absurd (not_text _ e refl)) s2 in
      let text = fill_route-routes env (codes "text") t (find (codes "text") t.routes) refl in
      let table = fill_route-routes env (codes "table") t1 (find (codes "table") t1.routes) refl in
      let keep = λ (k : Bytes) (r : IsRouted t2 k).
        fill_route-IsRouted env (codes "formula") k t2 (find (codes "formula") t2.routes) r in
      (
        s3,
        keep (codes "text") (
            fill_route-IsRouted env (codes "table") (codes "text") t1
              (find (codes "table") t1.routes) text),
        keep (codes "table") table,
        fill_route-routes env (codes "formula") t2 (find (codes "formula") t2.routes) refl,
      )

  module _ (json : Json) (read_file : Bytes → Option Bytes) where
    parse_root-IsComplete :
        (root : json.J) {t : RoutingTable}
        → parse_root json getenv read_file root ≡ ok t
        → IsComplete t
    unfolding parse_root
    parse_root-IsComplete root {t} e =
        let (backends, parsed, rest) =
          bind-ok
            (parse_backends json getenv read_file (json.object_members root (codes "backends")) [])
            _ e in
        let (u, checked, last) =
          bind-ok
            (check_routes backends
              (parse_routes json getenv read_file (json.object_members root (codes "routes")) []))
            _ rest in
        let sound =
          check_routes-IsSound backends
            (parse_routes json getenv read_file (json.object_members root (codes "routes")) [])
            checked in
        subst IsComplete (ok-injective last) (
          fill_routes-IsComplete _ (
            (λ m n there. (sound m n there).0),
            (λ n there. (sound (codes "text") n there).1 refl),
          ))

    parse_json-IsComplete :
        (path : Bytes) (o : Option json.J) {t : RoutingTable}
        → parse_json json getenv read_file path o ≡ ok t
        → IsComplete t
    parse_json-IsComplete path none e = absurd (cc)
    parse_json-IsComplete path (some root) e = parse_root-IsComplete root e

    parse_text-IsComplete :
        (path : Bytes) (o : Option Bytes) {t : RoutingTable}
        → parse_text json getenv read_file path o ≡ ok t
        → IsComplete t
    parse_text-IsComplete path none e = absurd (cc)
    parse_text-IsComplete path (some file_text) e =
        parse_json-IsComplete path (json.read file_text) e

    pub load_routing_config-IsComplete :
        {t : RoutingTable} → load_routing_config json getenv read_file ≡ ok t → IsComplete t
    unfolding load_routing_config parse_file
    load_routing_config-IsComplete {t} e =
        let cfg = env_or getenv (codes "TURBO_ROUTING_CONFIG") [] in
        elim (Bool-cases (is_empty cfg)) [
          | inl unset ↦
              subst IsComplete (ok-injective (rw unset at e)) (synth_from_env-IsComplete getenv)
          | inr there ↦ parse_text-IsComplete cfg (read_file cfg) (rw there at e)
        ]
