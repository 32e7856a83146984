-- ===== src/BackendRouting/Soundness.antt =====
-- Routes that do not dangle, and what keeps them so.
use turbo_ocr.Common.{
  ◌≡◌, ◌⊎◌, refl, sym, subst, ◌∙◌, some, Bytes, codes, bytes_eq, Bool-cases, inl, inr,
}
use mathlib.Core.Option.{some-injective}
use turbo_ocr.BackendRouting.Table.{Table, find, put}
use turbo_ocr.BackendRouting.TableLaws.{find-put, bytes_eq_refl, bytes_eq→≡}
use turbo_ocr.BackendRouting.Spec.{BackendSpec, RoutingTable}
use turbo_ocr.BackendRouting.Env.{default_word}

abbrev pub IsConfigured : Table BackendSpec → Bytes → Type 0
IsConfigured backends name = (b : BackendSpec) × (find name backends ≡ some b)

-- "default", or the name of a backend of the table.
abbrev pub IsServed : Table BackendSpec → Bytes → Type 0
IsServed backends name = (name ≡ default_word) ⊎ IsConfigured backends name

-- No route dangles, and text goes nowhere but to the built-in path.
abbrev pub IsSound : RoutingTable → Type 0
IsSound t =
    ((m name : Bytes) → find m t.routes ≡ some name → IsServed t.backends name)
    × ((name : Bytes) → find (codes "text") t.routes ≡ some name → name ≡ default_word)

abbrev pub IsRouted : RoutingTable → Bytes → Type 0
IsRouted t m = (name : Bytes) × (find m t.routes ≡ some name)

-- Sound, and every modality has a route.
abbrev pub IsComplete : RoutingTable → Type 0
IsComplete t =
    IsSound t
    × IsRouted t (codes "text")
    × IsRouted t (codes "table")
    × IsRouted t (codes "formula")

pub put-IsConfigured :
    (k : Bytes) (b : BackendSpec) (t : Table BackendSpec) (name : Bytes)
    → IsConfigured t name
    → IsConfigured (put k b t) name
put-IsConfigured k b t name (c, e) = elim (Bool-cases (bytes_eq k name)) [
  | inl same ↦ (b, rw (find-put k name b t, same) refl)
  | inr other ↦ (c, rw (find-put k name b t, other) e)
]

pub put-IsConfigured_self :
    (k : Bytes) (b : BackendSpec) (t : Table BackendSpec) → IsConfigured (put k b t) k
put-IsConfigured_self k b t = (b, rw (find-put k k b t, bytes_eq_refl k) refl)

pub put-IsServed :
    (k : Bytes) (b : BackendSpec) (t : Table BackendSpec) (name : Bytes)
    → IsServed t name
    → IsServed (put k b t) name
put-IsServed k b t name (inl e) = inl e
put-IsServed k b t name (inr c) = inr (put-IsConfigured k b t name c)

-- A route that is added leads to what is served.
pub with_route-IsSound :
    (m name : Bytes) (t : RoutingTable)
    → IsSound t
    → IsServed t.backends name
    → (m ≡ codes "text" → name ≡ default_word)
    → IsSound (record t { routes = put m name t.routes })
with_route-IsSound m name t (served, text_default) s d = (
  (λ k n e. elim (Bool-cases (bytes_eq m k)) [
    | inl same ↦
        let e' = rw (find-put m k name t.routes, same) at e in
        subst (IsServed t.backends) (some-injective _ _ e') s
    | inr other ↦ served k n (rw (find-put m k name t.routes, other) at e)
  ]),
  (λ n e. elim (Bool-cases (bytes_eq m (codes "text"))) [
    | inl same ↦
        let e' = rw (find-put m (codes "text") name t.routes, same) at e in
        sym (some-injective _ _ e') ∙ d (bytes_eq→≡ m (codes "text") same)
    | inr other ↦ text_default n (rw (find-put m (codes "text") name t.routes, other) at e)
  ]),
)
