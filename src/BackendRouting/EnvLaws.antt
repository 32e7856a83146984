-- ===== src/BackendRouting/EnvLaws.antt =====
-- The table from the environment is sound and routes each modality.
use turbo_ocr.Common.{
  ◌≡◌, refl, sym, ap, ◌∙◌, true, false, Bytes, codes, bytes_eq, Bool-cases, inl, inr, is_empty,
}
use turbo_ocr.BackendRouting.Table.{find}
use turbo_ocr.BackendRouting.TableLaws.{find-put, bytes_eq_refl}
use turbo_ocr.BackendRouting.Spec.{BackendSpec, RoutingTable, empty_table}
use turbo_ocr.BackendRouting.Env.{
  Environment, env_or, synth_from_env, synth_table, table_backend_env, default_word, local_backend,
  with_route, with_backend,
}
use turbo_ocr.BackendRouting.Soundness.{
  IsSound, IsRouted, IsComplete, put-IsConfigured_self, put-IsServed, with_route-IsSound,
}

pub not_text : (m : Bytes) → m ≡ codes "text" → bytes_eq m (codes "text") ≡ false → ⊥
not_text m same t =
    let e : true ≡ false =
      sym (bytes_eq_refl (codes "text")) ∙ ap (λ n. bytes_eq n (codes "text")) (sym same) ∙ t in
    absurd (cc)

put_route-IsRouted :
    (m name k : Bytes) (t : RoutingTable) → IsRouted t k → IsRouted (with_route m name t) k
put_route-IsRouted m name k t (n, e) = elim (Bool-cases (bytes_eq m k)) [
  | inl same ↦ (name, rw (find-put m k name t.routes, same) refl)
  | inr other ↦ (n, rw (find-put m k name t.routes, other) e)
]

put_route-routes : (m name : Bytes) (t : RoutingTable) → IsRouted (with_route m name t) m
put_route-routes m name t = (name, rw (find-put m m name t.routes, bytes_eq_refl m) refl)

with_backend-IsSound :
    (k : Bytes) (b : BackendSpec) (t : RoutingTable) → IsSound t → IsSound (with_backend k b t)
with_backend-IsSound k b t (served, text_default) =
    ((λ m n e. put-IsServed k b t.backends n (served m n e)), text_default)

-- A route to a backend that is added with it.
add_backend-IsSound :
    (m k : Bytes) (b : BackendSpec) (t : RoutingTable)
    → bytes_eq m (codes "text") ≡ false
    → IsSound t
    → IsSound (with_route m k (with_backend k b t))
add_backend-IsSound m k b t other sound =
    with_route-IsSound m k (with_backend k b t) (with_backend-IsSound k b t sound)
      (inr (put-IsConfigured_self k b t.backends)) (λ same. absurd (not_text m same other))

empty_table-IsSound : IsSound empty_table
unfolding find
empty_table-IsSound = ((λ m n e. absurd (cc)), (λ n e. absurd (cc)))

module _ (getenv : Environment) where
  synth_table-IsSound : (t : RoutingTable) → IsSound t → IsSound (synth_table getenv t)
  unfolding bytes_eq
  synth_table-IsSound t sound = elim (Bool-cases (is_empty (table_backend_env getenv))) [
    | inl e ↦ rw e (with_route-IsSound (codes "table") default_word t sound (inl refl) (λ _. refl))
    | inr e ↦ rw e (
        add_backend-IsSound (codes "table") (codes "table-env")
          (local_backend (codes "table-env") (table_backend_env getenv)) t refl sound)
  ]

  synth_table-IsRouted :
      (t : RoutingTable) (k : Bytes)
      → IsRouted t k
      → IsRouted (synth_table getenv t) k × IsRouted (synth_table getenv t) (codes "table")
  synth_table-IsRouted t k r =
      let tb = table_backend_env getenv in
      let with_tb = with_backend (codes "table-env") (local_backend (codes "table-env") tb) t in
      elim (Bool-cases (is_empty tb)) [
        | inl e ↦ rw e (
          put_route-IsRouted (codes "table") default_word k t r,
          put_route-routes (codes "table") default_word t,
        )
        | inr e ↦ rw e (
          put_route-IsRouted (codes "table") (codes "table-env") k with_tb r,
          put_route-routes (codes "table") (codes "table-env") with_tb,
        )
      ]

  pub synth_from_env-IsComplete : IsComplete (synth_from_env getenv)
  unfolding synth_from_env bytes_eq
  synth_from_env-IsComplete =
      let spec =
        local_backend (codes "formula-env")
          (env_or getenv (codes "FORMULA_BACKEND") (codes "ppformulanet_s")) in
      let name = codes "formula-env" in
      let formula = with_route (codes "formula") name (with_backend name spec empty_table) in
      let both = synth_table getenv formula in
      let routed =
        synth_table-IsRouted formula (codes "formula")
          (put_route-routes (codes "formula") name (with_backend name spec empty_table)) in
      (
        with_route-IsSound (codes "text") default_word both
            (synth_table-IsSound formula (
              add_backend-IsSound (codes "formula") name spec empty_table refl empty_table-IsSound))
            (inl refl) (λ _. refl),
        put_route-routes (codes "text") default_word both,
        put_route-IsRouted (codes "text") default_word (codes "table") both routed.1,
        put_route-IsRouted (codes "text") default_word (codes "formula") both routed.0,
      )
