-- ===== src/BackendRouting/TableLaws.antt =====
-- Lookups in a std::map after an assignment.
use turbo_ocr.Common.{
  ◌≡◌, refl, subst, true, false, some, [], ◌∷◌, if◌then◌else◌, Bytes, bytes_eq, bytes_eq_iff,
  Bool-cases, inl, inr,
}
use turbo_ocr.BackendRouting.Table.{Table, find, put, bytes_lt}

pub bytes_eq_refl : (s : Bytes) → bytes_eq s s ≡ true
bytes_eq_refl s = (bytes_eq_iff s s).1 refl

pub bytes_eq→≡ : (s t : Bytes) → bytes_eq s t ≡ true → s ≡ t
bytes_eq→≡ s t = (bytes_eq_iff s t).0

module _ {V : Type 0} where
  pub find-put :
      (k j : Bytes) (v : V) (t : Table V)
      → find j (put k v t) ≡ (if bytes_eq k j then some v else find j t)
  unfolding find put
  find-put k j v [] = refl
  find-put k j v ((l, w) ∷ rest) = elim (Bool-cases (bytes_eq l k)) [
    | inl same ↦
        rw (same, bytes_eq→≡ l k same)
          (elim (Bool-cases (bytes_eq k j)) [ inl e ↦ rw e refl | inr e ↦ rw e refl ])
    | inr differ ↦ rw differ (elim (Bool-cases (bytes_lt k l)) [
      | inl before ↦ rw before refl
      | inr after ↦ rw after (elim (Bool-cases (bytes_eq k j)) [
        | inl e ↦
            let passed : bytes_eq l j ≡ false =
              subst (λ n. bytes_eq l n ≡ false) (bytes_eq→≡ k j e) differ in
            rw (e, passed, find-put k j v rest, e) refl
        | inr e ↦ rw (find-put k j v rest, e) refl
      ])
    ])
  ]
