-- ===== src/Pool/PipelinePool/Ownership.antt =====
-- No history of acquiring, moving, assigning and destroying handles loses or doubles a pipeline.
use mathlib.Core.List.{Perm, Nodup, perm_middle, perm_append_singleton, perm_append_comm}
use mathlib.Core.List.Perm
use mathlib.Core.Option.{some-injective}
use turbo_ocr.Common.{
  ℕ, zero, suc, ◌≡◌, ◌≢◌, refl, sym, ap, subst, ◌∙◌, Option, none, some, List, [], ◌∷◌, ◌++◌,
  append-nil, append_assoc, arith, ◌==◌, get_elem?, get-set_ne, set, Bool-cases, inl, inr,
}
use turbo_ocr.Pool.PipelinePool.{
  PipelinePool, create, acquire_from, release, release_if_held, destroy, move_construct,
  move_assign, Step, acquires, destroys, moves, assigns, Run, here, next,
}

abbrev pub content : Option ℕ → List ℕ
content none = []
content (some p) = p ∷ []

-- The pipelines that handles hold.
abbrev pub held : List (Option ℕ) → List ℕ
held [] = []
held (slot ∷ slots) = content slot ++ held slots

-- Every pipeline there is: in the pool or with a handle.
abbrev pub owned : PipelinePool → List ℕ
owned s = s.pool ++ held s.handles

abbrev slot_at : List (Option ℕ) → ℕ → Option ℕ
slot_at slots i = elim (get_elem? slots i) [ none ↦ none | some slot ↦ slot ]

held-append : (xs ys : List (Option ℕ)) → held (xs ++ ys) ≡ held xs ++ held ys
held-append [] ys = refl
held-append (x ∷ xs) ys =
    ap (◌++◌ (content x)) (held-append xs ys) ∙ sym (append_assoc (content x) (held xs) (held ys))

-- Swapping two blocks at the front.
swap_blocks : (xs ys zs : List ℕ) → Perm (xs ++ (ys ++ zs)) (ys ++ (xs ++ zs))
swap_blocks [] ys zs = Perm.rfl
swap_blocks (x ∷ xs) ys zs =
    Perm.trans (Perm.cons x (swap_blocks xs ys zs)) (Perm.symm (perm_middle ys (xs ++ zs)))

-- Emptying a slot takes out what it held.
held-set_none :
    (slots : List (Option ℕ)) (i : ℕ)
    → Perm (held slots) (content (slot_at slots i) ++ held (set slots i none))
held-set_none [] i = Perm.rfl
held-set_none (x ∷ xs) zero = Perm.rfl
held-set_none (x ∷ xs) (suc i) =
    Perm.trans (Perm.append_left (content x) (held-set_none xs i))
      (swap_blocks (content x) (content (slot_at xs i)) (held (set xs i none)))

-- Filling an existing slot puts the content in place of the old.
held-set :
    (slots : List (Option ℕ)) (i : ℕ) (slot : Option ℕ) {old : Option ℕ}
    → get_elem? slots i ≡ some old
    → Perm (held (set slots i slot)) (content slot ++ held (set slots i none))
held-set [] i slot e = absurd (cc)
held-set (x ∷ xs) zero slot e = Perm.rfl
held-set (x ∷ xs) (suc i) slot e =
    Perm.trans (Perm.append_left (content x) (held-set xs i slot e))
      (swap_blocks (content x) (content slot) (held (set xs i none)))

set_comm :
    (slots : List (Option ℕ)) (i j : ℕ) (a b : Option ℕ)
    → i ≢ j
    → set (set slots i a) j b ≡ set (set slots j b) i a
set_comm [] i j a b h = refl
set_comm (x ∷ xs) zero zero a b h = absurd (h refl)
set_comm (x ∷ xs) zero (suc j) a b h = refl
set_comm (x ∷ xs) (suc i) zero a b h = refl
set_comm (x ∷ xs) (suc i) (suc j) a b h = ap (◌∷◌ x) (set_comm xs i j a b (λ e. h (ap suc e)))

release_if_held-owned :
    (slot : Option ℕ) (s : PipelinePool) (slots : List (Option ℕ))
    → (release_if_held slot s).pool ++ held slots ≡ s.pool ++ (content slot ++ held slots)
unfolding release_if_held release
release_if_held-owned none s slots = refl
release_if_held-owned (some p) s slots = append_assoc s.pool (p ∷ []) (held slots)

release_if_held-handles :
    (slot : Option ℕ) (s : PipelinePool) → (release_if_held slot s).handles ≡ s.handles
unfolding release_if_held release
release_if_held-handles none s = refl
release_if_held-handles (some p) s = refl

acquire_from-owned :
    (xs : List ℕ) (s : PipelinePool) {t : PipelinePool}
    → s.pool ≡ xs
    → acquire_from xs s ≡ some t
    → Perm (owned t) (owned s)
unfolding acquire_from
acquire_from-owned [] s h e = absurd (cc)
acquire_from-owned (p ∷ rest) s h e =
    subst (λ t. Perm (owned t) (owned s)) (some-injective _ _ e)
      (rw (h, held-append)
        (Perm.trans (Perm.append_left rest (perm_append_singleton p (held s.handles)))
          (perm_middle rest (held s.handles))))

destroy-owned : (i : ℕ) (s : PipelinePool) → Perm (owned (destroy i s)) (owned s)
unfolding destroy
destroy-owned i s =
    rw (release_if_held-handles, release_if_held-owned)
      (Perm.append_left s.pool (Perm.symm (held-set_none s.handles i)))

move_construct-owned : (j : ℕ) (s : PipelinePool) → Perm (owned (move_construct j s)) (owned s)
unfolding move_construct
move_construct-owned j s = Perm.append_left s.pool (
    rw (held-append, append-nil)
      (Perm.trans (perm_append_comm (held (set s.handles j none)) (content (slot_at s.handles j)))
        (Perm.symm (held-set_none s.handles j))))

or_none : Option (Option ℕ) → Option ℕ
or_none o = elim o [ none ↦ none | some slot ↦ slot ]

slot_at-eq :
    (slots : List (Option ℕ)) (i : ℕ) {old : Option ℕ}
    → get_elem? slots i ≡ some old
    → slot_at slots i ≡ old
unfolding or_none
slot_at-eq slots i e = ap or_none e

-- What the two slots of an assignment hold, with what the target held before, is what was held.
held-assign :
    (slots : List (Option ℕ)) (i j : ℕ) (old : Option ℕ)
    → i ≢ j
    → get_elem? slots i ≡ some old
    → Perm (content old ++ held (set (set slots i (slot_at slots j)) j none)) (held slots)
held-assign slots i j old ne e =
    let emptied = set slots j none in
    let kept : get_elem? emptied i ≡ some old = get-set_ne slots j i none (λ z. ne (sym z)) ∙ e in
    let below : Perm (held emptied) (content old ++ held (set emptied i none)) =
      rw (slot_at-eq emptied i kept) at (held-set_none emptied i) in
    rw (set_comm slots i j (slot_at slots j) none ne) (
      Perm.trans (Perm.append_left (content old) (held-set emptied i (slot_at slots j) kept)) (
        Perm.trans (swap_blocks (content old) (content (slot_at slots j)) _) (
          Perm.trans (Perm.append_left (content (slot_at slots j)) (Perm.symm below))
            (Perm.symm (held-set_none slots j)))))

move_assign-owned :
    (i j : ℕ) (s : PipelinePool) {old : Option ℕ}
    → get_elem? s.handles i ≡ some old
    → Perm (owned (move_assign i j s)) (owned s)
unfolding move_assign
move_assign-owned i j s {old} e = elim (Bool-cases (i == j)) [
  | inl same ↦ rw same Perm.rfl
  | inr other ↦
      rw (other, release_if_held-handles, release_if_held-owned, slot_at-eq s.handles i e)
        (Perm.append_left s.pool (held-assign s.handles i j old (ground arith) e))
]

-- One operation on handles, whichever it is, leaves the pipelines in the pool and with handles the same.
Step-owned : {s t : PipelinePool} → Step s t → Perm (owned t) (owned s)
Step-owned {s} (acquires e) = acquire_from-owned s.pool s refl e
Step-owned {s} (destroys i) = destroy-owned i s
Step-owned {s} (moves j) = move_construct-owned j s
Step-owned {s} (assigns i j e) = move_assign-owned i j s e

Run-owned : {s t : PipelinePool} → Run s t → Perm (owned t) (owned s)
Run-owned here = Perm.rfl
Run-owned (next r st) = Perm.trans (Step-owned st) (Run-owned r)

create-owned : (ps : List ℕ) {s : PipelinePool} → create ps ≡ some s → owned s ≡ ps
unfolding create
create-owned [] e = absurd (cc)
create-owned (p ∷ ps) e = subst (λ s. owned s ≡ p ∷ ps) (some-injective _ _ e) (append-nil (p ∷ ps))

-- After any history of acquiring, moving, assigning and destroying handles, the pipelines in the pool
-- and with handles are those that the pool was made of, each exactly once if they were distinct then:
-- no handle shares a pipeline with another or with the pool.
pub Run-Nodup :
    (ps : List ℕ) {s t : PipelinePool}
    → create ps ≡ some s
    → Nodup ps
    → Run s t
    → Perm (owned t) ps × Nodup (owned t)
Run-Nodup ps {s} {t} c d r =
    let same = subst (Perm (owned t)) (create-owned ps c) (Run-owned r) in
    (same, Perm.nodup (Perm.symm same) d)
