-- ===== src/Pool/PipelineDispatcher/Undecided.antt =====
-- The tasks that the workers have fetched and not yet decided on, under each kind of step.
use mathlib.Core.List.{Perm, perm_append_comm, perm_middle}
use mathlib.Core.List.Perm
use mathlib.Core.Option.{some-injective}
use turbo_ocr.Common.{
  ℕ, zero, suc, ◌≡◌, refl, sym, ap, subst, ◌∙◌, Bool, true, Option, some, none, List, [], ◌∷◌, ◌++◌,
  append_assoc, get_elem?, set, map, Bool-cases, inl, inr,
}
use turbo_ocr.Pool.PipelineDispatcher.State.{
  QueuedWork, taken, rebuilding, prepared, cleared, marked, Phase, busy, GpuPipelineEntry, Slot,
  PipelineDispatcher, new_slot,
}
use turbo_ocr.Pool.PipelineDispatcher.Worker.{
  in_phase, Move, exchanges, rebuilds, clears, marks, finishes, unmarks, clears_again, settles,
}
use turbo_ocr.Pool.PipelineDispatcher.Watch.{raise_flag, request_recycle, store_request}

-- The task that a worker has not yet decided on.
abbrev pub undecided : Phase → List QueuedWork
undecided (busy taken w) = w ∷ []
undecided (busy rebuilding w) = w ∷ []
undecided (busy prepared w) = w ∷ []
undecided (busy cleared w) = w ∷ []
undecided (busy marked w) = w ∷ []
undecided _ = []

abbrev pub all_undecided : List Slot → List QueuedWork
all_undecided [] = []
all_undecided (s ∷ slots) = undecided s.phase ++ all_undecided slots

swap_front : (a b c : List QueuedWork) → Perm (a ++ (b ++ c)) (b ++ (a ++ c))
swap_front a b c =
    subst (λ l. Perm l (b ++ (a ++ c))) (append_assoc a b c)
      (subst (λ l. Perm ((a ++ b) ++ c) l) (append_assoc b a c)
        (Perm.append_right c (perm_append_comm a b)))

-- A slot is replaced: what the new one has not decided joins the rest, what the old one had leaves it.
pub set-undecided :
    (slots : List Slot) (i : ℕ) {s : Slot} (s' : Slot)
    → get_elem? slots i ≡ some s
    → Perm
        (undecided s'.phase ++ all_undecided slots)
        (undecided s.phase ++ all_undecided (set slots i s'))
set-undecided [] i s' e = absurd (cc)
set-undecided (x ∷ xs) zero {s} s' e =
    let same = some-injective _ _ e in
    subst
      (λ t.
        Perm (undecided s'.phase ++ (undecided x.phase ++ all_undecided xs))
          (undecided t.phase ++ (undecided s'.phase ++ all_undecided xs)))
      same (swap_front (undecided s'.phase) (undecided x.phase) (all_undecided xs))
set-undecided (x ∷ xs) (suc i) {s} s' e =
    Perm.trans (swap_front (undecided s'.phase) (undecided x.phase) (all_undecided xs)) (
      Perm.trans (Perm.append_left (undecided x.phase) (set-undecided xs i s' e))
        (swap_front (undecided x.phase) (undecided s.phase) (all_undecided (set xs i s'))))

-- A worker's own moves decide nothing.
pub Move-undecided :
    {enabled : Bool} {now : ℕ} {s s' : Slot}
    → Move enabled now s s'
    → undecided s'.phase ≡ undecided s.phase
Move-undecided {s = s} (exchanges w e) = elim (Bool-cases s.recycle_flag) [
  | inl raised ↦ rw (e, raised)
  | inr lowered ↦ rw (e, lowered)
]
Move-undecided (rebuilds rebuilt w e) = rw e
Move-undecided (clears w e) = rw e
Move-undecided (marks w e) = rw e
Move-undecided (finishes fault w e) = rw e
Move-undecided (unmarks w e) = rw e
Move-undecided (clears_again w e) = rw e
Move-undecided (settles w e) = rw e

pub set-undecided_same :
    (slots : List Slot) (i : ℕ) {s : Slot} (s' : Slot)
    → get_elem? slots i ≡ some s
    → undecided s'.phase ≡ undecided s.phase
    → all_undecided (set slots i s') ≡ all_undecided slots
set-undecided_same [] i s' e same = refl
set-undecided_same (x ∷ xs) zero s' e same =
    ap (λ l. l ++ all_undecided xs)
      (same ∙ ap (λ (t : Slot). undecided t.phase) (sym (some-injective _ _ e)))
set-undecided_same (x ∷ xs) (suc i) s' e same =
    ap (◌++◌ (undecided x.phase)) (set-undecided_same xs i s' e same)

pub new_slots-undecided :
    (entries : List GpuPipelineEntry) → all_undecided (map new_slot entries) ≡ []
new_slots-undecided [] = refl
new_slots-undecided (e ∷ entries) = new_slots-undecided entries

pub to_the_end :
    (w : QueuedWork) (xs ys zs : List QueuedWork)
    → Perm (w ∷ (xs ++ (ys ++ zs))) (xs ++ (ys ++ w ∷ zs))
to_the_end w xs ys zs =
    Perm.symm (Perm.trans (Perm.append_left xs (perm_middle ys zs)) (perm_middle xs (ys ++ zs)))

-- A worker that decides gives its task up.
pub decide-Perm :
    (slots : List Slot) (i : ℕ) (s : Slot) (w : QueuedWork) (after : Phase)
    → get_elem? slots i ≡ some s
    → s.phase ≡ busy marked w
    → undecided after ≡ []
    → Perm (all_undecided slots) (w ∷ all_undecided (set slots i (in_phase after s)))
decide-Perm slots i s w after there phase none_left =
    let moved = set-undecided slots i (in_phase after s) there in
    subst
      (λ l. Perm (l ++ all_undecided slots) (w ∷ all_undecided (set slots i (in_phase after s))))
      none_left
      (subst
        (λ f.
          Perm (undecided after ++ all_undecided slots)
            (undecided f ++ all_undecided (set slots i (in_phase after s))))
        phase moved)

pub raise_flag-undecided :
    (o : Option Slot) (i : ℕ) (slots : List Slot)
    → get_elem? slots i ≡ o
    → all_undecided (raise_flag o i slots) ≡ all_undecided slots
raise_flag-undecided none i slots e = refl
raise_flag-undecided (some s) i slots e =
    set-undecided_same slots i (record s { recycle_flag = true }) e refl

pub store_request-undecided :
    (o : Option Slot) (i now : ℕ) (slots : List Slot)
    → get_elem? slots i ≡ o
    → all_undecided (store_request i now o slots) ≡ all_undecided slots
store_request-undecided none i now slots e = refl
store_request-undecided (some s) i now slots e =
    set-undecided_same slots i (record s { recycle_requested_at_ms = now }) e refl

pub recycle-undecided :
    (p : PipelineDispatcher) (i : ℕ)
    → all_undecided (request_recycle i p).slots ≡ all_undecided p.slots
unfolding request_recycle
recycle-undecided p i = elim (Bool-cases p.recycle_enabled) [
  | inl on ↦ rw on (raise_flag-undecided (get_elem? p.slots i) i p.slots refl)
  | inr off ↦ rw off
]
