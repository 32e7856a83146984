-- ===== src/Pool/PipelineDispatcher/Requests.antt =====
-- The times of requests that are stored with the workers are times of requests.
use mathlib.Core.Option.{some-injective}
use turbo_ocr.Common.{
  ℕ, zero, suc, ◌+◌, ◌<◌, ◌≡◌, ◌≢◌, ◌⊎◌, refl, sym, ap, subst, ◌∙◌, Bool, true, false, ◌==◌, ==_iff,
  if◌then◌else◌, Option, some, none, List, [], ◌∷◌, arith, get_elem?, get-set_ne, set, map,
  Bool-cases, inl, inr,
}
use turbo_ocr.Pool.PipelineDispatcher.State.{
  GpuPipelineEntry, Slot, Request, PipelineDispatcher, new_slot,
}
use turbo_ocr.Pool.PipelineDispatcher.Worker.{
  Move, exchanges, rebuilds, clears, marks, finishes, unmarks, clears_again, settles,
}
use turbo_ocr.Pool.PipelineDispatcher.Watch.{
  raise_flag, request_recycle, requested_at, store_request,
}

get-set_self :
    (slots : List Slot) (i : ℕ) (v s : Slot) → get_elem? (set slots i v) i ≡ some s → v ≡ s
get-set_self [] i v s e = absurd (cc)
get-set_self (x ∷ xs) zero v s e = some-injective _ _ e
get-set_self (x ∷ xs) (suc i) v s e = get-set_self xs i v s e

pub Move-request :
    {enabled : Bool} {now : ℕ} {s s' : Slot}
    → Move enabled now s s'
    → (s'.recycle_requested_at_ms ≡ 0) ⊎ (s'.recycle_requested_at_ms ≡ s.recycle_requested_at_ms)
Move-request (exchanges w e) = inr refl
Move-request (rebuilds rebuilt w e) = inr refl
Move-request (clears w e) = inl refl
Move-request (marks w e) = inr refl
Move-request (finishes fault w e) = inr refl
Move-request (unmarks w e) = inr refl
Move-request (clears_again w e) = inl refl
Move-request (settles w e) = inr refl

-- `Allowed` says which times a task was allowed.
module _ (Allowed : ℕ → Type 0) where
  -- A request was made of worker `i` at the time `t`, for a task that had overrun an allowed time.
  abbrev pub Asked : List Request → ℕ → ℕ → Type 0
  Asked [] i t = ⊥
  Asked (r ∷ rs) i t =
      (r.worker ≡ i)
        × (r.made_at ≡ t)
        × (0 < r.started)
        × Allowed r.allowed
        × (r.started + r.allowed < r.made_at)
      ⊎ Asked rs i t

  -- What is stored of a worker's request is the time of one.
  abbrev pub Known : List Request → List Slot → Type 0
  Known rs slots =
      (k : ℕ) (s : Slot)
      → get_elem? slots k ≡ some s
      → s.recycle_requested_at_ms ≢ 0
      → Asked rs k s.recycle_requested_at_ms

  set-Known :
      (rs : List Request) (slots : List Slot) (i : ℕ) (v : Slot)
      → (v.recycle_requested_at_ms ≢ 0 → Asked rs i v.recycle_requested_at_ms)
      → Known rs slots
      → Known rs (set slots i v)
  set-Known rs slots i v h known k s e = elim (Bool-cases (i == k)) [
    | inl same ↦
        let i_lem = (==_iff i k).0 same in
        let e' : get_elem? (set slots i v) i ≡ some s =
          subst (λ n. get_elem? (set slots i v) n ≡ some s) (sym i_lem) e in
        subst (λ (t : Slot). t.recycle_requested_at_ms ≢ 0 → Asked rs k t.recycle_requested_at_ms)
          (get-set_self slots i v s e')
          (subst (λ n. v.recycle_requested_at_ms ≢ 0 → Asked rs n v.recycle_requested_at_ms) i_lem
            h)
    | inr other ↦ known k s (sym (get-set_ne slots i k v (λ same. ground (arith, same, other))) ∙ e)
  ]

  -- A slot whose time of a request was cleared, or is the one that it was.
  pub kept-Known :
      (rs : List Request) (slots : List Slot) (i : ℕ) (s v : Slot)
      → get_elem? slots i ≡ some s
      → (v.recycle_requested_at_ms ≡ 0) ⊎ (v.recycle_requested_at_ms ≡ s.recycle_requested_at_ms)
      → Known rs slots
      → Known rs (set slots i v)
  kept-Known rs slots i s v e (inl none_made) known =
      set-Known rs slots i v (λ made. absurd (made none_made)) known
  kept-Known rs slots i s v e (inr same) known =
      set-Known rs slots i v (subst (λ t. t ≢ 0 → Asked rs i t) (sym same) (known i s e)) known

  pub raise_flag-Known :
      (o : Option Slot) (i : ℕ) (rs : List Request) (slots : List Slot)
      → get_elem? slots i ≡ o
      → Known rs slots
      → Known rs (raise_flag o i slots)
  raise_flag-Known none i rs slots e known = known
  raise_flag-Known (some s) i rs slots e known =
      kept-Known rs slots i s (record s { recycle_flag = true }) e (inr refl) known

  pub recycle-Known :
      (i : ℕ) (p : PipelineDispatcher)
      → Known p.requests p.slots
      → Known p.requests (request_recycle i p).slots
  unfolding request_recycle
  recycle-Known i p known =
      elim p.recycle_enabled
        as (λ b.
          Known p.requests (if b then raise_flag (get_elem? p.slots i) i p.slots else p.slots)) [
            | true ↦ raise_flag-Known (get_elem? p.slots i) i p.requests p.slots refl known
            | false ↦ known
          ]

  pub store_request-Known :
      (o : Option Slot) (i now : ℕ) (rs : List Request) (slots : List Slot)
      → Asked rs i now
      → Known rs slots
      → Known rs (store_request i now o slots)
  store_request-Known none i now rs slots asked known = known
  store_request-Known (some s) i now rs slots asked known =
      set-Known rs slots i (record s { recycle_requested_at_ms = now }) (λ made. asked) known

  -- What is read of a worker's request is the time of one.
  pub requested_at-Asked :
      (o : Option Slot) (i : ℕ) (rs : List Request) (slots : List Slot)
      → get_elem? slots i ≡ o
      → Known rs slots
      → requested_at o ≢ 0
      → Asked rs i (requested_at o)
  requested_at-Asked none i rs slots e known made = absurd (made refl)
  requested_at-Asked (some s) i rs slots e known made = known i s e made

  pub new_slots-Known : (entries : List GpuPipelineEntry) → Known [] (map new_slot entries)
  new_slots-Known [] k s e made = absurd (cc)
  new_slots-Known (x ∷ entries) zero s e made =
      absurd (made (ap (λ (t : Slot). t.recycle_requested_at_ms) (sym (some-injective _ _ e))))
  new_slots-Known (x ∷ entries) (suc k) s e made = new_slots-Known entries k s e made

-- What was asked, with more times allowed.
module _ {A B : ℕ → Type 0} (wider : (d : ℕ) → A d → B d) where
  pub Asked-wider : (rs : List Request) (i t : ℕ) → Asked A rs i t → Asked B rs i t
  Asked-wider [] i t h = h
  Asked-wider (r ∷ rs) i t (inl (worker, made, started, allowed, late)) =
      inl (worker, made, started, wider r.allowed allowed, late)
  Asked-wider (r ∷ rs) i t (inr h) = inr (Asked-wider rs i t h)

  pub Known-wider : (rs : List Request) (slots : List Slot) → Known A rs slots → Known B rs slots
  Known-wider rs slots known k s e made =
      Asked-wider rs k s.recycle_requested_at_ms (known k s e made)
