-- ===== src/Pool/PipelineDispatcher/Sight.antt =====
-- What the watchdog knows, and the steps of others that leave it.
use mathlib.Core.Option.{some-injective}
use turbo_ocr.Common.{
  ℕ, ◌+◌, ◌≤◌, ◌<◌, ◌≡◌, ◌≢◌, refl, sym, subst, ◌∙◌, true, false, leb, if◌then◌else◌, some, List,
  [], ◌∷◌, ◌++◌, arith, get_elem?, length, Bool-cases, inl, inr,
}
use turbo_ocr.Pool.PipelineDispatcher.State.{
  QueuedWork, Phase, busy, running, returned, Slot, Request, Watchdog, asleep, awake, stopped,
  timed, scanning, saw_start, saw_request, flagged, killed, PipelineDispatcher,
  submit_with_deadline, replace,
}
use turbo_ocr.Pool.PipelineDispatcher.Worker.{in_phase, fetch_work, is_due, check_deadline}
use turbo_ocr.Pool.PipelineDispatcher.Requests.{Asked, Known, kept-Known, Asked-wider, Known-wider}

module _ (Allowed : ℕ → Type 0) where
  -- What the watchdog holds in its hands is true.
  abbrev pub Sees : List Request → ℕ → ℕ → Watchdog → Type 0
  Sees rs hard_kill clock (timed deadline) = Allowed deadline
  Sees rs hard_kill clock (scanning i now deadline) = (now ≤ clock) × Allowed deadline
  Sees rs hard_kill clock (saw_start i now deadline started) =
      (now ≤ clock) × Allowed deadline × (0 < started)
  Sees rs hard_kill clock (saw_request i now deadline started req_at) =
      (now ≤ clock) × Allowed deadline × (0 < started) × (req_at ≢ 0 → Asked Allowed rs i req_at)
  Sees rs hard_kill clock (flagged i now deadline) =
      (now ≤ clock) × Allowed deadline × Asked Allowed rs i now
  Sees rs hard_kill clock (killed i now) =
      (now ≤ clock) × ((t : ℕ) × Asked Allowed rs i t × (t + hard_kill < now))
  Sees rs hard_kill clock _ = Unit {0}

  pub Sees-later :
      (w : Watchdog) (rs : List Request) (hard_kill clock ms : ℕ)
      → Sees rs hard_kill clock w
      → Sees rs hard_kill (clock + ms) w
  Sees-later asleep rs hard_kill clock ms h = tt
  Sees-later awake rs hard_kill clock ms h = tt
  Sees-later stopped rs hard_kill clock ms h = tt
  Sees-later (timed deadline) rs hard_kill clock ms h = h
  Sees-later (scanning i now deadline) rs hard_kill clock ms (past, h) = (omega arith, h)
  Sees-later (saw_start i now deadline started) rs hard_kill clock ms (past, h, k) =
      (omega arith, h, k)
  Sees-later (saw_request i now deadline started req_at) rs hard_kill clock ms (past, h, k, l) =
      (omega arith, h, k, l)
  Sees-later (flagged i now deadline) rs hard_kill clock ms (past, h, k) = (omega arith, h, k)
  Sees-later (killed i now) rs hard_kill clock ms (past, h) = (omega arith, h)

  pub record Inv (hard_kill : ℕ) (p : PipelineDispatcher) : Type 0 where
    pub known : Known Allowed p.requests p.slots
    pub sees : Sees p.requests hard_kill p.clock p.watchdog
    pub fixed : p.hard_kill_ms ≡ hard_kill

  -- A step that leaves the watchdog alone.
  pub others-Inv :
      {hard_kill : ℕ} {p q : PipelineDispatcher}
      → Known Allowed p.requests q.slots
      → q.requests ≡ p.requests
      → q.clock ≡ p.clock
      → q.watchdog ≡ p.watchdog
      → q.hard_kill_ms ≡ p.hard_kill_ms
      → Inv hard_kill p
      → Inv hard_kill q
  others-Inv {hard_kill} {p} {q} known requests clock watchdog kill v = record {
    known = subst (λ rs. Known Allowed rs q.slots) (sym requests) known;
    sees = rw (requests, clock, watchdog) v.sees;
    fixed = kill ∙ v.fixed;
  }

  module _ (hard_kill : ℕ) where
    pub submit_work-Inv :
        (p : PipelineDispatcher) (deadline_ms fn : ℕ) {q : PipelineDispatcher}
        → submit_with_deadline deadline_ms fn p ≡ some q
        → Inv hard_kill p
        → Inv hard_kill q
    unfolding submit_with_deadline
    submit_work-Inv p deadline_ms fn e v =
        elim (Bool-cases (leb p.max_queue_depth (length p.queue))) [
          | inl full ↦ let bad = rw full at e in absurd (cc)
          | inr room ↦
              subst (Inv hard_kill) (some-injective _ _ (rw room at e))
                (others-Inv v.known refl refl refl refl v)
        ]

    pub fetch_work-Inv :
        (works : List QueuedWork) (i : ℕ) (s : Slot) (p : PipelineDispatcher)
        {q : PipelineDispatcher}
        → get_elem? p.slots i ≡ some s
        → fetch_work works i s p ≡ some q
        → Inv hard_kill p
        → Inv hard_kill q
    unfolding fetch_work
    fetch_work-Inv [] i s p there e v = elim (Bool-cases p.stop) [
      | inl over ↦ subst (Inv hard_kill) (some-injective _ _ (rw over at e)) (
          others-Inv (kept-Known Allowed p.requests p.slots i s _ there (inr refl) v.known) refl
            refl refl refl v)
      | inr going ↦ let bad = rw going at e in absurd (cc)
    ]
    fetch_work-Inv (work ∷ rest) i s p there e v = subst (Inv hard_kill) (some-injective _ _ e) (
        others-Inv (kept-Known Allowed p.requests p.slots i s _ there (inr refl) v.known) refl refl
          refl refl v)

    pub check_deadline-Inv :
        (p : PipelineDispatcher) (i : ℕ) (s : Slot) (w : QueuedWork)
        → get_elem? p.slots i ≡ some s
        → Inv hard_kill p
        → Inv hard_kill (check_deadline i s w p)
    unfolding check_deadline
    check_deadline-Inv p i s w there v =
        let known = λ (after : Phase).
          kept-Known Allowed p.requests p.slots i s (in_phase after s) there (inr refl) v.known in
        elim (is_due p.clock w)
          as (λ b. Inv hard_kill (
            if b
            then record (replace i (in_phase (busy running w) s) p) { ran = p.ran ++ w ∷ [] }
            else record (replace i (in_phase (busy returned w) s) p) {
              dropped = p.dropped ++ w ∷ [];
            })) [
              | true ↦ others-Inv (known (busy running w)) refl refl refl refl v
              | false ↦ others-Inv (known (busy returned w)) refl refl refl refl v
            ]

module _ {A B : ℕ → Type 0} (wider : (d : ℕ) → A d → B d) where
  Sees-wider :
      (rs : List Request) (hard_kill clock : ℕ) (w : Watchdog)
      → Sees A rs hard_kill clock w
      → Sees B rs hard_kill clock w
  Sees-wider rs hard_kill clock asleep h = tt
  Sees-wider rs hard_kill clock awake h = tt
  Sees-wider rs hard_kill clock stopped h = tt
  Sees-wider rs hard_kill clock (timed deadline) h = wider deadline h
  Sees-wider rs hard_kill clock (scanning i now deadline) (past, long) = (past, wider deadline long)
  Sees-wider rs hard_kill clock (saw_start i now deadline started) (past, long, busy_since) =
      (past, wider deadline long, busy_since)
  Sees-wider rs hard_kill clock (saw_request i now deadline started req_at) (past, long, b, asked) =
      (past, wider deadline long, b, λ made. Asked-wider wider rs i req_at (asked made))
  Sees-wider rs hard_kill clock (flagged i now deadline) (past, long, asked) =
      (past, wider deadline long, Asked-wider wider rs i now asked)
  Sees-wider rs hard_kill clock (killed i now) (past, (t, asked, late)) =
      (past, (t, Asked-wider wider rs i t asked, late))

  pub Inv-wider : {hard_kill : ℕ} {p : PipelineDispatcher} → Inv A hard_kill p → Inv B hard_kill p
  Inv-wider {hard_kill} {p} v = record {
    known = Known-wider wider p.requests p.slots v.known;
    sees = Sees-wider p.requests hard_kill p.clock p.watchdog v.sees;
    fixed = v.fixed;
  }
