-- ===== src/Pool/PipelineDispatcher/HardKill.antt =====
-- When the watchdog ends the process.
use turbo_ocr.Common.{
  ℕ, suc, ◌+◌, ◌≤◌, ◌<◌, ◌≡◌, refl, subst, Bool, true, false, not, ◌⊎◌, above, ◌&&◌, ltb, ◌==◌,
  if◌then◌else◌, Option, some, none, List, arith, get_elem?, Bool-cases, inl, inr, ℤ, pos, leb_ℤ,
}
use turbo_ocr.Pool.PipelineDispatcher.State.{
  GpuPipelineEntry, Slot, Request, Watchdog, asleep, awake, stopped, timed, scanning, saw_start,
  saw_request, flagged, killed, PipelineDispatcher, hard_kill_from, watchdog_grace_ms,
  create_dispatcher,
}
use turbo_ocr.Pool.PipelineDispatcher.Watch.{request_recycle, read_start, judge, watch}
use turbo_ocr.Pool.PipelineDispatcher.Steps.{
  stop_dispatcher, set_request_timeout_ms, Step, submits, fetches, checks, moves, watches,
  requests_recycle, sets_timeout, shuts_down, ticks, Run, here, next,
}
use turbo_ocr.Pool.PipelineDispatcher.Requests.{
  Asked, kept-Known, Move-request, store_request-Known, requested_at-Asked, recycle-Known,
  new_slots-Known,
}
use turbo_ocr.Pool.PipelineDispatcher.Sight.{
  Sees, Sees-later, Inv, Inv-wider, others-Inv, submit_work-Inv, fetch_work-Inv, check_deadline-Inv,
}

module _ (Allowed : ℕ → Type 0) (hard_kill : ℕ) where
  read_start-Sees :
      (o : Option Slot) (i now deadline clock : ℕ) (rs : List Request)
      → now ≤ clock
      → Allowed deadline
      → Sees Allowed rs hard_kill clock (read_start i now deadline o)
  read_start-Sees none i now deadline clock rs past long = tt
  read_start-Sees (some s) i now deadline clock rs past long =
      elim (Bool-cases (s.task_start_ms == 0)) [
        | inl idle ↦ rw idle (past, long)
        | inr busy_since ↦ rw busy_since (past, long, ground arith)
      ]

  watch_only :
      (p : PipelineDispatcher) (w : Watchdog)
      → Sees Allowed p.requests hard_kill p.clock w
      → Inv Allowed hard_kill p
      → Inv Allowed hard_kill (record p { watchdog = w })
  watch_only p w sees v = record { known = v.known; sees = sees; fixed = v.fixed }

  judge-Inv :
      (i now deadline started req_at : ℕ) (p : PipelineDispatcher)
      → Sees Allowed p.requests hard_kill p.clock (saw_request i now deadline started req_at)
      → Inv Allowed hard_kill p
      → Inv Allowed hard_kill (judge i now deadline started req_at p)
  unfolding request_recycle
  judge-Inv i now deadline started req_at p (past, long, busy_since, asked) v =
      elim (Bool-cases (not (req_at == 0) && ltb (req_at + p.hard_kill_ms) now)) [
        | inl wedged ↦ rw wedged (
            watch_only p (killed i now)
              (
                past,
                (
                  req_at,
                  asked (λ made. ground (arith, made, wedged)),
                  ground (arith, wedged, v.fixed),
                ),
              )
              v)
        | inr other ↦ rw other (elim (Bool-cases (ltb (started + deadline) now && req_at == 0)) [
          | inl late ↦ rw late (record {
            known = λ k s e made. inr (recycle-Known Allowed i p v.known k s e made);
            sees = (past, long, inl (refl, refl, busy_since, long, ground (arith, late)));
            fixed = v.fixed;
          })
          | inr fine ↦ rw fine (watch_only p (scanning (suc i) now deadline) (past, long) v)
        ])
      ]

  watch-Inv :
      (w : Watchdog) (p : PipelineDispatcher)
      → (w ≡ awake
          → 0 < above p.request_timeout_ms
          → Allowed (above p.request_timeout_ms + watchdog_grace_ms))
      → Sees Allowed p.requests hard_kill p.clock w
      → Inv Allowed hard_kill p
      → Inv Allowed hard_kill (watch w p)
  unfolding watch
  watch-Inv asleep p allows sees v =
      watch_only p _
        (elim p.stop
          as (λ b. Sees Allowed p.requests hard_kill p.clock (if b then stopped else awake)) [
            | true ↦ tt
            | false ↦ tt
          ])
        v
  watch-Inv awake p allows sees v =
      watch_only p _
        (elim (Bool-cases (leb_ℤ p.request_timeout_ms (pos 0))) [
          | inl off ↦ rw off tt
          | inr on ↦ rw on (allows refl (ground (arith, on)))
        ])
        v
  watch-Inv stopped p allows sees v = v
  watch-Inv (timed deadline) p allows sees v = watch_only p _ (omega arith, sees) v
  watch-Inv (scanning i now deadline) p allows (past, long) v =
      watch_only p _
        (read_start-Sees (get_elem? p.slots i) i now deadline p.clock p.requests past long) v
  watch-Inv (saw_start i now deadline started) p allows (past, long, busy_since) v =
      watch_only p _
        (
          past,
          long,
          busy_since,
          requested_at-Asked Allowed (get_elem? p.slots i) i p.requests p.slots refl v.known,
        )
        v
  watch-Inv (saw_request i now deadline started req_at) p allows sees v =
      judge-Inv i now deadline started req_at p sees v
  watch-Inv (flagged i now deadline) p allows (past, long, asked) v = record {
    known =
        store_request-Known Allowed (get_elem? p.slots i) i now p.requests p.slots asked v.known;
    sees = (past, long);
    fixed = v.fixed;
  }
  watch-Inv (killed i now) p allows sees v = v

  Step-Inv :
      {p q : PipelineDispatcher}
      → (p.watchdog ≡ awake
          → 0 < above p.request_timeout_ms
          → Allowed (above p.request_timeout_ms + watchdog_grace_ms))
      → Step p q
      → Inv Allowed hard_kill p
      → Inv Allowed hard_kill q
  unfolding stop_dispatcher set_request_timeout_ms request_recycle
  Step-Inv {p} allows (submits deadline_ms fn e) v =
      submit_work-Inv Allowed hard_kill p deadline_ms fn e v
  Step-Inv {p} allows (fetches i s there idle e) v =
      fetch_work-Inv Allowed hard_kill p.queue i s p there e v
  Step-Inv {p} allows (checks i s w there phase) v =
      check_deadline-Inv Allowed hard_kill p i s w there v
  Step-Inv {p} allows (moves i s {s'} there m) v =
      others-Inv Allowed
        (kept-Known Allowed p.requests p.slots i s s' there (Move-request m) v.known) refl refl refl
        refl v
  Step-Inv {p} allows watches v = watch-Inv p.watchdog p allows v.sees v
  Step-Inv {p} allows (requests_recycle i) v =
      others-Inv Allowed (recycle-Known Allowed i p v.known) refl refl refl refl v
  Step-Inv allows (sets_timeout ms) v = others-Inv Allowed v.known refl refl refl refl v
  Step-Inv allows shuts_down v = others-Inv Allowed v.known refl refl refl refl v
  Step-Inv {p} allows (ticks ms) v = record {
    known = v.known;
    sees = Sees-later Allowed p.watchdog p.requests hard_kill p.clock ms v.sees;
    fixed = v.fixed;
  }

-- The states of a run.
abbrev pub Visits : {p q : PipelineDispatcher} → Run p q → PipelineDispatcher → Type 0
Visits {p} here s = s ≡ p
Visits (next {q} {r} run alive step) s = (s ≡ r) ⊎ Visits run s

last-Visits : {p q : PipelineDispatcher} (r : Run p q) → Visits r q
last-Visits here = refl
last-Visits (next r alive step) = inl refl

-- The time is a request timeout and 2000 ms: one that was set, and above 0, when the watchdog woke in the
-- course of the run.
abbrev pub InForce : {p q : PipelineDispatcher} → Run p q → ℕ → Type 0
InForce r d =
    (s : PipelineDispatcher) × Visits r s
    × (s.watchdog ≡ awake)
    × (0 < above s.request_timeout_ms)
    × (d ≡ above s.request_timeout_ms + 2000)

create_dispatcher-Inv :
    (entries : List GpuPipelineEntry) (enabled : Bool) (hard_kill : Option ℤ) (clock : ℕ)
    (Allowed : ℕ → Type 0)
    → Inv Allowed (hard_kill_from hard_kill) (create_dispatcher entries enabled hard_kill clock)
unfolding create_dispatcher
create_dispatcher-Inv entries enabled hard_kill clock Allowed = record {
  known = new_slots-Known Allowed entries;
  sees = tt;
  fixed = refl;
}

Run-Inv :
    (entries : List GpuPipelineEntry) (enabled : Bool) (hard_kill : Option ℤ) (clock : ℕ)
    {p : PipelineDispatcher} (r : Run (create_dispatcher entries enabled hard_kill clock) p)
    → Inv (InForce r) (hard_kill_from hard_kill) p
Run-Inv entries enabled hard_kill clock here =
    create_dispatcher-Inv entries enabled hard_kill clock (InForce here)
Run-Inv entries enabled hard_kill clock (next {q} r alive s) =
    Step-Inv (InForce (next r alive s)) (hard_kill_from hard_kill)
      (λ woke on. (q, inr (last-Visits r), woke, on, refl)) s
      (Inv-wider (λ d (t, visited, woke, on, same). (t, inr visited, woke, on, same))
        (Run-Inv entries enabled hard_kill clock r))

-- In every interleaving: when the watchdog ends the process over worker `i`, it had asked for a recycle of
-- that worker more than the configured time before, for a task that had then run for longer than a
-- request timeout, set and above 0 when the watchdog woke in that interleaving, and 2000 ms more.
pub Run-killed :
    (entries : List GpuPipelineEntry) (enabled : Bool) (hard_kill : Option ℤ) (clock : ℕ)
    {p : PipelineDispatcher} (i now : ℕ)
    (r : Run (create_dispatcher entries enabled hard_kill clock) p)
    → p.watchdog ≡ killed i now
    → (now ≤ p.clock)
      × ((t : ℕ) × Asked (InForce r) p.requests i t × (t + hard_kill_from hard_kill < now))
Run-killed entries enabled hard_kill clock {p} i now r e =
    subst (Sees (InForce r) p.requests (hard_kill_from hard_kill) p.clock) e
      (Run-Inv entries enabled hard_kill clock r).sees
