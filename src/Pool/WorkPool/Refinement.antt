-- ===== src/Pool/WorkPool/Refinement.antt =====
-- The work pool implements the bounded queue with its number of servers.
use mathlib.Core.Option.{some-injective}
use turbo_ocr.Common.{
  ℕ, zero, suc, ◌≤◌, ◌<◌, ◌≡◌, refl, subst, ◌∙◌, some, List, [], ◌∷◌, arith, leb, leb→gt, length,
  length-set, length-replicate, get_elem?, Bool-cases, inl, inr,
}
use turbo_ocr.Pool.WorkPool.{
  Worker, waiting, exited, running, WorkPool, init, submit, fetch_from, complete, shut_down, Step,
  submits, fetches, completes, shuts_down, Run, here, next,
}
use turbo_ocr.Pool.WorkPool.Invariant.{
  tasks_of, tasks_of-replicate, set-running, set-waiting, set-exited,
}
use turbo_ocr.Pool.WorkPool.Spec.{
  Service, idle, accepts, starts, finishes, ServiceRun, begins, goes_on,
}

-- The service that a pool is seen as.
unfoldable pub service_of : WorkPool → Service
service_of p = record { pending = p.queue; active = tasks_of p.workers; done = p.finished }

tasks_of-le : (ws : List Worker) → length (tasks_of ws) ≤ length ws
tasks_of-le [] = omega arith
tasks_of-le (waiting ∷ ws) = omega (arith, tasks_of-le ws)
tasks_of-le (exited ∷ ws) = omega (arith, tasks_of-le ws)
tasks_of-le (running t ∷ ws) = omega (arith, tasks_of-le ws)

-- While a worker waits, a server is free.
waiting-free :
    (ws : List Worker) (i : ℕ) → get_elem? ws i ≡ some waiting → length (tasks_of ws) < length ws
waiting-free [] i e = absurd (cc)
waiting-free (waiting ∷ ws) zero e = omega (arith, tasks_of-le ws)
waiting-free (exited ∷ ws) zero e = absurd (cc)
waiting-free (running t ∷ ws) zero e = absurd (cc)
waiting-free (waiting ∷ ws) (suc i) e = omega (arith, waiting-free ws i e)
waiting-free (exited ∷ ws) (suc i) e = omega (arith, waiting-free ws i e)
waiting-free (running t ∷ ws) (suc i) e = omega (arith, waiting-free ws i e)

module _ (n d : ℕ) where
  -- A pool of `n` workers and depth `d` whose service can be reached from the idle one.
  abbrev Reaches : WorkPool → Type 0
  Reaches p = ServiceRun n d idle (service_of p) × (length p.workers ≡ n) × (p.max_depth ≡ d)

  submit-Reaches :
      (p : WorkPool) (task : ℕ) {q : WorkPool} → submit task p ≡ some q → Reaches p → Reaches q
  unfolding submit service_of
  submit-Reaches p task e (r, workers, depth) =
      elim (Bool-cases (leb p.max_depth (length p.queue))) [
        | inl full ↦ let bad = rw full at e in absurd (cc)
        | inr room ↦
            subst Reaches (some-injective _ _ (rw room at e))
              (goes_on r (accepts task (omega (arith, leb→gt _ _ room, depth))), workers, depth)
      ]

  fetch_from-Reaches :
      (xs : List ℕ) (i : ℕ) (p : WorkPool) {q : WorkPool}
      → p.queue ≡ xs
      → get_elem? p.workers i ≡ some waiting
      → fetch_from xs i p ≡ some q
      → Reaches p
      → Reaches q
  unfolding fetch_from service_of
  fetch_from-Reaches [] i p h w e (r, workers, depth) = elim (Bool-cases p.stop) [
    | inl stopped ↦
        subst Reaches (some-injective _ _ (rw stopped at e))
          (rw (set-exited p.workers i w) r, length-set p.workers i exited ∙ workers, depth)
    | inr busy ↦ let bad = rw busy at e in absurd (cc)
  ]
  fetch_from-Reaches (task ∷ rest) i p h w e (r, workers, depth) =
      subst Reaches (some-injective _ _ e) (
        goes_on r (
            starts h (omega (arith, waiting-free p.workers i w, workers))
              (set-running p.workers i w)),
        length-set p.workers i (running task) ∙ workers,
        depth,
      )

  Step-Reaches : {p q : WorkPool} → Step p q → Reaches p → Reaches q
  unfolding shut_down complete service_of
  Step-Reaches {p} (submits task e) r = submit-Reaches p task e r
  Step-Reaches {p} (fetches i w e) r = fetch_from-Reaches p.queue i p refl w e r
  Step-Reaches {p} (completes i task w) (r, workers, depth) = (
    goes_on r (finishes (set-waiting p.workers i w)),
    length-set p.workers i waiting ∙ workers,
    depth,
  )
  Step-Reaches shuts_down r = r

  init-Reaches : Reaches (init n d)
  unfolding init service_of
  init-Reaches = (rw tasks_of-replicate begins, length-replicate n waiting, refl)

  Run-Reaches : {p : WorkPool} → Run (init n d) p → Reaches p
  Run-Reaches here = init-Reaches
  Run-Reaches (next r s) = Step-Reaches s (Run-Reaches r)

  -- Every interleaving of a pool of `n` workers and depth `d` is a run of the service with `n` servers
  -- and room for `d`: a task enters only when there is room, leaves from the front and only to a free
  -- server, and is done when its server gives it up.
  pub Run-ServiceRun : {p : WorkPool} → Run (init n d) p → ServiceRun n d idle (service_of p)
  Run-ServiceRun r = (Run-Reaches r).0
