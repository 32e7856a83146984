-- ===== src/Pool/WorkPool/Invariant.antt =====
-- What every interleaving of a work pool's threads keeps.
use mathlib.Core.List.{Perm, Permᴰ, perm_middle, perm_append_singleton}
use mathlib.Core.Logic.{∥∥₁_elim}
use mathlib.Core.Option.{some-injective}
use native.Mathlib.Nat.{ℕ_set}
use mathlib.Core.List.Perm
use turbo_ocr.Common.{
  ℕ, zero, suc, ◌≤◌, ◌≡◌, refl, sym, ap, subst, ◌∙◌, true, some, List, [], ◌∷◌, ◌++◌, append-nil,
  append_assoc, arith, leb, leb→gt, length, length-append, get_elem?, set, is_empty, replicate,
  Bool-cases, inl, inr,
}
use turbo_ocr.Pool.WorkPool.{
  Worker, waiting, exited, running, WorkPool, init, submit, fetch_from, complete, shut_down,
  drained, Step, submits, fetches, completes, shuts_down, Run, here, next,
}

-- The tasks in the hands of workers.
abbrev pub task_of : Worker → List ℕ
task_of (running task) = task ∷ []
task_of _ = []

abbrev pub tasks_of : List Worker → List ℕ
tasks_of [] = []
tasks_of (w ∷ ws) = task_of w ++ tasks_of ws

pub tasks_of-replicate : (n : ℕ) → tasks_of (replicate n waiting) ≡ []
tasks_of-replicate zero = refl
tasks_of-replicate (suc n) = tasks_of-replicate n

-- Worker `i` takes up a task, or lays it down.
pub set-running :
    (ws : List Worker) (i : ℕ) {task : ℕ}
    → get_elem? ws i ≡ some waiting
    → Perm (tasks_of (set ws i (running task))) (task ∷ tasks_of ws)
set-running [] i e = absurd (cc)
set-running (waiting ∷ ws) zero e = Perm.rfl
set-running (exited ∷ ws) zero e = absurd (cc)
set-running (running t ∷ ws) zero e = absurd (cc)
set-running (waiting ∷ ws) (suc i) e = set-running ws i e
set-running (exited ∷ ws) (suc i) e = set-running ws i e
set-running (running t ∷ ws) (suc i) e =
    Perm.trans (Perm.cons t (set-running ws i e)) (Perm.swap _ t _)

pub set-waiting :
    (ws : List Worker) (i : ℕ) {task : ℕ}
    → get_elem? ws i ≡ some (running task)
    → Perm (tasks_of ws) (task ∷ tasks_of (set ws i waiting))
set-waiting [] i e = absurd (cc)
set-waiting (waiting ∷ ws) zero e = absurd (cc)
set-waiting (exited ∷ ws) zero e = absurd (cc)
set-waiting (running t ∷ ws) zero e = Perm.cons' (cc) Perm.rfl
set-waiting (waiting ∷ ws) (suc i) e = set-waiting ws i e
set-waiting (exited ∷ ws) (suc i) e = set-waiting ws i e
set-waiting (running t ∷ ws) (suc i) e =
    Perm.trans (Perm.cons t (set-waiting ws i e)) (Perm.swap _ t _)

pub set-exited :
    (ws : List Worker) (i : ℕ)
    → get_elem? ws i ≡ some waiting
    → tasks_of (set ws i exited) ≡ tasks_of ws
set-exited [] i e = refl
set-exited (waiting ∷ ws) zero e = refl
set-exited (exited ∷ ws) zero e = refl
set-exited (running t ∷ ws) zero e = absurd (cc)
set-exited (w ∷ ws) (suc i) e = ap (◌++◌ (task_of w)) (set-exited ws i e)

-- The books balance.
pub record Inv (p : WorkPool) : Type 0 where
  -- Tasks are started in the order in which they were accepted, each of them once.
  pub fifo : p.started ++ p.queue ≡ p.accepted
  -- A started task is with a worker, or finished.
  pub owned : Perm p.started (p.finished ++ tasks_of p.workers)
  pub counted : p.inflight ≡ length (tasks_of p.workers)
  pub bounded : length p.queue ≤ p.max_depth

length-permᴰ : {xs ys : List ℕ} → Permᴰ xs ys → length xs ≡ length ys
length-permᴰ Permᴰ.nil = refl
length-permᴰ (Permᴰ.cons x h) = ap suc (length-permᴰ h)
length-permᴰ (Permᴰ.swap x y) = refl
length-permᴰ (Permᴰ.trans h k) = length-permᴰ h ∙ length-permᴰ k

length-perm : {xs ys : List ℕ} → Perm xs ys → length xs ≡ length ys
length-perm h = ∥∥₁_elim h (ℕ_set _ _) length-permᴰ

init-Inv : (n d : ℕ) → Inv (init n d)
unfolding init
init-Inv n d = record {
  fifo = refl;
  owned = rw tasks_of-replicate Perm.rfl;
  counted = rw tasks_of-replicate;
  bounded = omega arith;
}

submit-Inv : (p : WorkPool) (task : ℕ) {q : WorkPool} → submit task p ≡ some q → Inv p → Inv q
unfolding submit
submit-Inv p task e v = elim (Bool-cases (leb p.max_depth (length p.queue))) [
  | inl full ↦ let bad = rw full at e in absurd (cc)
  | inr room ↦ subst Inv (some-injective _ _ (rw room at e)) (record {
    fifo = sym (append_assoc p.started p.queue (task ∷ [])) ∙ ap (λ l. l ++ task ∷ []) v.fifo;
    owned = v.owned;
    counted = v.counted;
    bounded = omega (arith, length-append p.queue (task ∷ []), leb→gt _ _ room);
  })
]

fetch_from-Inv :
    (xs : List ℕ) (i : ℕ) (p : WorkPool) {q : WorkPool}
    → p.queue ≡ xs
    → get_elem? p.workers i ≡ some waiting
    → fetch_from xs i p ≡ some q
    → Inv p
    → Inv q
unfolding fetch_from
fetch_from-Inv [] i p h w e v = elim (Bool-cases p.stop) [
  | inl stopped ↦ subst Inv (some-injective _ _ (rw stopped at e)) (record {
    fifo = v.fifo;
    owned = rw (set-exited p.workers i w) v.owned;
    counted = rw (set-exited p.workers i w) v.counted;
    bounded = v.bounded;
  })
  | inr busy ↦ let bad = rw busy at e in absurd (cc)
]
fetch_from-Inv (task ∷ rest) i p h w e v =
    let taken = set-running p.workers i w in
    subst Inv (some-injective _ _ e) (record {
      fifo = append_assoc p.started (task ∷ []) rest ∙ ap (◌++◌ p.started) (sym h) ∙ v.fifo;
      owned = Perm.trans (perm_append_singleton task p.started) (
          Perm.trans (Perm.cons task v.owned) (
            Perm.trans (Perm.symm (perm_middle p.finished (tasks_of p.workers)))
              (Perm.append_left p.finished (Perm.symm taken))));
      counted = omega (arith, v.counted, length-perm taken);
      bounded = omega (arith, v.bounded, ap length h);
    })

complete-Inv :
    (p : WorkPool) (i task : ℕ)
    → get_elem? p.workers i ≡ some (running task)
    → Inv p
    → Inv (complete i task p)
unfolding complete
complete-Inv p i task w v =
    let laid = set-waiting p.workers i w in
    record {
      fifo = v.fifo;
      owned = rw append_assoc (Perm.trans v.owned (Perm.append_left p.finished laid));
      counted = omega (arith, v.counted, length-perm laid);
      bounded = v.bounded;
    }

Step-Inv : {p q : WorkPool} → Step p q → Inv p → Inv q
unfolding shut_down
Step-Inv {p} (submits task e) v = submit-Inv p task e v
Step-Inv {p} (fetches i w e) v = fetch_from-Inv p.queue i p refl w e v
Step-Inv {p} (completes i task w) v = complete-Inv p i task w v
Step-Inv shuts_down v = record {
  fifo = v.fifo;
  owned = v.owned;
  counted = v.counted;
  bounded = v.bounded;
}

-- In every interleaving of submitting threads, workers and the destructor: tasks are started in the
-- order in which they were accepted, each once; a started task is with one worker or finished, also if
-- it threw; `inflight_` counts the workers that run a task; the queue keeps its bound.
pub Run-Inv : (n d : ℕ) {p : WorkPool} → Run (init n d) p → Inv p
Run-Inv n d here = init-Inv n d
Run-Inv n d (next r s) = Step-Inv s (Run-Inv n d r)

no_task : (xs : List ℕ) → length xs ≡ 0 → xs ≡ []
no_task [] e = refl
no_task (x ∷ xs) e = absurd (omega arith)

empty_queue : (xs : List ℕ) → is_empty xs ≡ true → xs ≡ []
empty_queue [] e = refl
empty_queue (x ∷ xs) e = absurd (cc)

-- When `wait_drain` returns true, the finished tasks are the accepted ones, each as often.
pub drained-perm :
    (n d : ℕ) {p : WorkPool} → Run (init n d) p → drained p ≡ true → Perm p.accepted p.finished
unfolding drained
drained-perm n d {p} r e =
    let v = Run-Inv n d r in
    let queue_empty : p.queue ≡ [] = empty_queue p.queue (ground arith) in
    let idle : tasks_of p.workers ≡ [] = no_task _ (ground (arith, v.counted)) in
    subst (λ l. Perm l p.finished) (v.fifo)
      (rw (queue_empty, append-nil) (Perm.trans v.owned (rw (idle, append-nil) Perm.rfl)))
