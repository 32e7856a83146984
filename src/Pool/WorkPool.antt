-- ===== src/Pool/WorkPool.antt =====
-- include/turbo_ocr/server/work_pool.h: a bounded queue of tasks and the workers that run them.
-- Each critical section under `mutex_` is one step; what a task does outside it is a state of its
-- worker. Tasks are named by numbers. The lists `accepted`, `started` and `finished` are a record of
-- the run, which no operation reads.
pub mod Invariant
pub mod Spec
pub mod Refinement
use turbo_ocr.Common.{
  ℕ, suc, ◌+◌, ◌-◌, ◌≡◌, Bool, true, false, ◌&&◌, Option, none, some, List, [], ◌∷◌, ◌++◌, leb,
  ◌==◌, if◌then◌else◌, length, get_elem?, set, is_empty, replicate,
}

pub data Worker : Type 0 where
  waiting exited : Worker
  running : ℕ → Worker

pub record WorkPool : Type 0 where
  pub queue : List ℕ
  pub stop : Bool
  pub inflight : ℕ
  pub max_depth : ℕ
  pub workers : List Worker
  pub accepted : List ℕ
  pub started : List ℕ
  pub finished : List ℕ

unfoldable pub init : ℕ → ℕ → WorkPool
init num_threads max_depth = record {
  queue = [];
  stop = false;
  inflight = 0;
  max_depth = max_depth;
  workers = replicate num_threads waiting;
  accepted = [];
  started = [];
  finished = [];
}

-- `none` is the PoolExhaustedError.
unfoldable pub submit : ℕ → WorkPool → Option WorkPool
submit task p =
    if leb p.max_depth (length p.queue)
    then none
    else some (record p { queue = p.queue ++ task ∷ []; accepted = p.accepted ++ task ∷ [] })

-- The critical section at the top of worker `i`'s loop, on what `queue_` holds. `none`: the predicate
-- `stop_ || !queue_.empty()` is false and the worker goes on waiting.
unfoldable pub fetch_from : List ℕ → ℕ → WorkPool → Option WorkPool
fetch_from [] i p = if p.stop then some (record p { workers = set p.workers i exited }) else none
fetch_from (task ∷ rest) i p = some (record p {
  queue = rest;
  inflight = suc p.inflight;
  workers = set p.workers i (running task);
  started = p.started ++ task ∷ [];
})

abbrev pub fetch : ℕ → WorkPool → Option WorkPool
fetch i p = fetch_from p.queue i p

-- ~InflightGuard, which runs whether the task returns or throws.
unfoldable pub complete : ℕ → ℕ → WorkPool → WorkPool
complete i task p = record p {
  inflight = p.inflight - 1;
  workers = set p.workers i waiting;
  finished = p.finished ++ task ∷ [];
}

-- The destructor's critical section.
unfoldable pub shut_down : WorkPool → WorkPool
shut_down p = record p { stop = true }

-- The predicate of `wait_drain`.
unfoldable pub drained : WorkPool → Bool
drained p = is_empty p.queue && p.inflight == 0

-- One critical section of one thread.
pub data Step (p : WorkPool) : WorkPool → Type 0 where
  submits : {q : WorkPool} (task : ℕ) → submit task p ≡ some q → Step p q
  fetches :
      {q : WorkPool} (i : ℕ) → get_elem? p.workers i ≡ some waiting → fetch i p ≡ some q → Step p q
  completes :
      (i task : ℕ) → get_elem? p.workers i ≡ some (running task) → Step p (complete i task p)
  shuts_down : Step p (shut_down p)

-- Any interleaving of the threads.
pub data Run (p : WorkPool) : WorkPool → Type 0 where
  here : Run p p
  next : {q r : WorkPool} → Run p q → Step q r → Run p r
