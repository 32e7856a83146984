-- ===== src/Pool/WorkPool/Spec.antt =====
-- What a work pool promises: a bounded queue in front of a number of servers, without the workers,
-- the lock and the bookkeeping.
use mathlib.Core.List.{Perm}
use turbo_ocr.Common.{ℕ, ◌≡◌, ◌<◌, List, [], ◌∷◌, ◌++◌, length}

-- `active` is a bag: a step names its order up to a permutation.
pub record Service : Type 0 where
  pub pending : List ℕ
  pub active : List ℕ
  pub done : List ℕ

abbrev pub idle : Service
idle = record { pending = []; active = []; done = [] }

-- A service of `servers` with room for `room` pending tasks.
pub data Serves (servers room : ℕ) (s : Service) : Service → Type 0 where
  accepts :
      (task : ℕ)
      → length s.pending < room
      → Serves servers room s (record s { pending = s.pending ++ task ∷ [] })
  starts :
      {task : ℕ} {rest active : List ℕ}
      → s.pending ≡ task ∷ rest
      → length s.active < servers
      → Perm active (task ∷ s.active)
      → Serves servers room s (record s { pending = rest; active = active })
  finishes :
      {task : ℕ} {active : List ℕ}
      → Perm s.active (task ∷ active)
      → Serves servers room s (record s { active = active; done = s.done ++ task ∷ [] })

pub data ServiceRun (servers room : ℕ) : Service → Service → Type 0 where
  begins : {s : Service} → ServiceRun servers room s s
  goes_on :
      {s t u : Service}
      → ServiceRun servers room s t
      → Serves servers room t u
      → ServiceRun servers room s u
