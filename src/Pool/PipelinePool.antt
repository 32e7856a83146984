-- ===== src/Pool/PipelinePool.antt =====
-- include/turbo_ocr/pipeline/pool/pipeline_pool.h: a pool of pipelines and its RAII handles.
-- Pipelines are named by numbers. A handle object is a slot: `some p` while it holds pipeline `p`,
-- `none` once it was moved from or destroyed. Each critical section is one operation; the time that
-- a thread waits in `cv_.wait_for` is the environment's, so `acquire` states what it does at its end.
pub mod Ownership
use turbo_ocr.Common.{
  ℕ, ◌≡◌, Bool, true, false, Option, none, some, List, [], ◌∷◌, ◌++◌, ◌==◌, if◌then◌else◌,
  get_elem?, set, is_empty,
}

pub record PipelinePool : Type 0 where
  pub pool : List ℕ
  pub handles : List (Option ℕ)

-- `none` is the std::invalid_argument of a pool with no pipeline.
unfoldable pub create : List ℕ → Option PipelinePool
create pipelines =
    if is_empty pipelines then none else some (record { pool = pipelines; handles = [] })

-- `acquire` and `try_acquire_for`: the front pipeline goes to a new handle. `none` is the
-- PoolExhaustedError, or the `nullopt`, of a wait in which no pipeline came free.
unfoldable pub acquire_from : List ℕ → PipelinePool → Option PipelinePool
acquire_from [] s = none
acquire_from (p ∷ rest) s = some (record { pool = rest; handles = s.handles ++ some p ∷ [] })

abbrev pub acquire : PipelinePool → Option PipelinePool
acquire s = acquire_from s.pool s

unfoldable pub release : ℕ → PipelinePool → PipelinePool
release p s = record s { pool = s.pool ++ p ∷ [] }

-- `if (pipeline_ && pool_) pool_->release(pipeline_);`
unfoldable pub release_if_held : Option ℕ → PipelinePool → PipelinePool
unfolding release
release_if_held none s = s
release_if_held (some p) s = release p s

abbrev pub held_by : PipelinePool → ℕ → Option ℕ
held_by s i = elim (get_elem? s.handles i) [ none ↦ none | some slot ↦ slot ]

abbrev pub put : ℕ → Option ℕ → PipelinePool → PipelinePool
put i slot s = record s { handles = set s.handles i slot }

-- ~ScopedHandle.
unfoldable pub destroy : ℕ → PipelinePool → PipelinePool
unfolding release_if_held
destroy i s = put i none (release_if_held (held_by s i) s)

-- ScopedHandle(ScopedHandle &&): a new handle takes over, and the old one is emptied.
unfoldable pub move_construct : ℕ → PipelinePool → PipelinePool
move_construct j s = record s { handles = set s.handles j none ++ held_by s j ∷ [] }

-- operator=(ScopedHandle &&) of handle `i` from handle `j`.
unfoldable pub move_assign : ℕ → ℕ → PipelinePool → PipelinePool
unfolding release_if_held
move_assign i j s =
    if i == j then s else put j none (put i (held_by s j) (release_if_held (held_by s i) s))

-- One operation of one thread. A handle that is assigned to exists.
pub data Step (s : PipelinePool) : PipelinePool → Type 0 where
  acquires : {t : PipelinePool} → acquire s ≡ some t → Step s t
  destroys : (i : ℕ) → Step s (destroy i s)
  moves : (j : ℕ) → Step s (move_construct j s)
  assigns :
      (i j : ℕ) {old : Option ℕ} → get_elem? s.handles i ≡ some old → Step s (move_assign i j s)

pub data Run (s : PipelinePool) : PipelinePool → Type 0 where
  here : Run s s
  next : {t u : PipelinePool} → Run s t → Step t u → Run s u
