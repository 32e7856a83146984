-- ===== src/Pool/PipelineDispatcher/State.antt =====
-- The dispatcher's state, its constructor and `submit_work`. Tasks are named by numbers. The lists
-- `accepted`, `fetched`, `ran`, `dropped` and `requests` are a record of the run, which no operation
-- reads.
use turbo_ocr.Common.{
  ℕ, ◌+◌, Bool, false, Option, none, some, List, [], ◌∷◌, ◌++◌, leb, if◌then◌else◌, length, set,
  map, ℤ, pos, above, leb_ℤ,
}

-- `fn`, by its number, and the time in ms from which nobody waits for it (0: none).
pub record QueuedWork : Type 0 where
  pub fn : ℕ
  pub deadline_ms : ℕ

-- Where in the loop a worker is with its task.
pub data LoopPoint : Type 0 where
  taken rebuilding prepared cleared marked running returned unmarked settled : LoopPoint

pub data Phase : Type 0 where
  waiting exited : Phase
  busy : LoopPoint → QueuedWork → Phase

-- `pipeline != nullptr`, and the pipeline's own request to be rebuilt.
pub record GpuPipelineEntry : Type 0 where
  pub has_pipeline : Bool
  pub recycle_requested : Bool

-- A worker with its flag and its two times, 0 for none.
pub record Slot : Type 0 where
  pub phase : Phase
  pub recycle_flag : Bool
  pub task_start_ms : ℕ
  pub recycle_requested_at_ms : ℕ
  pub entry : GpuPipelineEntry

-- A recycle that the watchdog asked for: of which worker, when, for a task started when, and after how
-- long a time.
pub record Request : Type 0 where
  pub worker : ℕ
  pub made_at : ℕ
  pub started : ℕ
  pub allowed : ℕ

-- Where in its loop the watchdog is. `now` is when its scan began and `deadline` the time it allows.
pub data Watchdog : Type 0 where
  asleep awake stopped : Watchdog
  timed : (deadline : ℕ) → Watchdog
  scanning : (i now deadline : ℕ) → Watchdog
  saw_start : (i now deadline started : ℕ) → Watchdog
  saw_request : (i now deadline started req_at : ℕ) → Watchdog
  flagged : (i now deadline : ℕ) → Watchdog
  killed : (i now : ℕ) → Watchdog

pub record PipelineDispatcher : Type 0 where
  pub queue : List QueuedWork
  pub stop : Bool
  pub max_queue_depth : ℕ
  pub request_timeout_ms : ℤ
  pub recycle_enabled : Bool
  pub hard_kill_ms : ℕ
  pub clock : ℕ
  pub slots : List Slot
  pub watchdog : Watchdog
  pub accepted : List QueuedWork
  pub fetched : List QueuedWork
  pub ran : List QueuedWork
  pub dropped : List QueuedWork
  pub requests : List Request

-- PIPELINE_HARD_KILL_MS as `atoll` reads it, or none.
abbrev pub hard_kill_from : Option ℤ → ℕ
hard_kill_from none = 600000
hard_kill_from (some v) = if leb_ℤ v (pos 0) then 600000 else above v

abbrev pub watchdog_grace_ms : ℕ
watchdog_grace_ms = 2000

abbrev pub new_slot : GpuPipelineEntry → Slot
new_slot e = record {
  phase = waiting;
  recycle_flag = false;
  task_start_ms = 0;
  recycle_requested_at_ms = 0;
  entry = e;
}

-- The constructor. `recycle_enabled` says whether the spec names a detection model.
unfoldable pub create_dispatcher : List GpuPipelineEntry → Bool → Option ℤ → ℕ → PipelineDispatcher
create_dispatcher entries recycle_enabled hard_kill clock = record {
  queue = [];
  stop = false;
  max_queue_depth = 4096;
  request_timeout_ms = pos 0;
  recycle_enabled = recycle_enabled;
  hard_kill_ms = hard_kill_from hard_kill;
  clock = clock;
  slots = map new_slot entries;
  watchdog = asleep;
  accepted = [];
  fetched = [];
  ran = [];
  dropped = [];
  requests = [];
}

-- `none` is the PoolExhaustedError.
unfoldable pub submit_with_deadline : ℕ → ℕ → PipelineDispatcher → Option PipelineDispatcher
submit_with_deadline deadline_ms fn p =
    let work : QueuedWork = record { fn = fn; deadline_ms = deadline_ms } in
    if leb p.max_queue_depth (length p.queue)
    then none
    else some (record p { queue = p.queue ++ work ∷ []; accepted = p.accepted ++ work ∷ [] })

abbrev pub submit_work : ℕ → PipelineDispatcher → Option PipelineDispatcher
submit_work fn p = submit_with_deadline 0 fn p

-- `submit_for` up to its wait.
unfoldable pub submit_for : ℤ → ℕ → PipelineDispatcher → Option PipelineDispatcher
submit_for timeout_ms fn p =
    submit_with_deadline (if leb_ℤ timeout_ms (pos 0) then 0 else p.clock + above timeout_ms) fn p

unfoldable pub submit_for_default : ℕ → PipelineDispatcher → Option PipelineDispatcher
submit_for_default fn p =
    if leb_ℤ p.request_timeout_ms (pos 0)
    then submit_work fn p
    else submit_for p.request_timeout_ms fn p

abbrev pub replace : ℕ → Slot → PipelineDispatcher → PipelineDispatcher
replace i s p = record p { slots = set p.slots i s }
