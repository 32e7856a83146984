-- ===== src/Pool/PipelineDispatcher/Worker.antt =====
-- The loop of a worker: its critical section, then one step for each access to an atomic variable.
-- What a task does to its pipeline and whether a rebuild succeeds is the environment's choice.
use turbo_ocr.Common.{
  ℕ, ◌≡◌, Bool, false, not, ◌&&◌, ◌||◌, Option, none, some, List, [], ◌∷◌, ◌++◌, leb, ◌==◌,
  if◌then◌else◌,
}
use turbo_ocr.Pool.PipelineDispatcher.State.{
  QueuedWork, LoopPoint, taken, rebuilding, prepared, cleared, marked, running, returned, unmarked,
  settled, Phase, waiting, exited, busy, Slot, PipelineDispatcher, replace,
}

abbrev pub in_phase : Phase → Slot → Slot
in_phase phase s = record s { phase = phase }

-- The critical section at the top of worker `i`'s loop, on what `queue_` holds. `none`: it goes on
-- waiting.
unfoldable pub fetch_work :
    List QueuedWork → ℕ → Slot → PipelineDispatcher → Option PipelineDispatcher
fetch_work [] i s p = if p.stop then some (replace i (in_phase exited s) p) else none
fetch_work (work ∷ rest) i s p = some (record (replace i (in_phase (busy taken work) s) p) {
  queue = rest;
  fetched = p.fetched ++ work ∷ [];
})

-- `flag->exchange(false)`
abbrev pub take_flag : QueuedWork → Slot → Slot
take_flag w s = record s {
  recycle_flag = false;
  phase = busy (if s.recycle_flag then rebuilding else prepared) w;
}

-- `maybe_recycle_`; `rebuilt` says whether a pipeline is there after it.
abbrev pub maybe_recycle : Bool → QueuedWork → Slot → Slot
maybe_recycle rebuilt w s = record s {
  entry = record { has_pipeline = rebuilt; recycle_requested = false };
  phase = busy prepared w;
}

abbrev pub clear_request : LoopPoint → QueuedWork → Slot → Slot
clear_request next_point w s = record s { recycle_requested_at_ms = 0; phase = busy next_point w }

abbrev pub store_start : ℕ → LoopPoint → QueuedWork → Slot → Slot
store_start ms next_point w s = record s { task_start_ms = ms; phase = busy next_point w }

-- Is the caller still there?
abbrev pub is_due : ℕ → QueuedWork → Bool
is_due now w = w.deadline_ms == 0 || leb now w.deadline_ms

-- The deadline test of worker `i`.
unfoldable pub check_deadline : ℕ → Slot → QueuedWork → PipelineDispatcher → PipelineDispatcher
check_deadline i s w p =
    if is_due p.clock w
    then record (replace i (in_phase (busy running w) s) p) { ran = p.ran ++ w ∷ [] }
    else record (replace i (in_phase (busy returned w) s) p) { dropped = p.dropped ++ w ∷ [] }

-- `work.fn` is done; `fault` says whether the pipeline asked to be rebuilt.
abbrev pub finish : Bool → QueuedWork → Slot → Slot
finish fault w s = record s {
  entry = record s.entry {
    recycle_requested = s.entry.recycle_requested || (fault && s.entry.has_pipeline);
  };
  phase = busy returned w;
}

-- The end of a round: a request of the pipeline itself sets the flag, all other requests are cancelled.
abbrev pub settle : Bool → Slot → Slot
settle enabled s =
    let asked = enabled && s.entry.has_pipeline in
    record s {
      recycle_flag = asked && s.entry.recycle_requested;
      entry = record s.entry { recycle_requested = not asked && s.entry.recycle_requested };
      phase = waiting;
    }

-- What a worker does with its own slot.
pub data Move (enabled : Bool) (now : ℕ) (s : Slot) : Slot → Type 0 where
  exchanges : (w : QueuedWork) → s.phase ≡ busy taken w → Move enabled now s (take_flag w s)
  rebuilds :
      (rebuilt : Bool) (w : QueuedWork)
      → s.phase ≡ busy rebuilding w
      → Move enabled now s (maybe_recycle rebuilt w s)
  clears :
      (w : QueuedWork) → s.phase ≡ busy prepared w → Move enabled now s (clear_request cleared w s)
  marks :
      (w : QueuedWork) → s.phase ≡ busy cleared w → Move enabled now s (store_start now marked w s)
  finishes :
      (fault : Bool) (w : QueuedWork)
      → s.phase ≡ busy running w
      → Move enabled now s (finish fault w s)
  unmarks :
      (w : QueuedWork) → s.phase ≡ busy returned w → Move enabled now s (store_start 0 unmarked w s)
  clears_again :
      (w : QueuedWork) → s.phase ≡ busy unmarked w → Move enabled now s (clear_request settled w s)
  settles : (w : QueuedWork) → s.phase ≡ busy settled w → Move enabled now s (settle enabled s)
