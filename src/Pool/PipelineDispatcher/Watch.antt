-- ===== src/Pool/PipelineDispatcher/Watch.antt =====
-- `request_recycle` and `watchdog_loop_`, one access to a shared variable at a time.
use turbo_ocr.Common.{
  ℕ, suc, ◌+◌, true, not, ◌&&◌, Option, none, some, List, ◌∷◌, ltb, ◌==◌, if◌then◌else◌, get_elem?,
  set, pos, above, leb_ℤ,
}
use turbo_ocr.Pool.PipelineDispatcher.State.{
  Slot, Watchdog, asleep, awake, stopped, timed, scanning, saw_start, saw_request, flagged, killed,
  PipelineDispatcher, watchdog_grace_ms,
}

abbrev pub raise_flag : Option Slot → ℕ → List Slot → List Slot
raise_flag none i slots = slots
raise_flag (some s) i slots = set slots i (record s { recycle_flag = true })

unfoldable pub request_recycle : ℕ → PipelineDispatcher → PipelineDispatcher
request_recycle i p = record p {
  slots = if p.recycle_enabled then raise_flag (get_elem? p.slots i) i p.slots else p.slots;
}

-- `watchdog_loop_`, one access at a time. `none`: nothing to do, or the thread is over.
abbrev pub read_start : ℕ → ℕ → ℕ → Option Slot → Watchdog
read_start i now deadline none = asleep
read_start i now deadline (some s) =
    if s.task_start_ms == 0
    then scanning (suc i) now deadline
    else saw_start i now deadline s.task_start_ms

abbrev pub requested_at : Option Slot → ℕ
requested_at none = 0
requested_at (some s) = s.recycle_requested_at_ms

abbrev pub store_request : ℕ → ℕ → Option Slot → List Slot → List Slot
store_request i now none slots = slots
store_request i now (some s) slots = set slots i (record s { recycle_requested_at_ms = now })

-- The watchdog asks for a recycle of worker `i`.
abbrev pub ask : ℕ → ℕ → ℕ → ℕ → PipelineDispatcher → PipelineDispatcher
ask i now deadline started p = record (request_recycle i p) {
  watchdog = flagged i now deadline;
  requests =
      record { worker = i; made_at = now; started = started; allowed = deadline } ∷ p.requests;
}

abbrev pub go_on : ℕ → ℕ → ℕ → PipelineDispatcher → PipelineDispatcher
go_on i now deadline p = record p { watchdog = scanning (suc i) now deadline }

-- The two tests on what was read of worker `i`.
abbrev pub late_or_go_on : ℕ → ℕ → ℕ → ℕ → ℕ → PipelineDispatcher → PipelineDispatcher
late_or_go_on i now deadline started req_at p =
    if ltb (started + deadline) now && req_at == 0
    then ask i now deadline started p
    else go_on i now deadline p

abbrev pub judge : ℕ → ℕ → ℕ → ℕ → ℕ → PipelineDispatcher → PipelineDispatcher
judge i now deadline started req_at p =
    if not (req_at == 0) && ltb (req_at + p.hard_kill_ms) now
    then record p { watchdog = killed i now }
    else late_or_go_on i now deadline started req_at p

unfoldable pub watch : Watchdog → PipelineDispatcher → PipelineDispatcher
watch asleep p = record p { watchdog = if p.stop then stopped else awake }
watch awake p = record p {
  watchdog =
      if leb_ℤ p.request_timeout_ms (pos 0)
      then asleep
      else timed (above p.request_timeout_ms + watchdog_grace_ms);
}
watch stopped p = p
watch (timed deadline) p = record p { watchdog = scanning 0 p.clock deadline }
watch (scanning i now deadline) p = record p {
  watchdog = read_start i now deadline (get_elem? p.slots i);
}
watch (saw_start i now deadline started) p = record p {
  watchdog = saw_request i now deadline started (requested_at (get_elem? p.slots i));
}
watch (saw_request i now deadline started req_at) p = judge i now deadline started req_at p
watch (flagged i now deadline) p = record p {
  slots = store_request i now (get_elem? p.slots i) p.slots;
  watchdog = scanning (suc i) now deadline;
}
watch (killed i now) p = p
