-- ===== src/Pool/PipelineDispatcher/Steps.antt =====
-- The dispatcher as a whole: any interleaving of clients, workers and the watchdog.
use turbo_ocr.Common.{ℕ, ◌+◌, ◌≡◌, Bool, true, false, some, get_elem?, ℤ}
use turbo_ocr.Pool.PipelineDispatcher.State.{
  QueuedWork, marked, waiting, busy, Slot, Watchdog, killed, PipelineDispatcher,
  submit_with_deadline, replace,
}
use turbo_ocr.Pool.PipelineDispatcher.Worker.{fetch_work, check_deadline, Move}
use turbo_ocr.Pool.PipelineDispatcher.Watch.{request_recycle, watch}

-- The destructor's critical section.
unfoldable pub stop_dispatcher : PipelineDispatcher → PipelineDispatcher
stop_dispatcher p = record p { stop = true }

unfoldable pub set_request_timeout_ms : ℤ → PipelineDispatcher → PipelineDispatcher
set_request_timeout_ms ms p = record p { request_timeout_ms = ms }

-- One step of one thread, or of the clock.
pub data Step (p : PipelineDispatcher) : PipelineDispatcher → Type 0 where
  submits :
      {q : PipelineDispatcher} (deadline_ms fn : ℕ)
      → submit_with_deadline deadline_ms fn p ≡ some q
      → Step p q
  fetches :
      {q : PipelineDispatcher} (i : ℕ) (s : Slot)
      → get_elem? p.slots i ≡ some s
      → s.phase ≡ waiting
      → fetch_work p.queue i s p ≡ some q
      → Step p q
  checks :
      (i : ℕ) (s : Slot) (w : QueuedWork)
      → get_elem? p.slots i ≡ some s
      → s.phase ≡ busy marked w
      → Step p (check_deadline i s w p)
  moves :
      (i : ℕ) (s : Slot) {s' : Slot}
      → get_elem? p.slots i ≡ some s
      → Move p.recycle_enabled p.clock s s'
      → Step p (replace i s' p)
  watches : Step p (watch p.watchdog p)
  requests_recycle : (i : ℕ) → Step p (request_recycle i p)
  sets_timeout : (ms : ℤ) → Step p (set_request_timeout_ms ms p)
  shuts_down : Step p (stop_dispatcher p)
  ticks : (ms : ℕ) → Step p (record p { clock = p.clock + ms })

-- `_Exit` by the watchdog ends the process.
abbrev pub is_killed : Watchdog → Bool
is_killed (killed i now) = true
is_killed _ = false

-- Any interleaving of the threads.
pub data Run (p : PipelineDispatcher) : PipelineDispatcher → Type 0 where
  here : Run p p
  next : {q r : PipelineDispatcher} → Run p q → is_killed q.watchdog ≡ false → Step q r → Run p r
