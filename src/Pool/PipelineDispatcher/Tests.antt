-- ===== src/Pool/PipelineDispatcher/Tests.antt =====
-- Histories of a dispatcher with one worker, and the theorems about it at these histories.
use turbo_ocr.Common.{ℕ, ◌+◌, ◌<◌, ◌≤◌, refl, true, false, none, some, [], ◌∷◌, pos}
use turbo_ocr.Pool.PipelineDispatcher.State.{
  QueuedWork, busy, running, returned, GpuPipelineEntry, Slot, Request, asleep, killed,
  PipelineDispatcher, hard_kill_from, create_dispatcher, submit_with_deadline,
}
use turbo_ocr.Pool.PipelineDispatcher.Worker.{
  fetch_work, check_deadline, exchanges, clears, marks, finishes, unmarks, clears_again, settles,
}
use turbo_ocr.Pool.PipelineDispatcher.Watch.{request_recycle, watch}
use turbo_ocr.Pool.PipelineDispatcher.Steps.{
  set_request_timeout_ms, submits, fetches, checks, moves, watches, sets_timeout, ticks, Run, here,
  next,
}
use turbo_ocr.Pool.PipelineDispatcher.Ledger.{Inv}
use turbo_ocr.Pool.PipelineDispatcher.Books.{Run-Books}
use turbo_ocr.Pool.PipelineDispatcher.Requests.{Asked}
use turbo_ocr.Pool.PipelineDispatcher.HardKill.{InForce, Run-killed}

abbrev healthy : GpuPipelineEntry
healthy = record { has_pipeline = true; recycle_requested = false }

abbrev work : QueuedWork
work = record { fn = 7; deadline_ms = 0 }

abbrev stuck_slot : Slot
stuck_slot = record {
  phase = busy running work;
  recycle_flag = false;
  task_start_ms = 1;
  recycle_requested_at_ms = 5001;
  entry = healthy;
}

abbrev the_request : Request
the_request = record { worker = 0; made_at = 5001; started = 1; allowed = 2100 }

-- The dispatcher was built without a spec, so no recycle is possible; the watchdog ends the process.
abbrev wedged : PipelineDispatcher
wedged = record {
  queue = [];
  stop = false;
  max_queue_depth = 4096;
  request_timeout_ms = pos 100;
  recycle_enabled = false;
  hard_kill_ms = 10;
  clock = 5021;
  slots = stuck_slot ∷ [];
  watchdog = killed 0 5021;
  accepted = work ∷ [];
  fetched = work ∷ [];
  ran = work ∷ [];
  dropped = [];
  requests = the_request ∷ [];
}

wedged-Run : Run (create_dispatcher (healthy ∷ []) false (some (pos 10)) 1) wedged
unfolding create_dispatcher submit_with_deadline fetch_work check_deadline watch request_recycle
    set_request_timeout_ms
wedged-Run =
    let started =
      next
        (next
          (next
            (next
              (next (next (next here refl (sets_timeout (pos 100))) refl (submits 0 7 refl)) refl
                (fetches 0 _ refl refl refl))
              refl (moves 0 _ refl (exchanges work refl)))
            refl (moves 0 _ refl (clears work refl)))
          refl (moves 0 _ refl (marks work refl)))
        refl (checks 0 _ work refl refl) in
    let asked =
      next
        (next
          (next
            (next
              (next
                (next
                  (next (next (next (next started refl (ticks 5000)) refl watches) refl watches)
                    refl watches)
                  refl watches)
                refl watches)
              refl watches)
            refl watches)
          refl watches)
        refl (ticks 20) in
    next
      (next (next (next (next (next asked refl watches) refl watches) refl watches) refl watches)
        refl watches)
      refl watches

Run-killed_example :
    (5021 ≤ wedged.clock)
    × ((t : ℕ) × Asked (InForce wedged-Run) wedged.requests 0 t
        × (t + hard_kill_from (some (pos 10)) < 5021))
Run-killed_example = Run-killed (healthy ∷ []) false (some (pos 10)) 1 0 5021 wedged-Run refl

abbrev second : QueuedWork
second = record { fn = 8; deadline_ms = 0 }

-- The request was for the first task, which ended while the watchdog was at it. The second task, 20 ms
-- old, has its time, and the watchdog ends the process over it.
abbrev fresh_task_killed : PipelineDispatcher
fresh_task_killed = record {
  queue = [];
  stop = false;
  max_queue_depth = 4096;
  request_timeout_ms = pos 100;
  recycle_enabled = true;
  hard_kill_ms = 10;
  clock = 5026;
  slots =
      record {
        phase = busy running second;
        recycle_flag = true;
        task_start_ms = 5006;
        recycle_requested_at_ms = 5001;
        entry = healthy;
      }
      ∷ [];
  watchdog = killed 0 5026;
  accepted = work ∷ second ∷ [];
  fetched = work ∷ second ∷ [];
  ran = work ∷ second ∷ [];
  dropped = [];
  requests = the_request ∷ [];
}

fresh_task_killed-Run :
    Run (create_dispatcher (healthy ∷ []) true (some (pos 10)) 1) fresh_task_killed
unfolding create_dispatcher submit_with_deadline fetch_work check_deadline watch request_recycle
    set_request_timeout_ms
fresh_task_killed-Run =
    let first =
      next
        (next
          (next
            (next
              (next
                (next (next (next here refl (sets_timeout (pos 100))) refl (submits 0 7 refl)) refl
                  (submits 0 8 refl))
                refl (fetches 0 _ refl refl refl))
              refl (moves 0 _ refl (exchanges work refl)))
            refl (moves 0 _ refl (clears work refl)))
          refl (moves 0 _ refl (marks work refl)))
        refl (checks 0 _ work refl refl) in
    let seen =
      next
        (next
          (next (next (next (next first refl (ticks 5000)) refl watches) refl watches) refl watches)
          refl watches)
        refl watches in
    let ended =
      next
        (next
          (next (next seen refl (moves 0 _ refl (finishes false work refl))) refl
            (moves 0 _ refl (unmarks work refl)))
          refl (moves 0 _ refl (clears_again work refl)))
        refl (moves 0 _ refl (settles work refl)) in
    let begun =
      next
        (next
          (next
            (next
              (next (next ended refl (fetches 0 _ refl refl refl)) refl
                (moves 0 _ refl (exchanges second refl)))
              refl (moves 0 _ refl (clears second refl)))
            refl (ticks 5))
          refl (moves 0 _ refl (marks second refl)))
        refl (checks 0 _ second refl refl) in
    let asked =
      next (next (next (next begun refl watches) refl watches) refl watches) refl (ticks 20) in
    next
      (next (next (next (next (next asked refl watches) refl watches) refl watches) refl watches)
        refl watches)
      refl watches

abbrev hasty : QueuedWork
hasty = record { fn = 9; deadline_ms = 3 }

-- A task whose caller has gone is dropped.
abbrev dropping : PipelineDispatcher
dropping = record {
  queue = [];
  stop = false;
  max_queue_depth = 4096;
  request_timeout_ms = pos 0;
  recycle_enabled = true;
  hard_kill_ms = 600000;
  clock = 5;
  slots =
      record {
        phase = busy returned hasty;
        recycle_flag = false;
        task_start_ms = 5;
        recycle_requested_at_ms = 0;
        entry = healthy;
      }
      ∷ [];
  watchdog = asleep;
  accepted = hasty ∷ [];
  fetched = hasty ∷ [];
  ran = [];
  dropped = hasty ∷ [];
  requests = [];
}

dropping-Run : Run (create_dispatcher (healthy ∷ []) true none 1) dropping
unfolding create_dispatcher submit_with_deadline fetch_work check_deadline
dropping-Run =
    next
      (next
        (next
          (next
            (next (next (next here refl (submits 3 9 refl)) refl (ticks 4)) refl
              (fetches 0 _ refl refl refl))
            refl (moves 0 _ refl (exchanges hasty refl)))
          refl (moves 0 _ refl (clears hasty refl)))
        refl (moves 0 _ refl (marks hasty refl)))
      refl (checks 0 _ hasty refl refl)

Run-Books_example : Inv dropping
Run-Books_example = Run-Books (healthy ∷ []) true none 1 dropping-Run
