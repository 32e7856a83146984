-- ===== src/Pool/PipelineDispatcher/Books.antt =====
-- What becomes of the tasks, in every interleaving.
use mathlib.Core.List.{Perm}
use turbo_ocr.Common.{
  ℕ, ◌+◌, ◌≡◌, refl, sym, subst, Bool, true, false, not, ◌&&◌, ltb, ◌==◌, if◌then◌else◌, Option,
  List, ◌++◌, get_elem?, set, ℤ,
}
use turbo_ocr.Pool.PipelineDispatcher.State.{
  GpuPipelineEntry, Slot, Request, Watchdog, asleep, awake, stopped, timed, scanning, saw_start,
  saw_request, flagged, killed, PipelineDispatcher, create_dispatcher,
}
use turbo_ocr.Pool.PipelineDispatcher.Watch.{
  request_recycle, store_request, judge, ask, go_on, late_or_go_on, watch,
}
use turbo_ocr.Pool.PipelineDispatcher.Steps.{
  stop_dispatcher, set_request_timeout_ms, Step, submits, fetches, checks, moves, watches,
  requests_recycle, sets_timeout, shuts_down, ticks, Run, here, next,
}
use turbo_ocr.Pool.PipelineDispatcher.Undecided.{
  all_undecided, Move-undecided, set-undecided_same, store_request-undecided, recycle-undecided,
}
use turbo_ocr.Pool.PipelineDispatcher.Ledger.{
  HasExpired-later, Inv, create_dispatcher-Inv, submit_work-Inv, fetch_work-Inv, check_deadline-Inv,
}

-- A step that leaves every worker's task alone.
with_slots-Inv :
    (p : PipelineDispatcher) (slots : List Slot) (watchdog : Watchdog) (requests : List Request)
    → all_undecided slots ≡ all_undecided p.slots
    → Inv p
    → Inv (record p { slots = slots; watchdog = watchdog; requests = requests })
with_slots-Inv p slots watchdog requests same v = record {
  fifo = v.fifo;
  decided = subst (λ l. Perm p.fetched (p.ran ++ (p.dropped ++ l))) (sym same) v.decided;
  expired = v.expired;
  depth = v.depth;
  bounded = v.bounded;
}

judge-Inv :
    (i now deadline started req_at : ℕ) (p : PipelineDispatcher)
    → Inv p
    → Inv (judge i now deadline started req_at p)
unfolding request_recycle
judge-Inv i now deadline started req_at p v =
    elim (not (req_at == 0) && ltb (req_at + p.hard_kill_ms) now)
      as (λ b. Inv (
        if b
        then record p { watchdog = killed i now }
        else late_or_go_on i now deadline started req_at p)) [
          | true ↦ with_slots-Inv p p.slots (killed i now) p.requests refl v
          | false ↦
              elim (ltb (started + deadline) now && req_at == 0)
                as (λ b. Inv (if b then ask i now deadline started p else go_on i now deadline p)) [
                  | true ↦
                      with_slots-Inv p (request_recycle i p).slots _ _ (recycle-undecided p i) v
                  | false ↦ with_slots-Inv p p.slots _ p.requests refl v
                ]
        ]

watch-Inv : (w : Watchdog) (p : PipelineDispatcher) → Inv p → Inv (watch w p)
unfolding watch
watch-Inv asleep p v = with_slots-Inv p p.slots _ p.requests refl v
watch-Inv awake p v = with_slots-Inv p p.slots _ p.requests refl v
watch-Inv stopped p v = v
watch-Inv (timed deadline) p v = with_slots-Inv p p.slots _ p.requests refl v
watch-Inv (scanning i now deadline) p v = with_slots-Inv p p.slots _ p.requests refl v
watch-Inv (saw_start i now deadline started) p v = with_slots-Inv p p.slots _ p.requests refl v
watch-Inv (saw_request i now deadline started req_at) p v =
    judge-Inv i now deadline started req_at p v
watch-Inv (flagged i now deadline) p v =
    with_slots-Inv p (store_request i now (get_elem? p.slots i) p.slots) _ p.requests
      (store_request-undecided (get_elem? p.slots i) i now p.slots refl) v
watch-Inv (killed i now) p v = v

Step-Inv : {p q : PipelineDispatcher} → Step p q → Inv p → Inv q
unfolding stop_dispatcher set_request_timeout_ms request_recycle
Step-Inv {p} (submits deadline_ms fn e) v = submit_work-Inv p deadline_ms fn e v
Step-Inv {p} (fetches i s there idle e) v = fetch_work-Inv p.queue i s p refl there idle e v
Step-Inv {p} (checks i s w there phase) v = check_deadline-Inv p i s w there phase v
Step-Inv {p} (moves i s {s'} there m) v =
    with_slots-Inv p (set p.slots i s') p.watchdog p.requests
      (set-undecided_same p.slots i s' there (Move-undecided m)) v
Step-Inv {p} watches v = watch-Inv p.watchdog p v
Step-Inv {p} (requests_recycle i) v =
    with_slots-Inv p (request_recycle i p).slots p.watchdog p.requests (recycle-undecided p i) v
Step-Inv (sets_timeout ms) v = record {
  fifo = v.fifo;
  decided = v.decided;
  expired = v.expired;
  depth = v.depth;
  bounded = v.bounded;
}
Step-Inv shuts_down v = record {
  fifo = v.fifo;
  decided = v.decided;
  expired = v.expired;
  depth = v.depth;
  bounded = v.bounded;
}
Step-Inv {p} (ticks ms) v = record {
  fifo = v.fifo;
  decided = v.decided;
  expired = HasExpired-later p.dropped p.clock ms v.expired;
  depth = v.depth;
  bounded = v.bounded;
}

-- In every interleaving of clients, workers, the watchdog and the destructor: tasks are fetched in the
-- order in which they were accepted, each once; a fetched task was run, was dropped, or is with one
-- worker that has not come to its deadline test; a dropped task had a deadline, and it is past; at most
-- 4096 tasks wait.
pub Run-Books :
    (entries : List GpuPipelineEntry) (enabled : Bool) (hard_kill : Option ℤ) (clock : ℕ)
    {p : PipelineDispatcher}
    → Run (create_dispatcher entries enabled hard_kill clock) p
    → Inv p
Run-Books entries enabled hard_kill clock here =
    create_dispatcher-Inv entries enabled hard_kill clock
Run-Books entries enabled hard_kill clock (next r alive s) =
    Step-Inv s (Run-Books entries enabled hard_kill clock r)
