-- ===== src/Pool/Tests.antt =====
-- Histories of the two pools, and the theorems about them at these histories.
use native.Mathlib.Nat.{ℕ_set}
use mathlib.Core.List.{Perm, Nodup, Pairwise, not-mem-nil, mem-singleton}
use turbo_ocr.Common.{ℕ, ◌≡◌, refl, true, false, List, [], ◌∷◌, none, some, arith}
use turbo_ocr.Pool.WorkPool
use turbo_ocr.Pool.WorkPool.Invariant.{Inv, Run-Inv, drained-perm}
use turbo_ocr.Pool.WorkPool.Spec.{ServiceRun, idle}
use turbo_ocr.Pool.WorkPool.Refinement.{service_of, Run-ServiceRun}
use turbo_ocr.Pool.PipelinePool
use turbo_ocr.Pool.PipelinePool.Ownership.{owned, Run-Nodup}

-- One worker takes a task, a second task waits, the destructor runs, and the worker ends the first.
abbrev busy_pool : WorkPool.WorkPool
busy_pool = record {
  queue = 8 ∷ [];
  stop = true;
  inflight = 0;
  max_depth = 4;
  workers = WorkPool.waiting ∷ [];
  accepted = 7 ∷ 8 ∷ [];
  started = 7 ∷ [];
  finished = 7 ∷ [];
}

busy-Run : WorkPool.Run (WorkPool.init 1 4) busy_pool
unfolding WorkPool.init WorkPool.submit WorkPool.fetch_from WorkPool.complete WorkPool.shut_down
busy-Run =
    WorkPool.next
      (WorkPool.next
        (WorkPool.next
          (WorkPool.next (WorkPool.next WorkPool.here (WorkPool.submits 7 refl))
            (WorkPool.submits 8 refl))
          (WorkPool.fetches 0 refl refl))
        WorkPool.shuts_down)
      (WorkPool.completes 0 7 refl)

Run-ServiceRun_example : ServiceRun 1 4 idle (service_of busy_pool)
Run-ServiceRun_example = Run-ServiceRun 1 4 busy-Run

Run-Inv_example : Inv busy_pool
Run-Inv_example = Run-Inv 1 4 busy-Run

abbrev idle_pool : WorkPool.WorkPool
idle_pool = record {
  queue = [];
  stop = false;
  inflight = 0;
  max_depth = 4;
  workers = WorkPool.waiting ∷ [];
  accepted = 7 ∷ [];
  started = 7 ∷ [];
  finished = 7 ∷ [];
}

idle-Run : WorkPool.Run (WorkPool.init 1 4) idle_pool
unfolding WorkPool.init WorkPool.submit WorkPool.fetch_from WorkPool.complete
idle-Run =
    WorkPool.next
      (WorkPool.next (WorkPool.next WorkPool.here (WorkPool.submits 7 refl))
        (WorkPool.fetches 0 refl refl))
      (WorkPool.completes 0 7 refl)

idle_drained : WorkPool.drained idle_pool ≡ true
unfolding WorkPool.drained
idle_drained = refl

drained-perm_example : Perm idle_pool.accepted idle_pool.finished
drained-perm_example = drained-perm 1 4 idle-Run idle_drained

-- Handle 0 is assigned from handle 1, its pipeline goes back, and then its handle dies.
abbrev two_pipelines : PipelinePool.PipelinePool
two_pipelines = record { pool = 5 ∷ 6 ∷ []; handles = [] }

abbrev both_back : PipelinePool.PipelinePool
both_back = record { pool = 5 ∷ 6 ∷ []; handles = none ∷ none ∷ [] }

two_pipelines_created : PipelinePool.create (5 ∷ 6 ∷ []) ≡ some two_pipelines
unfolding PipelinePool.create
two_pipelines_created = refl

handle-Run : PipelinePool.Run two_pipelines both_back
unfolding PipelinePool.acquire_from PipelinePool.move_assign PipelinePool.destroy
    PipelinePool.release PipelinePool.release_if_held
handle-Run =
    PipelinePool.next
      (PipelinePool.next
        (PipelinePool.next (PipelinePool.next PipelinePool.here (PipelinePool.acquires refl))
          (PipelinePool.acquires refl))
        (PipelinePool.assigns 0 1 refl))
      (PipelinePool.destroys 0)

abbrev five_six : List ℕ
five_six = 5 ∷ 6 ∷ []

five_six-Nodup : Nodup five_six
five_six-Nodup =
    Pairwise.cons (λ a m e. let h : a ≡ 6 = (mem-singleton ℕ_set).0 m in absurd (omega arith))
      (Pairwise.cons (λ a m e. absurd (not-mem-nil m)) Pairwise.nil)

Run-Nodup_example : Perm (owned both_back) five_six × Nodup (owned both_back)
Run-Nodup_example = Run-Nodup five_six two_pipelines_created five_six-Nodup handle-Run
