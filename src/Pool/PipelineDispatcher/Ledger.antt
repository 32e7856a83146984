-- ===== src/Pool/PipelineDispatcher/Ledger.antt =====
-- The invariant of the books, under `submit`, a worker's critical section and the deadline test.
use mathlib.Core.List.{Perm, perm_append_singleton, perm_middle}
use mathlib.Core.List.Perm
use mathlib.Core.Option.{some-injective}
use turbo_ocr.Common.{
  ℕ, ◌+◌, ◌≤◌, ◌<◌, ◌≡◌, refl, sym, ap, subst, ◌∙◌, Bool, Option, some, List, [], ◌∷◌, ◌++◌,
  append_assoc, arith, leb, leb→gt, length, length-append, get_elem?, set, All, All-append,
  Bool-cases, inl, inr, ℤ,
}
use turbo_ocr.Pool.PipelineDispatcher.State.{
  QueuedWork, taken, marked, running, returned, waiting, exited, busy, GpuPipelineEntry, Slot,
  PipelineDispatcher, create_dispatcher, submit_with_deadline,
}
use turbo_ocr.Pool.PipelineDispatcher.Worker.{in_phase, fetch_work, is_due, check_deadline}
use turbo_ocr.Pool.PipelineDispatcher.Undecided.{
  undecided, all_undecided, set-undecided, set-undecided_same, new_slots-undecided, to_the_end,
  decide-Perm,
}

abbrev pub HasExpired : ℕ → QueuedWork → Type 0
HasExpired now w = (0 < w.deadline_ms) × (w.deadline_ms < now)

pub HasExpired-later :
    (works : List QueuedWork) (now ms : ℕ)
    → All (HasExpired now) works
    → All (HasExpired (now + ms)) works
HasExpired-later [] now ms h = tt
HasExpired-later (w ∷ works) now ms ((some_deadline, past), rest) =
    ((some_deadline, omega arith), HasExpired-later works now ms rest)

-- The books balance.
pub record Inv (p : PipelineDispatcher) : Type 0 where
  -- Tasks are fetched in the order in which they were accepted, each of them once.
  pub fifo : p.fetched ++ p.queue ≡ p.accepted
  -- A fetched task was run, was dropped, or is with a worker that has not decided.
  pub decided : Perm p.fetched (p.ran ++ (p.dropped ++ all_undecided p.slots))
  pub expired : All (HasExpired p.clock) p.dropped
  pub depth : p.max_queue_depth ≡ 4096
  pub bounded : length p.queue ≤ 4096

pub create_dispatcher-Inv :
    (entries : List GpuPipelineEntry) (enabled : Bool) (hard_kill : Option ℤ) (clock : ℕ)
    → Inv (create_dispatcher entries enabled hard_kill clock)
unfolding create_dispatcher
create_dispatcher-Inv entries enabled hard_kill clock = record {
  fifo = refl;
  decided = rw new_slots-undecided Perm.rfl;
  expired = tt;
  depth = refl;
  bounded = omega arith;
}

pub submit_work-Inv :
    (p : PipelineDispatcher) (deadline_ms fn : ℕ) {q : PipelineDispatcher}
    → submit_with_deadline deadline_ms fn p ≡ some q
    → Inv p
    → Inv q
unfolding submit_with_deadline
submit_work-Inv p deadline_ms fn e v =
    let work : QueuedWork = record { fn = fn; deadline_ms = deadline_ms } in
    elim (Bool-cases (leb p.max_queue_depth (length p.queue))) [
      | inl full ↦ let bad = rw full at e in absurd (cc)
      | inr room ↦ subst Inv (some-injective _ _ (rw room at e)) (record {
        fifo = sym (append_assoc p.fetched p.queue (work ∷ [])) ∙ ap (λ l. l ++ work ∷ []) v.fifo;
        decided = v.decided;
        expired = v.expired;
        depth = v.depth;
        bounded = omega (arith, length-append p.queue (work ∷ []), leb→gt _ _ room, v.depth);
      })
    ]

pub fetch_work-Inv :
    (works : List QueuedWork) (i : ℕ) (s : Slot) (p : PipelineDispatcher) {q : PipelineDispatcher}
    → p.queue ≡ works
    → get_elem? p.slots i ≡ some s
    → s.phase ≡ waiting
    → fetch_work works i s p ≡ some q
    → Inv p
    → Inv q
unfolding fetch_work
fetch_work-Inv [] i s p h there idle e v = elim (Bool-cases p.stop) [
  | inl over ↦ subst Inv (some-injective _ _ (rw over at e)) (record {
    fifo = v.fifo;
    decided =
        rw (set-undecided_same p.slots i (in_phase exited s) there (ap undecided (sym idle)))
          v.decided;
    expired = v.expired;
    depth = v.depth;
    bounded = v.bounded;
  })
  | inr going ↦ let bad = rw going at e in absurd (cc)
]
fetch_work-Inv (work ∷ rest) i s p h there idle e v =
    let taken_up =
      subst
        (λ f.
          Perm (work ∷ all_undecided p.slots)
            (undecided f ++ all_undecided (set p.slots i (in_phase (busy taken work) s))))
        idle (set-undecided p.slots i (in_phase (busy taken work) s) there) in
    subst Inv (some-injective _ _ e) (record {
      fifo = append_assoc p.fetched (work ∷ []) rest ∙ ap (◌++◌ p.fetched) (sym h) ∙ v.fifo;
      decided = Perm.trans (perm_append_singleton work p.fetched) (
          Perm.trans (Perm.cons work v.decided) (
            Perm.trans (to_the_end work p.ran p.dropped (all_undecided p.slots))
              (Perm.append_left p.ran (Perm.append_left p.dropped taken_up))));
      expired = v.expired;
      depth = v.depth;
      bounded = omega (arith, v.bounded, ap length h);
    })

pub check_deadline-Inv :
    (p : PipelineDispatcher) (i : ℕ) (s : Slot) (w : QueuedWork)
    → get_elem? p.slots i ≡ some s
    → s.phase ≡ busy marked w
    → Inv p
    → Inv (check_deadline i s w p)
unfolding check_deadline
check_deadline-Inv p i s w there phase v = elim (Bool-cases (is_due p.clock w)) [
  | inl due ↦
      let left = decide-Perm p.slots i s w (busy running w) there phase refl in
      let rest = all_undecided (set p.slots i (in_phase (busy running w) s)) in
      rw due (record {
        fifo = v.fifo;
        decided = subst (Perm p.fetched) (sym (append_assoc p.ran (w ∷ []) (p.dropped ++ rest))) (
            Perm.trans v.decided (
              Perm.append_left p.ran
                (Perm.trans (Perm.append_left p.dropped left) (perm_middle p.dropped rest))));
        expired = v.expired;
        depth = v.depth;
        bounded = v.bounded;
      })
  | inr late ↦
      let left = decide-Perm p.slots i s w (busy returned w) there phase refl in
      let rest = all_undecided (set p.slots i (in_phase (busy returned w) s)) in
      rw late (record {
        fifo = v.fifo;
        decided =
            subst (λ l. Perm p.fetched (p.ran ++ l)) (sym (append_assoc p.dropped (w ∷ []) rest))
              (Perm.trans v.decided (Perm.append_left p.ran (Perm.append_left p.dropped left)));
        expired =
            All-append (HasExpired p.clock) p.dropped (w ∷ []) v.expired
              ((ground (arith, late), ground (arith, late)), tt);
        depth = v.depth;
        bounded = v.bounded;
      })
]
