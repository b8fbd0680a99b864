-- ===== src/Wrr/Behaviour/Entity.antt =====
-- Enqueueing, dequeueing and accounting in wrr.c.
use cs356_project.Prelude.{
  ℕ, ◌+◌, ◌-◌, ◌<◌, ◌≡◌, arith, ap, sym, ◌∙◌, Bool, true, false, u32, ==_refl, List, [], ◌∷◌, elem,
  remove, remove_absent, remove-append, length,
}
use mathlib.Core.List.{append-nil}
use cs356_project.Kernel.Types.{WrrRq, Rq, State, wrr_class}
use cs356_project.Kernel.External.{Kernel, ListLaws}
use cs356_project.Wrr.Weight.{update_weight}
use cs356_project.Wrr.Queue.{
  update_curr_wrr, exec_delta, enqueue_wrr_entity, dequeue_wrr_entity, requeue_wrr_entity,
  inc_wrr_tasks, dec_wrr_tasks, inc_nr_running, dec_nr_running, refill,
}
use cs356_project.Wrr.Class.{enqueue_task_wrr, dequeue_task_wrr, wants_head}
use cs356_project.Wrr.Invariant.{Inv, total}
use cs356_project.Wrr.Invariant.Keeps.{Only, Only-trans, update_weight-Only, refill-Only}
use cs356_project.Wrr.Invariant.Steady.{Steady, update_curr_wrr-Steady, total-agree}
use cs356_project.Wrr.Invariant.Operations.{enqueue_task_wrr-Inv, dequeue_task_wrr-Inv}
use cs356_project.Core.Sound.{enqueue_task_wrr-joined}

-- Two well-formed run queues with the same tasks and the same sum of weights are equal.
Inv-unique :
    (s t : State)
    → Inv s
    → Inv t
    → t.rq.wrr.active ≡ s.rq.wrr.active
    → total t.task s.rq.wrr.active ≡ total s.task s.rq.wrr.active
    → t.rq.wrr ≡ s.rq.wrr
Inv-unique s t v w e h =
    let c = w.counted ∙ ap (λ q. u32 (length q)) e ∙ sym v.counted in
    let m = w.weighed ∙ ap (λ q. u32 (total t.task q)) e ∙ ap u32 h ∙ sym v.weighed in
    ground (arith, c, m)

module _ (k : Kernel) (l : ListLaws k.lists) where
  requeue-removed :
      (p : ℕ) (head : Bool) (s : State)
      → remove p (requeue_wrr_entity k p head s).rq.wrr.active ≡ remove p (remove p s.rq.wrr.active)
  unfolding requeue_wrr_entity
  requeue-removed p true s = rw (l.move_lem p s.rq.wrr.active, ==_refl p)
  requeue-removed p false s =
      let r = remove p s.rq.wrr.active in
      rw (l.move_tail_lem p s.rq.wrr.active, remove-append p r (p ∷ []), ==_refl p)
        (append-nil (remove p r))

  dequeue-active :
      (p : ℕ) (s : State) → (dequeue_task_wrr k p s).rq.wrr.active ≡ remove p s.rq.wrr.active
  unfolding dequeue_task_wrr dequeue_wrr_entity dec_wrr_tasks dec_nr_running
  dequeue-active p s =
      l.del_init_lem p _
      ∙ ap (λ (w : WrrRq). remove p w.active) (Steady.wrr_kept (update_curr_wrr-Steady s))

  enqueue-removed :
      (p flags : ℕ) (s : State)
      → elem p s.rq.wrr.active ≡ false
      → remove p (enqueue_task_wrr k p flags s).rq.wrr.active ≡ s.rq.wrr.active
  unfolding enqueue_task_wrr enqueue_wrr_entity inc_wrr_tasks inc_nr_running
  enqueue-removed p flags s h =
      let q = s.rq.wrr.active in
      let f = Only-trans (update_weight-Only k p s) (refill-Only k p (update_weight k p s)) in
      requeue-removed p (wants_head flags) (refill k p (update_weight k p s))
      ∙ ap (λ (r : Rq). remove p (remove p r.wrr.active)) f.rq_kept
      ∙ ap (remove p) (remove_absent p q h)
      ∙ remove_absent p q h

  enqueue-total :
      (p flags : ℕ) (s : State) (q : List ℕ)
      → elem p q ≡ false
      → total (enqueue_task_wrr k p flags s).task q ≡ total s.task q
  unfolding enqueue_task_wrr enqueue_wrr_entity inc_wrr_tasks inc_nr_running requeue_wrr_entity
  enqueue-total p flags s q h =
      Only.total_kept
        (Only-trans (update_weight-Only k p s) (refill-Only k p (update_weight k p s))) q h

  dequeue-total :
      (p : ℕ) (s : State) (q : List ℕ) → total (dequeue_task_wrr k p s).task q ≡ total s.task q
  unfolding dequeue_task_wrr dequeue_wrr_entity dec_wrr_tasks dec_nr_running
  dequeue-total p s q =
      total-agree s.task (update_curr_wrr s).task (Steady.weight_kept (update_curr_wrr-Steady s)) q

  running-kept :
      (p flags : ℕ) (s : State)
      → s.rq.nr_running < 4294967296
      → (dequeue_task_wrr k p (enqueue_task_wrr k p flags s)).rq.nr_running ≡ s.rq.nr_running
  unfolding dequeue_task_wrr dequeue_wrr_entity dec_wrr_tasks dec_nr_running enqueue_task_wrr
      enqueue_wrr_entity inc_wrr_tasks inc_nr_running requeue_wrr_entity update_curr_wrr
  running-kept p flags s h =
      let f = Only-trans (update_weight-Only k p s) (refill-Only k p (update_weight k p s)) in
      let e = ap (λ (r : Rq). r.nr_running) f.rq_kept in ground (arith, e)

  -- A task that is not queued is enqueued, at either end, and dequeued again: the order of the
  -- queue, its counters and the number of running tasks are what they were, although the task may
  -- have got another weight in between.
  pub dequeue-enqueue :
      (p flags : ℕ) (s : State)
      → elem p s.rq.wrr.active ≡ false
      → Inv s
      → s.rq.nr_running < 4294967296
      → ((dequeue_task_wrr k p (enqueue_task_wrr k p flags s)).rq.wrr ≡ s.rq.wrr)
        × ((dequeue_task_wrr k p (enqueue_task_wrr k p flags s)).rq.nr_running ≡ s.rq.nr_running)
  dequeue-enqueue p flags s h v n =
      let t = enqueue_task_wrr k p flags s in
      let u = dequeue_task_wrr k p t in
      let q = s.rq.wrr.active in
      let m : elem p t.rq.wrr.active ≡ true =
        enqueue_task_wrr-joined k l p flags s p ∙ ground (arith, ==_refl p) in
      let w = dequeue_task_wrr-Inv k l p t m (enqueue_task_wrr-Inv k l p flags s h v) in
      (
        Inv-unique s u v w (dequeue-active p t ∙ enqueue-removed p flags s h)
            (dequeue-total p t q ∙ enqueue-total p flags s q h),
        running-kept p flags s n,
      )

-- The account of the running task, if it is a WRR task: it is charged the time from its start to
-- the present clock, nothing if the clock went back, and its start is moved to the clock. Below
-- 2 ^ 63 nanoseconds nothing wraps.
pub update_curr_wrr_lem :
    (s : State)
    → (s.task s.rq.curr).sched_class ≡ wrr_class
    → s.rq.clock_task < 9223372036854775808
    → (s.task s.rq.curr).se.exec_start < 9223372036854775808
    → (s.task s.rq.curr).se.sum_exec_runtime < 9223372036854775808
    → (((update_curr_wrr s).task s.rq.curr).se.sum_exec_runtime
        ≡ (s.task s.rq.curr).se.sum_exec_runtime
          + (s.rq.clock_task - (s.task s.rq.curr).se.exec_start))
      × (((update_curr_wrr s).task s.rq.curr).se.exec_start ≡ s.rq.clock_task)
unfolding update_curr_wrr exec_delta
update_curr_wrr_lem s c h i j = (ground arith, ground arith)
