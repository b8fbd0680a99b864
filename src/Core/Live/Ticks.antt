-- ===== src/Core/Live/Ticks.antt =====
-- The timer's tick and yielding, scheduler_tick and sched_yield of core.c.
use cs356_project.Prelude.{subst, ℕ, ◌≡◌, ◌<◌, refl, arith, ◌∙◌, true, false}
use cs356_project.Kernel.Types.{SchedClass, wrr_class, State, done, finished, same_class}
use cs356_project.Kernel.External.{Kernel, ClassLaws, ListLaws, tick_op, yield_op, IdleLaw}
use cs356_project.Wrr.Class.{requeue_task_wrr, yield_task_wrr}
use cs356_project.Wrr.Invariant.Steady.{Steady, Frame-Steady}
use cs356_project.Loads.Cpu.{update_cpu_load_active}
use cs356_project.Core.Classes.{class_yield, update_rq_clock}
use cs356_project.Core.Frames.{Kept, Frame-Kept, update_rq_clock-Kept}
use cs356_project.Core.Sound.{is_wrr, queued, queued-kept, update_rq_clock-Steady}
use cs356_project.Core.Switch.{class_tick, scheduler_tick, sched_yield}
use cs356_project.Core.Live.State.{Live, Quiet-Live}
use cs356_project.Core.Live.Switches.{schedule_pass-Live}
use cs356_project.Core.Live.Charges.{requeue-Live, tick-Live, tick_done-Live}

pub curr-queued :
    (s : State) → Live s → is_wrr (s.task s.rq.curr) ≡ true → queued s.rq.curr s ≡ true
curr-queued s v w = ground (arith, v.sound.linked s.rq.curr, v.running w, w)

module _ (k : Kernel) (l : ListLaws k.lists) (laws : ClassLaws k) where
  -- The clock and the load averages, which a tick goes on with first.
  clocks-Steady : (s : State) → Steady s (update_cpu_load_active k (update_rq_clock k s))
  unfolding update_cpu_load_active
  clocks-Steady s =
      let f = update_rq_clock-Steady k l s in
      record { wrr_kept = f.wrr_kept; weight_kept = f.weight_kept }

  clocks-Kept : (s : State) → Kept s (update_cpu_load_active k (update_rq_clock k s))
  unfolding update_cpu_load_active
  clocks-Kept s =
      let g = update_rq_clock-Kept k s in
      record { curr_kept = g.curr_kept; idle_kept = g.idle_kept; fields_kept = g.fields_kept }

  clocks-slice :
      (p : ℕ) (s : State)
      → ((update_cpu_load_active k (update_rq_clock k s)).task p).wrr ≡ (s.task p).wrr
  unfolding update_rq_clock update_cpu_load_active
  clocks-slice p s = ground arith

  class_tick-Live :
      (c : SchedClass) (p : ℕ) (s : State)
      → (same_class c wrr_class ≡ true → (queued p s ≡ true) × (0 < (s.task p).wrr.time_slice))
      → Live s
      → (t : State) × (class_tick k c p s ≡ done t) × Live t
  unfolding class_tick
  class_tick-Live wrr_class p s h v = tick-Live k l p s (h refl).0 (h refl).1 v
  class_tick-Live c p s h v =
      let f = laws.op_Frame c tick_op p 0 s in
      (_, refl, Quiet-Live (Frame-Steady f) (Frame-Kept f) v)

  class_tick-done :
      (c : SchedClass) (p : ℕ) (s t : State)
      → (same_class c wrr_class ≡ true → queued p s ≡ true)
      → Live s
      → class_tick k c p s ≡ done t
      → Live t
  unfolding class_tick
  class_tick-done wrr_class p s t h v e = tick_done-Live k l p s t (h refl) v e
  class_tick-done c p s t h v e =
      let f = laws.op_Frame c tick_op p 0 s in
      subst Live (finished e) (Quiet-Live (Frame-Steady f) (Frame-Kept f) v)

  -- Also a tick of a task without slice left keeps the invariant, if the kernel survives it.
  pub scheduler_tick-done : (s t : State) → Live s → scheduler_tick k s ≡ done t → Live t
  unfolding scheduler_tick
  scheduler_tick-done s t v e =
      let s' = update_cpu_load_active k (update_rq_clock k s) in
      let p = s.rq.curr in
      let g = clocks-Kept s in
      let f = clocks-Steady s in
      class_tick-done (s'.task p).sched_class p s' t
        (λ w.
          let w' : is_wrr (s.task p) ≡ true = ground (arith, g.fields_kept p, w) in
          queued-kept f p ∙ curr-queued s v w')
        (Quiet-Live f g v) e

  -- A tick, of whatever task runs, does not stop the kernel and keeps the invariant, if the running
  -- task has slice left in case it is a WRR task.
  pub scheduler_tick-Live :
      (s : State)
      → (is_wrr (s.task s.rq.curr) ≡ true → 0 < (s.task s.rq.curr).wrr.time_slice)
      → Live s
      → (t : State) × (scheduler_tick k s ≡ done t) × Live t
  unfolding scheduler_tick
  scheduler_tick-Live s ready v =
      let s' = update_cpu_load_active k (update_rq_clock k s) in
      let p = s.rq.curr in
      let g = clocks-Kept s in
      let f = clocks-Steady s in
      class_tick-Live (s'.task p).sched_class p s'
        (λ w.
          let w' : is_wrr (s.task p) ≡ true = ground (arith, g.fields_kept p, w) in
          (queued-kept f p ∙ curr-queued s v w', rw (clocks-slice p s) (ready w')))
        (Quiet-Live f g v)

  class_yield-Live :
      (c : SchedClass) (s : State)
      → (same_class c wrr_class ≡ true → queued s.rq.curr s ≡ true)
      → Live s
      → Live (class_yield k c s)
  unfolding class_yield yield_task_wrr requeue_task_wrr
  class_yield-Live wrr_class s h v = requeue-Live k l s.rq.curr false s (h refl) v
  class_yield-Live c s h v =
      let f = laws.op_Frame c yield_op s.rq.curr 0 s in Quiet-Live (Frame-Steady f) (Frame-Kept f) v

  -- sched_yield, by a task of any class, never meets BUG() and keeps the invariant.
  pub sched_yield-Live :
      (idle : IdleLaw k) (s : State) → Live s → (t : State) × (sched_yield k s ≡ done t) × Live t
  unfolding sched_yield
  sched_yield-Live idle s v =
      schedule_pass-Live k l laws idle false _ (class_yield-Live _ s (λ w. curr-queued s v w) v)
