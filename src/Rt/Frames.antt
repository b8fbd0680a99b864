-- ===== src/Rt/Frames.antt =====
-- The real-time class keeps the law that this development asks of the classes other than WRR: its
-- operations leave WRR's run queue, the running task, and all of the tasks but their statistics and
-- their need_resched flags alone.
pub mod Table
use cs356_project.Prelude.{
  ℕ, ◌≡◌, refl, arith, ◌∙◌, Bool, not, true, false, List, [], ◌∷◌, Option, some, none, ◌==◌, sub32,
  pos, ltb_ℤ, ltb, leb, if◌then◌else◌,
}
use cs356_project.Kernel.RealTime.{RealTime}
use cs356_project.Kernel.Types.{Rq, State, SchedEntity, set_task, set_rq}
use cs356_project.Kernel.External.{
  Kernel, ClassOp, Frame, enqueue_op, dequeue_op, yield_op, check_preempt_op, put_prev_op,
  set_curr_op, tick_op, switched_to_op, prio_changed_op,
}
use cs356_project.Wrr.Queue.{inc_nr_running, dec_nr_running}
use cs356_project.Wrr.Class.{set_tsk_need_resched}
use cs356_project.Core.Classes.{resched_task}
use cs356_project.Rt.Memory.{
  ancestors, start_rt_bandwidth, set_rt_entity, rt_rq_throttled, sched_rt_runtime, sched_rt_period,
  runtime_inf,
}
use cs356_project.Rt.Array.{
  inc_rt_prio, dec_rt_prio, inc_rt_group, dec_rt_group, inc_rt_tasks, dec_rt_tasks, start_of,
}
use cs356_project.Rt.Entity.{
  unlink, link, enqueue_rt_entity_one, dequeue_rt_entity_one, dequeue_each, enqueue_each,
  enqueue_groups, requeue_rt_entity, requeue_each, dequeue_rt_stack, enqueue_rt_entity,
  dequeue_rt_entity, enqueue_if_off, dequeue_if_on, entity_of_queue, sched_rt_rq_enqueue,
  sched_rt_rq_dequeue,
}
use cs356_project.Rt.Time.{
  bandwidth_of, overrun, sched_rt_runtime_exceeded, charge_rt, charge_each, update_curr_rt,
}
use cs356_project.Rt.Class.{
  others_wait, rr_timeslice, check_preempt_curr_rt, set_curr_task_rt, switched_to_rt,
  prio_changed_rt, watchdog, enqueue_task_rt, dequeue_task_rt, requeue_task_rt, yield_task_rt,
  put_prev_task_rt, count_rr, task_tick_rt, rt_op,
}

pub Frame-refl : (s : State) → Frame s s
Frame-refl s = record { wrr_kept = refl; curr_kept = refl; idle_kept = refl; task_kept = λ p. refl }

pub Frame-trans : {s t u : State} → Frame s t → Frame t u → Frame s u
Frame-trans f g = record {
  wrr_kept = g.wrr_kept ∙ f.wrr_kept;
  curr_kept = g.curr_kept ∙ f.curr_kept;
  idle_kept = g.idle_kept ∙ f.idle_kept;
  task_kept = λ p. ground (arith, f.task_kept p, g.task_kept p);
}

pub if-Frame : (b : Bool) {s t u : State} → Frame s t → Frame s u → Frame s (if b then t else u)
if-Frame true f g = f
if-Frame false f g = g

-- Writes of the class's own memory.
pub memory-Frame : (m : RealTime) (s : State) → Frame s (record s { rt = m })
memory-Frame m s = record {
  wrr_kept = refl;
  curr_kept = refl;
  idle_kept = refl;
  task_kept = λ p. refl;
}

pub task-Frame :
    (p : ℕ) (e : SchedEntity) (b : Bool) (s : State)
    → Frame s (set_task p (record (s.task p) { se = e; need_resched = b }) s)
task-Frame p e b s = record {
  wrr_kept = refl;
  curr_kept = refl;
  idle_kept = refl;
  task_kept = λ q. ground arith;
}

pub rq-Frame :
    (r : Rq) (s : State)
    → r.wrr ≡ s.rq.wrr
    → r.curr ≡ s.rq.curr
    → r.idle ≡ s.rq.idle
    → Frame s (set_rq r s)
rq-Frame r s w c i = record { wrr_kept = w; curr_kept = c; idle_kept = i; task_kept = λ q. refl }

pub resched-Frame : (p : ℕ) (s : State) → Frame s (resched_task p s)
unfolding resched_task set_tsk_need_resched
resched-Frame p s = task-Frame p _ _ s

inc_rt_prio-Frame : (r prio : ℕ) (s : State) → Frame s (inc_rt_prio r prio s)
unfolding inc_rt_prio
inc_rt_prio-Frame r prio s = if-Frame _ (memory-Frame _ s) (Frame-refl s)

-- The same of a result and a state.
pub record FrameWith (s : State) (r : Bool × State) : Type 0 where
  pub frame : Frame s r.1

pub unchanged_frame : (b : Bool) (s : State) → FrameWith s (b, s)
unchanged_frame b s = record { frame = Frame-refl s }

pub if-FrameWith :
    (b : Bool) {s : State} {x y : Bool × State}
    → FrameWith s x
    → FrameWith s y
    → FrameWith s (if b then x else y)
if-FrameWith true f g = f
if-FrameWith false f g = g

module _ (k : Kernel) where
  dec_rt_prio-Frame : (r prio : ℕ) (s : State) → Frame s (dec_rt_prio k r prio s)
  unfolding dec_rt_prio
  dec_rt_prio-Frame r prio s =
      let x = s.rt.rt_rq r in
      if-Frame (x.rt_nr_running == 0) (memory-Frame _ s)
        (if-Frame (prio == x.highest_prio) (memory-Frame _ s) (Frame-refl s))

  start-Frame : (o : Option ℕ) (s : State) → Frame s (start_of k o s)
  unfolding start_rt_bandwidth
  start-Frame none s = Frame-refl s
  start-Frame (some g) s = if-Frame _ (Frame-refl s) (if-Frame _ (Frame-refl s) (memory-Frame _ s))

  inc_rt_group-Frame : (e r : ℕ) (s : State) → Frame s (inc_rt_group k e r s)
  unfolding inc_rt_group
  inc_rt_group-Frame e r s =
      Frame-trans (if-Frame _ (memory-Frame _ s) (Frame-refl s)) (start-Frame _ _)

  dec_rt_group-Frame : (e r : ℕ) (s : State) → Frame s (dec_rt_group k e r s)
  unfolding dec_rt_group
  dec_rt_group-Frame e r s = if-Frame _ (memory-Frame _ s) (Frame-refl s)

  inc_rt_tasks-Frame : (e r : ℕ) (s : State) → Frame s (inc_rt_tasks k e r s)
  unfolding inc_rt_tasks
  inc_rt_tasks-Frame e r s =
      Frame-trans (memory-Frame _ s)
        (Frame-trans (inc_rt_prio-Frame r _ _) (inc_rt_group-Frame e r _))

  dec_rt_tasks-Frame : (e r : ℕ) (s : State) → Frame s (dec_rt_tasks k e r s)
  unfolding dec_rt_tasks
  dec_rt_tasks-Frame e r s =
      Frame-trans (memory-Frame _ s)
        (Frame-trans (dec_rt_prio-Frame r _ _) (dec_rt_group-Frame e r _))

  unlink-Frame : (e : ℕ) (s : State) → Frame s (unlink k e s)
  unfolding unlink
  unlink-Frame e s = memory-Frame _ s

  link-Frame : (r prio e : ℕ) (head : Bool) (s : State) → Frame s (link k r prio e head s)
  unfolding link
  link-Frame r prio e head s = memory-Frame _ s

  enqueue_one-Frame : (e : ℕ) (head : Bool) (s : State) → Frame s (enqueue_rt_entity_one k e head s)
  unfolding enqueue_rt_entity_one
  enqueue_one-Frame e head s = if-Frame _ (Frame-refl s) (
      Frame-trans (link-Frame _ _ e head s)
        (Frame-trans (memory-Frame _ _) (inc_rt_tasks-Frame e _ _)))

  dequeue_one-Frame : (e : ℕ) (s : State) → Frame s (dequeue_rt_entity_one k e s)
  unfolding dequeue_rt_entity_one
  dequeue_one-Frame e s =
      Frame-trans (unlink-Frame e s)
        (Frame-trans (if-Frame _ (memory-Frame _ _) (Frame-refl _)) (dec_rt_tasks-Frame e _ _))

  pub dequeue_each-Frame : (es : List ℕ) (s : State) → Frame s (dequeue_each k es s)
  unfolding dequeue_each
  dequeue_each-Frame [] s = Frame-refl s
  dequeue_each-Frame (e ∷ es) s =
      Frame-trans (if-Frame _ (dequeue_one-Frame e s) (Frame-refl s)) (dequeue_each-Frame es _)

  pub enqueue_each-Frame :
      (es : List ℕ) (head : Bool) (s : State) → Frame s (enqueue_each k es head s)
  unfolding enqueue_each
  enqueue_each-Frame [] head s = Frame-refl s
  enqueue_each-Frame (e ∷ es) head s =
      Frame-trans (enqueue_one-Frame e head s) (enqueue_each-Frame es head _)

  pub enqueue_groups-Frame : (es : List ℕ) (s : State) → Frame s (enqueue_groups k es s)
  unfolding enqueue_groups
  enqueue_groups-Frame [] s = Frame-refl s
  enqueue_groups-Frame (e ∷ es) s =
      Frame-trans (if-Frame _ (enqueue_one-Frame e false s) (Frame-refl s))
        (enqueue_groups-Frame es _)

  pub requeue_each-Frame :
      (es : List ℕ) (head : Bool) (s : State) → Frame s (requeue_each k es head s)
  unfolding requeue_each requeue_rt_entity
  requeue_each-Frame [] head s = Frame-refl s
  requeue_each-Frame (e ∷ es) head s =
      Frame-trans
        (if-Frame _ (Frame-trans (unlink-Frame e s) (link-Frame _ _ e head _)) (Frame-refl s))
        (requeue_each-Frame es head _)

  pub watchdog-Frame : (p : ℕ) (s : State) → Frame s (watchdog k p s)
  unfolding watchdog
  watchdog-Frame p s = if-Frame _ (Frame-refl s) (memory-Frame _ s)
