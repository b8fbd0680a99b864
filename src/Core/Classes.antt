-- ===== src/Core/Classes.antt =====
-- The calls through a task's class: core.c (update_rq_clock, enqueue_task, dequeue_task,
-- activate_task, deactivate_task, check_class_changed, check_preempt_curr, resched_task), and the
-- order of the classes, by the fields `next` of their tables.
use cs356_project.Prelude.{
  pos_part, ℕ, ◌+◌, ◌/◌, ◌%◌, Bool, true, false, not, ◌&&◌, List, [], ◌∷◌, ℤ, pos, ltb_ℤ, eqb_ℤ,
  add32, sub32, add64, sub64, ◌==◌, if◌then◌else◌,
}
use cs356_project.Kernel.Types.{
  SchedClass, stop_class, rt_class, wrr_class, fair_class, idle_class, same_class, Task, State,
  set_rq, Rq,
}
use cs356_project.Kernel.External.{
  Kernel, enqueue_op, dequeue_op, yield_op, check_preempt_op, put_prev_op, set_curr_op, fork_op,
  switched_from_op, switched_to_op, prio_changed_op,
}
use cs356_project.Wrr.Class.{
  enqueue_task_wrr, dequeue_task_wrr, set_curr_task_wrr, put_prev_task_wrr, yield_task_wrr,
  set_tsk_need_resched,
}

-- The classes from the highest down.
abbrev pub class_order : List SchedClass
class_order = stop_class ∷ rt_class ∷ wrr_class ∷ fair_class ∷ idle_class ∷ []

unfoldable pub resched_task : ℕ → State → State
resched_task p s = set_tsk_need_resched p s

-- The loop of check_preempt_curr: is the new task's class met before the running task's?
abbrev pub class_above : List SchedClass → SchedClass → SchedClass → Bool
class_above [] c running = false
class_above (x ∷ xs) c running =
    let later = class_above xs c running in
    if same_class x running then false else if same_class x c then true else later

-- (task->state & TASK_UNINTERRUPTIBLE) != 0 and not frozen; the mask is one bit.
abbrev pub task_contributes_to_load : Task → Bool
task_contributes_to_load t = t.state / 2 % 2 == 1 && not t.frozen

-- Interrupt and steal time are not accounted for, so all of the time is the task's.
abbrev update_rq_clock_task : ℕ → Rq → Rq
update_rq_clock_task delta r = record r { clock_task = add64 r.clock_task delta }

module _ (k : Kernel) where
  unfoldable pub update_rq_clock : State → State
  update_rq_clock s =
      let r = s.rq in
      let delta = sub64 (k.sched_clock s.readings) r.clock in
      if ltb_ℤ (pos 0) r.skip_clock_update then s else record s {
        rq = update_rq_clock_task delta (record r { clock = add64 r.clock delta });
        readings = s.readings + 1;
      }

  unfoldable pub class_enqueue : SchedClass → ℕ → ℕ → State → State
  class_enqueue wrr_class p flags s = enqueue_task_wrr k p flags s
  class_enqueue c p flags s = k.class_op c enqueue_op p flags s

  unfoldable pub class_dequeue : SchedClass → ℕ → ℕ → State → State
  class_dequeue wrr_class p flags s = dequeue_task_wrr k p s
  class_dequeue c p flags s = k.class_op c dequeue_op p flags s

  unfoldable pub class_put_prev : SchedClass → ℕ → State → State
  class_put_prev wrr_class p s = put_prev_task_wrr s
  class_put_prev c p s = k.class_op c put_prev_op p 0 s

  unfoldable pub class_set_curr : SchedClass → State → State
  class_set_curr wrr_class s = set_curr_task_wrr s
  class_set_curr c s = k.class_op c set_curr_op s.rq.curr 0 s

  unfoldable pub class_yield : SchedClass → State → State
  class_yield wrr_class s = yield_task_wrr k s
  class_yield c s = k.class_op c yield_op s.rq.curr 0 s

  -- check_preempt_curr_wrr, switched_to_wrr and prio_changed_wrr do nothing; there is no
  -- switched_from and no task_fork in the table of WRR on one processor.
  unfoldable pub class_check_preempt : SchedClass → ℕ → ℕ → State → State
  class_check_preempt wrr_class p flags s = s
  class_check_preempt c p flags s = k.class_op c check_preempt_op p flags s

  unfoldable pub class_switched_from : SchedClass → ℕ → State → State
  class_switched_from wrr_class p s = s
  class_switched_from c p s = k.class_op c switched_from_op p 0 s

  unfoldable pub class_switched_to : SchedClass → ℕ → State → State
  class_switched_to wrr_class p s = s
  class_switched_to c p s = k.class_op c switched_to_op p 0 s

  unfoldable pub class_prio_changed : SchedClass → ℕ → ℤ → State → State
  class_prio_changed wrr_class p oldprio s = s
  class_prio_changed c p oldprio s = k.class_op c prio_changed_op p (pos_part oldprio) s

  unfoldable pub class_fork : SchedClass → ℕ → State → State
  class_fork wrr_class p s = s
  class_fork c p s = k.class_op c fork_op p 0 s

  unfoldable pub enqueue_task : ℕ → ℕ → State → State
  enqueue_task p flags s =
      let s' = update_rq_clock s in class_enqueue (s'.task p).sched_class p flags s'

  unfoldable pub dequeue_task : ℕ → ℕ → State → State
  dequeue_task p flags s =
      let s' = update_rq_clock s in class_dequeue (s'.task p).sched_class p flags s'

  unfoldable pub activate_task : ℕ → ℕ → State → State
  activate_task p flags s =
      let n = sub32 s.rq.nr_uninterruptible 1 in
      enqueue_task p flags (
        if task_contributes_to_load (s.task p)
        then set_rq (record s.rq { nr_uninterruptible = n }) s
        else s)

  unfoldable pub deactivate_task : ℕ → ℕ → State → State
  deactivate_task p flags s =
      let n = add32 s.rq.nr_uninterruptible 1 in
      dequeue_task p flags (
        if task_contributes_to_load (s.task p)
        then set_rq (record s.rq { nr_uninterruptible = n }) s
        else s)

  unfoldable pub check_class_changed : ℕ → SchedClass → ℤ → State → State
  check_class_changed p prev oldprio s =
      let c = (s.task p).sched_class in
      if not (same_class prev c)
      then class_switched_to c p (class_switched_from prev p s)
      else if not (eqb_ℤ oldprio (s.task p).prio)
      then class_prio_changed c p oldprio s
      else s

  -- The choice between the class's own rule and the order of the classes.
  unfoldable pub preempt_by_class : ℕ → ℕ → State → State
  preempt_by_class p flags s =
      let c = (s.task p).sched_class in
      let running = (s.task s.rq.curr).sched_class in
      if same_class c running
      then class_check_preempt running p flags s
      else if class_above class_order c running
      then resched_task s.rq.curr s
      else s

  unfoldable pub check_preempt_curr : ℕ → ℕ → State → State
  check_preempt_curr p flags s =
      let s' = preempt_by_class p flags s in
      let curr = s'.task s'.rq.curr in
      if curr.on_rq && curr.need_resched
      then set_rq (record s'.rq { skip_clock_update = pos 1 }) s'
      else s'
