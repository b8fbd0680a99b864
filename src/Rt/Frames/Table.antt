-- ===== src/Rt/Frames/Table.antt =====
-- What the operations of rt.c's table leave alone: entities with their ancestors, times and the
-- choice of the next task.
use cs356_project.Prelude.{
  ℕ, refl, Bool, not, true, false, List, [], ◌∷◌, Option, some, none, ◌==◌, sub32, pos, ltb_ℤ, ltb,
  leb,
}
use cs356_project.Kernel.Types.{State}
use cs356_project.Kernel.External.{
  Kernel, ClassOp, Frame, enqueue_op, dequeue_op, yield_op, check_preempt_op, put_prev_op,
  set_curr_op, tick_op, switched_to_op, prio_changed_op,
}
use cs356_project.Wrr.Queue.{inc_nr_running, dec_nr_running}
use cs356_project.Wrr.Class.{set_tsk_need_resched}
use cs356_project.Core.Classes.{resched_task}
use cs356_project.Rt.Memory.{
  ancestors, set_rt_entity, rt_rq_throttled, sched_rt_runtime, sched_rt_period, runtime_inf,
}
use cs356_project.Rt.Entity.{
  dequeue_rt_stack, enqueue_rt_entity, dequeue_rt_entity, enqueue_if_off, dequeue_if_on,
  entity_of_queue, sched_rt_rq_enqueue, sched_rt_rq_dequeue,
}
use cs356_project.Rt.Time.{
  bandwidth_of, overrun, sched_rt_runtime_exceeded, charge_rt, charge_each, update_curr_rt,
}
use cs356_project.Rt.Class.{
  others_wait, rr_timeslice, check_preempt_curr_rt, set_curr_task_rt, switched_to_rt,
  prio_changed_rt, enqueue_task_rt, dequeue_task_rt, requeue_task_rt, yield_task_rt,
  put_prev_task_rt, count_rr, task_tick_rt, rt_op,
}
use cs356_project.Rt.Frames.{
  Frame-refl, Frame-trans, FrameWith, dequeue_each-Frame, enqueue_each-Frame, enqueue_groups-Frame,
  if-Frame, if-FrameWith, memory-Frame, requeue_each-Frame, resched-Frame, rq-Frame, task-Frame,
  unchanged_frame, watchdog-Frame,
}

module _ (k : Kernel) (depth : ℕ) where
  stack-Frame : (e : ℕ) (s : State) → Frame s (dequeue_rt_stack k depth e s)
  unfolding dequeue_rt_stack
  stack-Frame e s = dequeue_each-Frame k _ s

  enqueue_entity-Frame :
      (e : ℕ) (head : Bool) (s : State) → Frame s (enqueue_rt_entity k depth e head s)
  unfolding enqueue_rt_entity
  enqueue_entity-Frame e head s = Frame-trans (stack-Frame e s) (enqueue_each-Frame k _ head _)

  dequeue_entity-Frame : (e : ℕ) (s : State) → Frame s (dequeue_rt_entity k depth e s)
  unfolding dequeue_rt_entity
  dequeue_entity-Frame e s = Frame-trans (stack-Frame e s) (enqueue_groups-Frame k _ _)

  dequeue_if-Frame : (o : Option ℕ) (s : State) → Frame s (dequeue_if_on k depth o s)
  dequeue_if-Frame none s = Frame-refl s
  dequeue_if-Frame (some e) s = if-Frame _ (dequeue_entity-Frame e s) (Frame-refl s)

  rq_dequeue-Frame : (r : ℕ) (s : State) → Frame s (sched_rt_rq_dequeue k depth r s)
  unfolding sched_rt_rq_dequeue
  rq_dequeue-Frame r s = dequeue_if-Frame _ s

  enqueue_if-Frame : (o : Option ℕ) (s : State) → Frame s (enqueue_if_off k depth o s)
  enqueue_if-Frame none s = Frame-refl s
  enqueue_if-Frame (some e) s = if-Frame _ (enqueue_entity-Frame e false s) (Frame-refl s)

  rq_enqueue-Frame : (r : ℕ) (s : State) → Frame s (sched_rt_rq_enqueue k depth r s)
  unfolding sched_rt_rq_enqueue
  rq_enqueue-Frame r s =
      let f = enqueue_if-Frame (entity_of_queue k depth r s) s in
      if-Frame _ (Frame-refl s) (if-Frame _ (Frame-trans f (resched-Frame _ _)) f)

  overrun-Frame : (r : ℕ) (s : State) → Frame s (overrun r s)
  unfolding overrun
  overrun-Frame r s =
      if-Frame (not (bandwidth_of (s.rt.rt_rq r).tg s == 0)) (memory-Frame _ s) (memory-Frame _ s)

  exceeded-Frame : (r : ℕ) (s : State) → FrameWith s (sched_rt_runtime_exceeded k depth r s)
  unfolding sched_rt_runtime_exceeded
  exceeded-Frame r s =
      let x = s.rt.rt_rq r in
      let runtime = sched_rt_runtime x in
      let s' = overrun r s in
      let f = overrun-Frame r s in
      if-FrameWith x.rt_throttled (unchanged_frame (rt_rq_throttled x) s) (
        if-FrameWith (leb (sched_rt_period x s) runtime) (unchanged_frame false s) (
          if-FrameWith (runtime == runtime_inf) (unchanged_frame false s) (
            if-FrameWith (not (ltb runtime x.rt_time)) (unchanged_frame false s) (
              if-FrameWith (rt_rq_throttled (s'.rt.rt_rq r))
                {x = (true, sched_rt_rq_dequeue k depth r s')} {y = (false, s')}
                (record { frame = Frame-trans f (rq_dequeue-Frame r s') })
                (record { frame = f })))))

  charge-Frame : (r delta : ℕ) (s : State) → Frame s (charge_rt k depth r delta s)
  unfolding charge_rt
  charge-Frame r delta s =
      let f = Frame-trans (memory-Frame _ s) (exceeded-Frame r _).frame in
      if-Frame _ (Frame-refl s) (if-Frame _ (Frame-trans f (resched-Frame _ _)) f)

  charge_each-Frame :
      (es : List ℕ) (delta : ℕ) (s : State) → Frame s (charge_each k depth es delta s)
  unfolding charge_each
  charge_each-Frame [] delta s = Frame-refl s
  charge_each-Frame (e ∷ es) delta s =
      Frame-trans (charge-Frame _ delta s) (charge_each-Frame es delta _)

  update_curr_rt-Frame : (s : State) → Frame s (update_curr_rt k depth s)
  unfolding update_curr_rt
  update_curr_rt-Frame s =
      let f = task-Frame s.rq.curr _ (s.task s.rq.curr).need_resched s in
      if-Frame _ (Frame-refl s) (if-Frame _ f (Frame-trans f (charge_each-Frame _ _ _)))

  check_preempt-Frame : (p : ℕ) (s : State) → Frame s (check_preempt_curr_rt p s)
  unfolding check_preempt_curr_rt
  check_preempt-Frame p s = if-Frame _ (resched-Frame _ s) (Frame-refl s)

  enqueue_task-Frame : (p flags : ℕ) (s : State) → Frame s (enqueue_task_rt k depth p flags s)
  unfolding enqueue_task_rt inc_nr_running
  enqueue_task-Frame p flags s =
      Frame-trans (if-Frame _ (memory-Frame _ s) (Frame-refl s))
        (Frame-trans (enqueue_entity-Frame p _ _) (rq-Frame _ _ refl refl refl))

  dequeue_task-Frame : (p : ℕ) (s : State) → Frame s (dequeue_task_rt k depth p s)
  unfolding dequeue_task_rt dec_nr_running
  dequeue_task-Frame p s =
      Frame-trans (update_curr_rt-Frame s)
        (Frame-trans (dequeue_entity-Frame p _) (rq-Frame _ _ refl refl refl))

  requeue_task-Frame :
      (p : ℕ) (head : Bool) (s : State) → Frame s (requeue_task_rt k depth p head s)
  unfolding requeue_task_rt
  requeue_task-Frame p head s = requeue_each-Frame k _ head s

  count_rr-Frame : (p : ℕ) (s : State) → Frame s (count_rr k depth p s)
  unfolding count_rr set_tsk_need_resched resched_task
  count_rr-Frame p s =
      let e = s.rt.entity p in
      let s' = set_rt_entity p (record e { time_slice = sub32 e.time_slice 1 }) s in
      let s'' = set_rt_entity p (record e { time_slice = rr_timeslice k }) s in
      if-Frame (not (sub32 e.time_slice 1 == 0)) (memory-Frame s'.rt s) (
        if-Frame (others_wait (ancestors depth p s'') s'')
          (Frame-trans (memory-Frame s''.rt s)
            (Frame-trans (requeue_task-Frame p false s'') (resched-Frame p _)))
          (memory-Frame s''.rt s))

  tick-Frame : (p : ℕ) (s : State) → Frame s (task_tick_rt k depth p s)
  unfolding task_tick_rt
  tick-Frame p s =
      let f = Frame-trans (update_curr_rt-Frame s) (watchdog-Frame k p _) in
      if-Frame _ (Frame-trans f (count_rr-Frame p _)) f

  -- Each operation in the table of the real-time class leaves WRR's run queue, the running and the
  -- idle task, and of each task all but its statistics and its need_resched flag alone.
  pub rt_op-Frame : (op : ClassOp) (p a : ℕ) (s : State) → Frame s (rt_op k depth op p a s)
  unfolding yield_task_rt put_prev_task_rt set_curr_task_rt switched_to_rt prio_changed_rt
  rt_op-Frame enqueue_op p a s = enqueue_task-Frame p a s
  rt_op-Frame dequeue_op p a s = dequeue_task-Frame p s
  rt_op-Frame yield_op p a s = requeue_task-Frame s.rq.curr false s
  rt_op-Frame check_preempt_op p a s = check_preempt-Frame p s
  rt_op-Frame put_prev_op p a s = update_curr_rt-Frame s
  rt_op-Frame set_curr_op p a s = task-Frame s.rq.curr _ _ s
  rt_op-Frame tick_op p a s = tick-Frame p s
  rt_op-Frame switched_to_op p a s = if-Frame _ (check_preempt-Frame p s) (Frame-refl s)
  rt_op-Frame prio_changed_op p a s =
      let t = s.task p in
      if-Frame (not t.on_rq) (Frame-refl s) (
        if-Frame (s.rq.curr == p)
          (if-Frame (ltb_ℤ (pos a) t.prio) (resched-Frame p s) (Frame-refl s))
          (check_preempt-Frame p s))
  rt_op-Frame _ p a s = Frame-refl s
