-- ===== src/Core/Switch.antt =====
-- The main loop: core.c (scheduler_tick, put_prev_task, pick_next_task, __schedule, yield).
-- Performance counters and the switch of the machine's context are left out.
use cs356_project.Prelude.{
  ℕ, Bool, false, not, ◌&&◌, ◌||◌, List, [], ◌∷◌, Option, some, none, pos, ltb_ℤ, add32, add64,
  ◌==◌, if◌then◌else◌,
}
use cs356_project.Kernel.Types.{
  SchedClass, wrr_class, fair_class, State, Outcome, bug, done, set_task, set_rq,
}
use cs356_project.Kernel.External.{Kernel, tick_op}
use cs356_project.Kernel.Constants.{task_running, dequeue_sleep}
use cs356_project.Wrr.Class.{task_tick_wrr, pick_next_task_wrr}
use cs356_project.Loads.Cpu.{update_cpu_load_active}
use cs356_project.Core.Classes.{
  class_order, update_rq_clock, deactivate_task, class_put_prev, class_yield,
}
use cs356_project.Core.Wake.{try_to_wake_up_local}

module _ (k : Kernel) where
  unfoldable pub class_tick : SchedClass → ℕ → State → Outcome State
  class_tick wrr_class p s = task_tick_wrr k p s
  class_tick c p s = done (k.class_op c tick_op p 0 s)

  unfoldable pub class_pick : SchedClass → State → Outcome (Option ℕ × State)
  class_pick wrr_class s = pick_next_task_wrr k s
  class_pick c s = done (k.class_pick_next c s)

  unfoldable pub scheduler_tick : State → Outcome State
  scheduler_tick s =
      let s' = update_cpu_load_active k (update_rq_clock k s) in
      class_tick (s'.task s.rq.curr).sched_class s.rq.curr s'

  unfoldable pub put_prev_task : ℕ → State → State
  put_prev_task p s =
      let s' =
        if (s.task p).on_rq || ltb_ℤ s.rq.skip_clock_update (pos 0)
        then update_rq_clock k s
        else s in
      class_put_prev k (s'.task p).sched_class p s'

  -- The loop over the classes; BUG() behind it.
  unfoldable pub pick_from : List SchedClass → State → Outcome (Option ℕ × State)
  pick_from [] s = bug
  pick_from (c ∷ cs) s = elim (class_pick c s) [
    | bug ↦ bug
    | done (some p, s') ↦ done (some p, s')
    | done (none, s') ↦ pick_from cs s'
  ]

  -- What the fair class answered in the short cut.
  unfoldable pub pick_after_fair : Option ℕ × State → Outcome (Option ℕ × State)
  pick_after_fair (some p, s) = done (some p, s)
  pick_after_fair (none, s) = pick_from class_order s

  unfoldable pub pick_next_task : State → Outcome (Option ℕ × State)
  pick_next_task s =
      if s.rq.nr_running == k.cfs_h_nr_running s.rq.others
      then pick_after_fair (k.class_pick_next fair_class s)
      else pick_from class_order s

  abbrev pub wake_worker : Option ℕ → State → State
  wake_worker none s = s
  wake_worker (some w) s = try_to_wake_up_local k w s

  -- The running task sleeps; a worker may ask for another worker to be woken.
  unfoldable pub fall_asleep : ℕ → State → State
  fall_asleep p s =
      let s1 = deactivate_task k p dequeue_sleep s in
      let s2 = set_task p (record (s1.task p) { on_rq = false }) s1 in
      if (s.task p).wq_worker then wake_worker (k.wq_worker_sleeping p s2) s2 else s2

  -- A task that is not in state TASK_RUNNING leaves the queue, unless it was preempted or has a
  -- signal to handle.
  unfoldable pub leave : ℕ → Bool → State → State
  leave p preempted s =
      if (s.task p).state == 0 || preempted
      then s
      else if k.signal_pending_state p s
      then set_task p (record (s.task p) { state = task_running }) s
      else fall_asleep p s

  abbrev pub count_switch : ℕ → Bool → State → State
  count_switch p voluntary s =
      let t = s.task p in
      if voluntary
      then set_task p (record t { nvcsw = add32 t.nvcsw 1 }) s
      else set_task p (record t { nivcsw = add32 t.nivcsw 1 }) s

  -- The choice becomes the running task.
  unfoldable pub switch_to : ℕ → Bool → Option ℕ × State → Outcome State
  switch_to prev voluntary (none, s) = bug
  switch_to prev voluntary (some next, s) =
      let s1 = set_task prev (record (s.task prev) { need_resched = false }) s in
      let s2 = set_rq (record s1.rq { skip_clock_update = pos 0 }) s1 in
      let s3 = set_rq (record s2.rq { nr_switches = add64 s2.rq.nr_switches 1; curr = next }) s2 in
      done (if prev == next then s2 else count_switch prev voluntary s3)

  -- One pass of __schedule, up to the test of need_resched that may start another.
  unfoldable pub schedule_pass : Bool → State → Outcome State
  schedule_pass preempted s =
      let prev = s.rq.curr in
      let voluntary = not ((s.task prev).state == 0) && not preempted in
      elim (pick_next_task (put_prev_task prev (leave prev preempted s))) [
        | bug ↦ bug
        | done r ↦ switch_to prev voluntary r
      ]

  -- sched_yield: the class moves the running task, and then the scheduler runs.
  unfoldable pub sched_yield : State → Outcome State
  sched_yield s = schedule_pass false (class_yield k (s.task s.rq.curr).sched_class s)

  unfoldable pub yield : State → Outcome State
  yield s = sched_yield (set_task s.rq.curr (record (s.task s.rq.curr) { state = task_running }) s)
