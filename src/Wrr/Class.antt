-- ===== src/Wrr/Class.antt =====
-- The operations in the table wrr_sched_class of wrr.c. The table's other entries are empty
-- functions (check_preempt_curr, prio_changed, switched_to) or not there (task_fork, switched_from).
use cs356_project.Prelude.{
  ℕ, ◌-◌, ◌/◌, ◌%◌, Bool, true, false, not, ◌==◌, Option, none, some, if◌then◌else◌,
}
use cs356_project.Kernel.Types.{
  State, Outcome, bug, done, set_task, set_entity, set_stats, set_wrr, Task,
}
use cs356_project.Kernel.Links.{same_link, next_link, prev_link}
use cs356_project.Kernel.External.{Kernel}
use cs356_project.Wrr.Weight.{full_slice, task_group_path, wrr_throttled}
use cs356_project.Wrr.Queue.{
  inc_nr_running, dec_nr_running, update_curr_wrr, requeue_wrr_entity, enqueue_wrr_entity,
  dequeue_wrr_entity,
}

-- flags & ENQUEUE_HEAD.
abbrev pub wants_head : ℕ → Bool
wants_head flags = flags / 2 % 2 == 1

unfoldable pub set_curr_task_wrr : State → State
set_curr_task_wrr s =
    set_stats s.rq.curr (record (s.task s.rq.curr).se { exec_start = s.rq.clock_task }) s

unfoldable pub put_prev_task_wrr : State → State
put_prev_task_wrr s = update_curr_wrr s

unfoldable pub set_tsk_need_resched : ℕ → State → State
set_tsk_need_resched p s = set_task p (record (s.task p) { need_resched = true }) s

module _ (k : Kernel) where
  unfoldable pub init_wrr_rq : State → State
  init_wrr_rq s = set_wrr (record s.rq.wrr { active = k.init_list_head }) s

  unfoldable pub enqueue_task_wrr : ℕ → ℕ → State → State
  enqueue_task_wrr p flags s = inc_nr_running (enqueue_wrr_entity k p (wants_head flags) s)

  unfoldable pub dequeue_task_wrr : ℕ → State → State
  dequeue_task_wrr p s = dec_nr_running (dequeue_wrr_entity k p (update_curr_wrr s))

  unfoldable pub requeue_task_wrr : ℕ → Bool → State → State
  requeue_task_wrr p head s = requeue_wrr_entity k p head s

  unfoldable pub yield_task_wrr : State → State
  yield_task_wrr s = requeue_task_wrr s.rq.curr false s

  -- Starts the clock of the task that was chosen.
  unfoldable pub start_task : Option ℕ → State → Outcome (Option ℕ × State)
  start_task none s = bug
  start_task (some p) s =
      done (some p, set_stats p (record (s.task p).se { exec_start = s.rq.clock_task }) s)

  unfoldable pub pick_next_task_wrr : State → Outcome (Option ℕ × State)
  pick_next_task_wrr s =
      if s.rq.wrr.wrr_nr_running == 0
      then done (none, s)
      else let (throttled, s') = wrr_throttled k s in
        if throttled then done (none, s') else start_task (k.list_first_entry s'.rq.wrr.active) s'

  -- The group path that a debug kernel prints goes through the static buffer.
  unfoldable pub debug_path : ℕ → State → State
  debug_path p s = if k.sched_debug then task_group_path k (s.task p).sched_task_group s else s

  unfoldable pub retire : ℕ → State → State
  retire p s = set_tsk_need_resched p (requeue_task_wrr p false s)

  -- A task that is alone gives way only if WRR is throttled.
  unfoldable pub retire_if_throttled : ℕ → State → State
  retire_if_throttled p s =
      let (throttled, s') = wrr_throttled k s in if throttled then retire p s' else s'

  -- After the slice is renewed: to the end of the queue, if others wait or WRR is throttled.
  unfoldable pub rotate : ℕ → State → State
  rotate p s =
      let q = s.rq.wrr.active in
      if not (same_link (prev_link p q) (next_link p q))
      then retire p s
      else retire_if_throttled p s

  unfoldable pub renew : ℕ → State → State
  renew p s =
      let e = (s.task p).wrr in
      rotate p (debug_path p (set_entity p (record e { time_slice = full_slice k e.weight }) s))

  -- The countdown, from a slice that is not 0.
  unfoldable pub count_down : ℕ → ℕ → State → State
  count_down p slice s =
      let s' = set_entity p (record (s.task p).wrr { time_slice = slice - 1 }) s in
      if slice - 1 == 0 then renew p s' else s'

  unfoldable pub task_tick_wrr : ℕ → State → Outcome State
  task_tick_wrr p s =
      let s' = debug_path p (update_curr_wrr s) in
      let slice = (s'.task p).wrr.time_slice in
      if slice == 0
      then (if k.sched_debug then bug else done (count_down p 1 s'))
      else done (count_down p slice s')

  unfoldable pub get_rr_interval_wrr : Task → ℕ
  get_rr_interval_wrr t = full_slice k t.wrr.weight
