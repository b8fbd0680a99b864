-- ===== src/Rt/Class.antt =====
-- The table rt_sched_class of rt.c for one processor: enqueue_task_rt, dequeue_task_rt,
-- yield_task_rt, check_preempt_curr_rt, pick_next_task_rt, put_prev_task_rt, set_curr_task_rt,
-- task_tick_rt with its watchdog, get_rr_interval_rt, prio_changed_rt and switched_to_rt. Lists of
-- pushable tasks are empty functions here.
use Prim.Native.Nat.{min}
use cs356_project.Prelude.{
  ℕ, zero, suc, ◌+◌, ◌-◌, ◌*◌, ◌/◌, ◌%◌, Bool, true, false, not, ◌&&◌, List, [], ◌∷◌, Option, some,
  none, ℤ, pos, ltb_ℤ, add32, sub32, u32, ltb, ◌==◌, if◌then◌else◌,
}
use cs356_project.Kernel.Types.{Task, State, Outcome, bug, done, set_stats}
use cs356_project.Kernel.Links.{same_link, next_link, prev_link}
use cs356_project.Kernel.External.{
  Kernel, ClassOp, enqueue_op, dequeue_op, yield_op, check_preempt_op, put_prev_op, set_curr_op,
  tick_op, switched_to_op, prio_changed_op,
}
use cs356_project.Kernel.Constants.{sched_rr}
use cs356_project.Wrr.Queue.{inc_nr_running, dec_nr_running}
use cs356_project.Wrr.Class.{wants_head, set_tsk_need_resched}
use cs356_project.Core.Classes.{resched_task}
use cs356_project.Rt.Memory.{set_rt_entity, rt_rq_throttled, rt_se_prio, ancestors}
use cs356_project.Rt.Entity.{
  enqueue_rt_entity, dequeue_rt_entity, requeue_each, pick_next_rt_entity,
}
use cs356_project.Rt.Time.{update_curr_rt}

-- flags & ENQUEUE_WAKEUP.
abbrev wakes_up : ℕ → Bool
wakes_up flags = flags % 2 == 1

-- A task of higher priority than the running one.
unfoldable pub check_preempt_curr_rt : ℕ → State → State
check_preempt_curr_rt p s =
    if ltb_ℤ (s.task p).prio (s.task s.rq.curr).prio then resched_task s.rq.curr s else s

unfoldable pub set_curr_task_rt : State → State
set_curr_task_rt s =
    set_stats s.rq.curr (record (s.task s.rq.curr).se { exec_start = s.rq.clock_task }) s

unfoldable pub switched_to_rt : ℕ → State → State
switched_to_rt p s =
    if (s.task p).on_rq && not (s.rq.curr == p) then check_preempt_curr_rt p s else s

unfoldable pub prio_changed_rt : ℕ → ℤ → State → State
prio_changed_rt p oldprio s =
    if not (s.task p).on_rq
    then s
    else if s.rq.curr == p
    then (if ltb_ℤ oldprio (s.task p).prio then resched_task p s else s)
    else check_preempt_curr_rt p s

-- Others wait beside one of the entities.
unfoldable pub others_wait : List ℕ → State → Bool
others_wait [] s = false
others_wait (e ∷ es) s =
    let q = (s.rt.rt_rq (s.rt.entity e).rt_rq).queue (rt_se_prio e s) in
    let rest = others_wait es s in
    if (s.rt.entity e).linked && not (same_link (prev_link e q) (next_link e q)) then true else rest

module _ (k : Kernel) where
  -- Ticks of 100 ms.
  unfoldable pub rr_timeslice : ℕ
  rr_timeslice = 100 * k.hz / 1000

  unfoldable pub get_rr_interval_rt : Task → ℕ
  get_rr_interval_rt t = if t.policy == sched_rr then rr_timeslice else 0

  -- The time that a task ran without a pause, in ticks, against its limit in microseconds.
  unfoldable pub watchdog : ℕ → State → State
  watchdog p s =
      let e = s.rt.entity p in
      let timeout = add32 e.timeout 1 in
      let tick = 1000000 / k.hz in
      let limit = u32 (min (k.rlimit_rttime p) (k.rlimit_rttime_max p) + tick - 1) / tick in
      if k.rlimit_rttime p == 4294967295
      then s
      else set_rt_entity p
          (record e {
            timeout = timeout;
            sched_exp = if ltb limit timeout then (s.task p).se.sum_exec_runtime else e.sched_exp;
          })
          s

module _ (k : Kernel) (depth : ℕ) where
  unfoldable pub enqueue_task_rt : ℕ → ℕ → State → State
  enqueue_task_rt p flags s =
      let s' =
        if wakes_up flags then set_rt_entity p (record (s.rt.entity p) { timeout = 0 }) s else s in
      inc_nr_running (enqueue_rt_entity k depth p (wants_head flags) s')

  unfoldable pub dequeue_task_rt : ℕ → State → State
  dequeue_task_rt p s = dec_nr_running (dequeue_rt_entity k depth p (update_curr_rt k depth s))

  unfoldable pub requeue_task_rt : ℕ → Bool → State → State
  requeue_task_rt p head s = requeue_each k (ancestors depth p s) head s

  unfoldable pub yield_task_rt : State → State
  yield_task_rt s = requeue_task_rt s.rq.curr false s

  -- Down from a run queue to a task, through groups.
  unfoldable pub pick_down : ℕ → ℕ → State → Outcome ℕ
  pick_down zero r s = bug
  pick_down (suc levels) r s = elim (pick_next_rt_entity k r s) [
    | bug ↦ bug
    | done e ↦ elim (s.rt.entity e).my_q [ none ↦ done e | some g ↦ pick_down levels g s ]
  ]

  abbrev pub start_picked : Outcome ℕ → State → Outcome (Option ℕ × State)
  start_picked bug s = bug
  start_picked (done p) s =
      done (some p, set_stats p (record (s.task p).se { exec_start = s.rq.clock_task }) s)

  unfoldable pub pick_next_task_rt : State → Outcome (Option ℕ × State)
  pick_next_task_rt s =
      let x = s.rt.rt_rq 0 in
      if x.rt_nr_running == 0
      then done (none, s)
      else if rt_rq_throttled x
      then done (none, s)
      else start_picked (pick_down (suc depth) 0 s) s

  unfoldable pub put_prev_task_rt : State → State
  put_prev_task_rt s = update_curr_rt k depth s

  -- The slice of a SCHED_RR task.
  unfoldable pub count_rr : ℕ → State → State
  count_rr p s =
      let e = s.rt.entity p in
      let left = sub32 e.time_slice 1 in
      let s' = set_rt_entity p (record e { time_slice = left }) s in
      let s'' = set_rt_entity p (record e { time_slice = rr_timeslice k }) s in
      if not (left == 0)
      then s'
      else if others_wait (ancestors depth p s'') s''
      then set_tsk_need_resched p (requeue_task_rt p false s'')
      else s''

  unfoldable pub task_tick_rt : ℕ → State → State
  task_tick_rt p s =
      let s' = watchdog k p (update_curr_rt k depth s) in
      if (s.task p).policy == sched_rr then count_rr p s' else s'

  -- The table; entries that it does not have do nothing.
  abbrev pub rt_op : ClassOp → ℕ → ℕ → State → State
  rt_op enqueue_op p flags s = enqueue_task_rt p flags s
  rt_op dequeue_op p flags s = dequeue_task_rt p s
  rt_op yield_op p flags s = yield_task_rt s
  rt_op check_preempt_op p flags s = check_preempt_curr_rt p s
  rt_op put_prev_op p flags s = put_prev_task_rt s
  rt_op set_curr_op p flags s = set_curr_task_rt s
  rt_op tick_op p flags s = task_tick_rt p s
  rt_op switched_to_op p flags s = switched_to_rt p s
  rt_op prio_changed_op p oldprio s = prio_changed_rt p (pos oldprio) s
  rt_op _ p flags s = s
