-- ===== src/Rt/Time.antt =====
-- Time: what real-time tasks are charged, the throttle of their groups, and the timer that ends it:
-- rt.c (sched_rt_runtime_exceeded, update_curr_rt, do_sched_rt_period_timer). Of the processors the
-- timer's loop goes over there is one; balance_runtime needs others.
use Prim.Native.Nat.{min, max}
use cs356_project.Prelude.{
  ℕ, ◌*◌, ◌-◌, ◌%◌, Bool, true, false, not, ◌&&◌, ◌||◌, List, [], ◌∷◌, Option, some, none, negsuc,
  add64, ltb, leb, ◌==◌, if◌then◌else◌,
}
use cs356_project.Kernel.Types.{rt_class, same_class, State, set_rq, set_stats}
use cs356_project.Kernel.External.{Kernel}
use cs356_project.Wrr.Queue.{exec_delta}
use cs356_project.Core.Classes.{resched_task}
use cs356_project.Rt.Memory.{
  runtime_inf, set_rt_rq, set_rt_group, rt_rq_throttled, sched_rt_runtime, sched_rt_period,
  ancestors,
}
use cs356_project.Rt.Entity.{sched_rt_rq_enqueue, sched_rt_rq_dequeue}

-- The runtime that the bandwidth of a group was given.
abbrev pub bandwidth_of : Option ℕ → State → ℕ
bandwidth_of none s = 0
bandwidth_of (some g) s = (s.rt.group g).rt_runtime

-- The time used is above the runtime: throttled, but not if no runtime was assigned.
unfoldable pub overrun : ℕ → State → State
overrun r s =
    let x = s.rt.rt_rq r in
    if not (bandwidth_of x.tg s == 0)
    then set_rt_rq r (record x { rt_throttled = true }) s
    else set_rt_rq r (record x { rt_time = 0 }) s

module _ (k : Kernel) (depth : ℕ) where
  unfoldable pub sched_rt_runtime_exceeded : ℕ → State → Bool × State
  sched_rt_runtime_exceeded r s =
      let x = s.rt.rt_rq r in
      let runtime = sched_rt_runtime x in
      let s' = overrun r s in
      if x.rt_throttled
      then (rt_rq_throttled x, s)
      else if leb (sched_rt_period x s) runtime
      then (false, s)
      else if runtime == runtime_inf
      then (false, s)
      else if not (ltb runtime x.rt_time)
      then (false, s)
      else if rt_rq_throttled (s'.rt.rt_rq r)
      then (true, sched_rt_rq_dequeue k depth r s')
      else (false, s')

  -- A run queue on the way up is charged.
  unfoldable pub charge_rt : ℕ → ℕ → State → State
  charge_rt r delta s =
      let x = s.rt.rt_rq r in
      let s' = set_rt_rq r (record x { rt_time = add64 x.rt_time delta }) s in
      let (exceeded, s'') = sched_rt_runtime_exceeded r s' in
      if sched_rt_runtime x == runtime_inf
      then s
      else if exceeded
      then resched_task s.rq.curr s''
      else s''

  unfoldable pub charge_each : List ℕ → ℕ → State → State
  charge_each [] delta s = s
  charge_each (e ∷ es) delta s = charge_each es delta (charge_rt (s.rt.entity e).rt_rq delta s)

  unfoldable pub update_curr_rt : State → State
  update_curr_rt s =
      let curr = s.task s.rq.curr in
      let delta = exec_delta s.rq.clock_task curr.se.exec_start in
      let s' =
        set_stats s.rq.curr
          (record curr.se {
            exec_max = max curr.se.exec_max delta;
            sum_exec_runtime = add64 curr.se.sum_exec_runtime delta;
            exec_start = s.rq.clock_task;
          })
          s in
      if not (same_class curr.sched_class rt_class)
      then s
      else if not k.rt_bandwidth_enabled
      then s'
      else charge_each (ancestors depth s.rq.curr s') delta s'

  -- The part of the timer for a run queue that has used time.
  unfoldable pub refresh : ℕ → ℕ → State → Bool × State
  refresh r periods s =
      let x = s.rt.rt_rq r in
      let runtime = x.rt_runtime in
      let left = x.rt_time - min x.rt_time (periods * runtime % 18446744073709551616) in
      let over = x.rt_throttled && ltb left runtime in
      let s' =
        set_rt_rq r
          (record x { rt_time = left; rt_throttled = if over then false else x.rt_throttled }) s in
      (
        over,
        if over && (not (x.rt_nr_running == 0) && s.rq.curr == s.rq.idle)
            then set_rq (record s'.rq { skip_clock_update = negsuc 0 }) s'
            else s',
      )

  -- The new state, and whether the timer may stop.
  unfoldable pub do_sched_rt_period_timer : ℕ → ℕ → State → Bool × State
  do_sched_rt_period_timer g periods s =
      let r = (s.rt.group g).rt_rq in
      let x = s.rt.rt_rq r in
      let used = not (x.rt_time == 0) in
      let waits = not (x.rt_nr_running == 0) in
      let (over, s1) = refresh r periods s in
      let s2 = if used then s1 else s in
      let enqueue = if used then over else waits && not (rt_rq_throttled x) in
      let idle =
        if used
        then (s2.rt.rt_rq r).rt_time == 0 && (s2.rt.rt_rq r).rt_nr_running == 0
        else not waits in
      let throttled = (s2.rt.rt_rq r).rt_throttled in
      let s3 = if enqueue then sched_rt_rq_enqueue k depth r s2 else s2 in
      (
        if not throttled
              && (not k.rt_bandwidth_enabled || (s3.rt.group g).rt_runtime == runtime_inf)
            then true
            else idle,
        s3,
      )

  -- The timer's loop: `overruns` are the answers of hrtimer_forward, up to the first 0. It stops if
  -- the last round was idle.
  unfoldable pub period_rounds : ℕ → List ℕ → Bool → State → Bool × State
  period_rounds g [] idle s = (idle, s)
  period_rounds g (n ∷ ns) idle s =
      let (idle', s') = do_sched_rt_period_timer g n s in
      let rest = period_rounds g ns idle' s' in if n == 0 then (idle, s) else rest

  unfoldable pub sched_rt_period_timer : ℕ → List ℕ → State → State
  sched_rt_period_timer g overruns s =
      let (idle, s') = period_rounds g overruns false s in
      set_rt_group g (record (s'.rt.group g) { rt_period_timer = not idle }) s'
