-- ===== src/Wrr/Queue.antt =====
-- The run queue of wrr.c: enqueue_wrr_entity, dequeue_wrr_entity, requeue_wrr_entity, the counters,
-- and the accounting of the running task.
use Prim.Native.Nat.{max}
use cs356_project.Prelude.{ℕ, Bool, not, add32, sub32, add64, sub64, ltb, if◌then◌else◌}
use cs356_project.Kernel.Types.{
  wrr_class, same_class, State, set_wrr, set_rq, set_entity, set_stats,
}
use cs356_project.Kernel.External.{Kernel}
use cs356_project.Wrr.Weight.{full_slice, update_weight}

unfoldable pub inc_wrr_tasks : ℕ → State → State
inc_wrr_tasks p s =
    set_wrr
      (record s.rq.wrr {
        total_weight = add32 s.rq.wrr.total_weight (s.task p).wrr.weight;
        wrr_nr_running = add32 s.rq.wrr.wrr_nr_running 1;
      })
      s

unfoldable pub dec_wrr_tasks : ℕ → State → State
dec_wrr_tasks p s =
    set_wrr
      (record s.rq.wrr {
        total_weight = sub32 s.rq.wrr.total_weight (s.task p).wrr.weight;
        wrr_nr_running = sub32 s.rq.wrr.wrr_nr_running 1;
      })
      s

-- sched.h.
unfoldable pub inc_nr_running : State → State
inc_nr_running s = set_rq (record s.rq { nr_running = add32 s.rq.nr_running 1 }) s

unfoldable pub dec_nr_running : State → State
dec_nr_running s = set_rq (record s.rq { nr_running = sub32 s.rq.nr_running 1 }) s

-- The charge for the time from `start` to `now`; a negative s64 counts as 0.
unfoldable pub exec_delta : ℕ → ℕ → ℕ
exec_delta now start =
    let delta = sub64 now start in if ltb delta 9223372036854775808 then delta else 0

unfoldable pub update_curr_wrr : State → State
update_curr_wrr s =
    let curr = s.task s.rq.curr in
    let delta = exec_delta s.rq.clock_task curr.se.exec_start in
    if not (same_class curr.sched_class wrr_class)
    then s
    else set_stats s.rq.curr
        (record curr.se {
          exec_max = max curr.se.exec_max delta;
          sum_exec_runtime = add64 curr.se.sum_exec_runtime delta;
          exec_start = s.rq.clock_task;
        })
        s

module _ (k : Kernel) where
  unfoldable pub requeue_wrr_entity : ℕ → Bool → State → State
  requeue_wrr_entity p head s =
      let q = s.rq.wrr.active in
      set_wrr (record s.rq.wrr { active = if head then k.list_move p q else k.list_move_tail p q })
        s

  unfoldable pub refill : ℕ → State → State
  refill p s =
      let e = (s.task p).wrr in set_entity p (record e { time_slice = full_slice k e.weight }) s

  unfoldable pub enqueue_wrr_entity : ℕ → Bool → State → State
  enqueue_wrr_entity p head s =
      inc_wrr_tasks p (requeue_wrr_entity p head (refill p (update_weight k p s)))

  unfoldable pub dequeue_wrr_entity : ℕ → State → State
  dequeue_wrr_entity p s =
      dec_wrr_tasks p (set_wrr (record s.rq.wrr { active = k.list_del_init p s.rq.wrr.active }) s)
