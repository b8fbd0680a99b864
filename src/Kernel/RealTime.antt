-- ===== src/Kernel/RealTime.antt =====
-- The data of the real-time class: struct sched_rt_entity of patch/include/linux/sched.h, and
-- rt_rq, rt_prio_array and rt_bandwidth of patch/kernel/sched/sched.h, with group scheduling, for
-- one processor. Entities, run queues and groups are named by numbers.
use cs356_project.Prelude.{ℕ, Bool, List, Option}

-- The entity of task p has the number p, those of groups have other numbers. `linked` tells whether
-- its node run_list is in a list; the list itself is a `queue` of a run queue. `sched_exp` is the
-- field cputime_expires.sched_exp of the task.
pub record RtEntity : Type 0 where
  pub linked : Bool
  pub timeout : ℕ
  pub time_slice : ℕ
  pub parent : Option ℕ
  pub rt_rq : ℕ
  pub my_q : Option ℕ
  pub sched_exp : ℕ

-- A run queue with its priority array: one queue and one bit for each priority.
pub record RtRq : Type 0 where
  pub bitmap : ℕ → Bool
  pub queue : ℕ → List ℕ
  pub rt_nr_running : ℕ
  pub highest_prio : ℕ
  pub rt_throttled : Bool
  pub rt_time : ℕ
  pub rt_runtime : ℕ
  pub rt_nr_boosted : ℕ
  pub tg : Option ℕ

-- The part of a task group for the processor, with its bandwidth; `rt_period_timer` tells whether
-- the timer is active; `children` is the list of its child groups.
pub record RtGroup : Type 0 where
  pub rt_se : Option ℕ
  pub rt_rq : ℕ
  pub rt_runtime : ℕ
  pub rt_period : ℕ
  pub rt_period_timer : Bool
  pub parent : Option ℕ
  pub children : List ℕ

-- Run queue 0 is the one in struct rq.
pub record RealTime : Type 0 where
  pub entity : ℕ → RtEntity
  pub rt_rq : ℕ → RtRq
  pub group : ℕ → RtGroup
