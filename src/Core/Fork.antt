-- ===== src/Core/Fork.antt =====
-- Creation of tasks: core.c (task_group_path, wrr_if_fg, wrr_set_weight, __sched_fork, sched_fork,
-- wake_up_new_task). The new task's structure is a copy of its parent's when sched_fork is called;
-- a number that no queue holds stands for its list nodes after INIT_LIST_HEAD.
use cs356_project.Prelude.{ℕ, Bool, true, false, not, some, none, pos, ltb_ℤ, ◌==◌, if◌then◌else◌}
use cs356_project.Kernel.Types.{
  wrr_class, fair_class, SchedEntity, Task, State, write_at, set_task, set_entity,
}
use cs356_project.Kernel.External.{Kernel}
use cs356_project.Kernel.Constants.{
  sched_normal, sched_wrr, wrr_fg_weight, wrr_bg_weight, task_running,
}
use cs356_project.Wrr.Weight.{full_slice}
use cs356_project.Core.Prio.{
  rt_prio, rt_policy, nice_to_prio, prio_to_nice, task_nice, set_load_weight,
}
use cs356_project.Core.Classes.{class_fork, activate_task, check_preempt_curr}

-- The flag of check_preempt_curr for a new task.
abbrev pub wf_fork : ℕ
wf_fork = 2

-- The accounting of a task that has not run yet.
abbrev pub fresh_stats : SchedEntity → SchedEntity
fresh_stats e = record e { exec_start = 0; sum_exec_runtime = 0; exec_max = 0 }

unfoldable pub sched_fork_common : ℕ → State → State
sched_fork_common p s =
    set_task p (record (s.task p) { on_rq = false; se = fresh_stats (s.task p).se }) s

-- A task that asks for it loses a real-time policy or a negative nice value, and a boost.
unfoldable pub reset_fields : Task → Task
unfolding nice_to_prio prio_to_nice task_nice
reset_fields t =
    let t' =
      if rt_policy t.policy
      then record t { policy = sched_normal; static_prio = nice_to_prio (pos 0); rt_priority = 0 }
      else if ltb_ℤ (task_nice t) (pos 0)
      then record t { static_prio = nice_to_prio (pos 0) }
      else t in
    record t' { normal_prio = t'.static_prio; prio = t'.static_prio }

unfoldable pub reset_policy : ℕ → State → State
reset_policy p s =
    let s' = set_load_weight p (set_task p (reset_fields (s.task p)) s) in
    set_task p (record (s'.task p) { sched_reset_on_fork = false }) s'

-- Outside the real-time range the class follows the policy.
unfoldable pub fork_class : Task → Task
fork_class t =
    if rt_prio t.prio
    then t
    else if t.policy == sched_wrr
    then record t { sched_class = wrr_class }
    else record t { sched_class = fair_class }

module _ (k : Kernel) where
  -- The path of a task group in the static buffer of core.c.
  unfoldable pub core_group_path : ℕ → State → State
  core_group_path tg s = elim (k.autogroup_path tg s.core_path) [
    | some path ↦ record s { core_path = path }
    | none ↦ elim (s.cgroup tg) [
      | none ↦ record s { core_path = write_at 0 0 s.core_path }
      | some c ↦ record s { core_path = k.cgroup_path c s.core_path }
    ]
  ]

  unfoldable pub wrr_if_fg : ℕ → State → Bool × State
  wrr_if_fg p s =
      let s' = core_group_path (s.task p).sched_task_group s in (not (s'.core_path 1 == b'b'), s')

  -- The weight by group, for a task without a weight of its own.
  unfoldable pub set_group_weight : ℕ → State → State
  set_group_weight p s =
      let (fg, s') = wrr_if_fg p s in
      let e = (s'.task p).wrr in
      if (s.task p).wrr.custom_weight == 0
      then set_entity p (record e { weight = if fg then wrr_fg_weight else wrr_bg_weight }) s'
      else s

  unfoldable pub wrr_set_weight : ℕ → State → State
  wrr_set_weight p s =
      let s' = set_group_weight p s in
      let e = (s'.task p).wrr in
      if (s'.task p).policy == sched_wrr
      then set_entity p (record e { time_slice = full_slice k e.weight }) s'
      else s'

  unfoldable pub sched_fork : ℕ → State → State
  sched_fork p s =
      let s1 = sched_fork_common p s in
      let parent = s1.task s1.rq.curr in
      let s2 =
        set_task p (record (s1.task p) { state = task_running; prio = parent.normal_prio }) s1 in
      let s3 = if (s2.task p).sched_reset_on_fork then reset_policy p s2 else s2 in
      let s4 = set_task p (fork_class (s3.task p)) s3 in class_fork k (s4.task p).sched_class p s4

  unfoldable pub wake_up_new_task : ℕ → State → State
  wake_up_new_task p s =
      let s1 = activate_task k p 0 (wrr_set_weight p s) in
      check_preempt_curr k p wf_fork (set_task p (record (s1.task p) { on_rq = true }) s1)
