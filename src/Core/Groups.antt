-- ===== src/Core/Groups.antt =====
-- Moving tasks between groups, normalizing all tasks, and the idle task: core.c (sched_move_task,
-- normalize_rt_tasks, init_idle, idle_cpu). The task's new group is an argument of the move.
use cs356_project.Prelude.{ℕ, Bool, not, ◌&&◌, List, [], ◌∷◌, pos, ltb_ℤ, ◌==◌, if◌then◌else◌, ◌+◌}
use cs356_project.Kernel.Types.{
  SchedClass, fair_class, idle_class, State, set_task, set_rq, set_stats,
}
use cs356_project.Kernel.External.{Kernel, move_group_op}
use cs356_project.Kernel.Constants.{task_running}
use cs356_project.Rt.Memory.{set_task_rq}
use cs356_project.Core.Prio.{rt_prio, task_nice}
use cs356_project.Core.Fork.{sched_fork_common}
use cs356_project.Core.Nice.{set_user_nice}
use cs356_project.Core.Policy.Change.{take_off, put_back, normalize_task}

-- The processor idles if the idle task runs and no other is runnable.
unfoldable pub idle_cpu : State → Bool
idle_cpu s = s.rq.curr == s.rq.idle && s.rq.nr_running == 0

module _ (k : Kernel) where
  -- Only the fair class has task_move_group.
  unfoldable pub class_move_group : SchedClass → ℕ → Bool → State → State
  class_move_group fair_class p on_rq s =
      k.class_op fair_class move_group_op p (if on_rq then 1 else 0) s
  class_move_group c p on_rq s = set_task_rq p s

  unfoldable pub sched_move_task : ℕ → ℕ → State → State
  sched_move_task p tg s =
      let on_rq = (s.task p).on_rq in
      let running = s.rq.curr == p in
      let s1 = take_off k p on_rq running s in
      let s2 = set_task p (record (s1.task p) { sched_task_group = tg }) s1 in
      put_back k p 0 on_rq running (class_move_group (s2.task p).sched_class p on_rq s2)

  -- The body of the loop over all tasks of normalize_rt_tasks.
  unfoldable pub normalize_one : ℕ → State → State
  normalize_one p s =
      let s' = set_stats p (record (s.task p).se { exec_start = 0 }) s in
      if not (s.task p).mm
      then s
      else if rt_prio (s.task p).prio
      then normalize_task k p s'
      else if ltb_ℤ (task_nice (s.task p)) (pos 0)
      then set_user_nice k p (pos 0) s'
      else s'

  unfoldable pub normalize_rt_tasks : List ℕ → State → State
  normalize_rt_tasks [] s = s
  normalize_rt_tasks (p ∷ ps) s = normalize_rt_tasks ps (normalize_one p s)

  unfoldable pub init_idle : ℕ → State → State
  init_idle p s =
      let s1 = sched_fork_common p s in
      let s2 = set_task p (record (s1.task p) { state = task_running }) s1 in
      let s3 = set_stats p (record (s2.task p).se { exec_start = k.sched_clock s2.readings }) s2 in
      let s4 = set_task_rq p (record s3 { readings = s3.readings + 1 }) in
      let s5 = set_rq (record s4.rq { curr = p; idle = p }) s4 in
      set_task p (record (s5.task p) { sched_class = idle_class }) s5
