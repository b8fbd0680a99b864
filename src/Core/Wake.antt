-- ===== src/Core/Wake.antt =====
-- Wake-ups on one processor: core.c (ttwu_activate, ttwu_do_wakeup, ttwu_do_activate, ttwu_remote,
-- ttwu_queue, try_to_wake_up, try_to_wake_up_local, wake_up_process, wake_up_state,
-- default_wake_function). Statistics and the workqueues' notification are left out.
use Prim.Native.Nat.{bit_and}
use cs356_project.Prelude.{ℕ, Bool, true, false, not, ◌==◌, if◌then◌else◌}
use cs356_project.Kernel.Types.{State, set_task}
use cs356_project.Kernel.External.{Kernel}
use cs356_project.Kernel.Constants.{task_running, task_normal, enqueue_wakeup}
use cs356_project.Core.Classes.{activate_task, check_preempt_curr}

module _ (k : Kernel) where
  unfoldable pub ttwu_activate : ℕ → ℕ → State → State
  ttwu_activate p flags s =
      let s' = activate_task k p flags s in set_task p (record (s'.task p) { on_rq = true }) s'

  unfoldable pub ttwu_do_wakeup : ℕ → ℕ → State → State
  ttwu_do_wakeup p flags s =
      let s' = check_preempt_curr k p flags s in
      set_task p (record (s'.task p) { state = task_running }) s'

  -- ENQUEUE_WAKING is 0 on one processor.
  unfoldable pub ttwu_do_activate : ℕ → ℕ → State → State
  ttwu_do_activate p flags s = ttwu_do_wakeup p flags (ttwu_activate p enqueue_wakeup s)

  unfoldable pub ttwu_remote : ℕ → ℕ → State → State × Bool
  ttwu_remote p flags s = if (s.task p).on_rq then (ttwu_do_wakeup p flags s, true) else (s, false)

  unfoldable pub ttwu_queue : ℕ → State → State
  ttwu_queue p s = ttwu_do_activate p 0 s

  unfoldable pub try_to_wake_up : ℕ → ℕ → ℕ → State → State × Bool
  try_to_wake_up p mask flags s =
      let (s', still_queued) = ttwu_remote p flags s in
      if bit_and (s.task p).state mask == 0
      then (s, false)
      else if still_queued
      then (s', true)
      else (ttwu_queue p s', true)

  -- For a task other than the running one, on the run queue whose lock is held.
  unfoldable pub try_to_wake_up_local : ℕ → State → State
  try_to_wake_up_local p s =
      let s' = if not (s.task p).on_rq then ttwu_activate p enqueue_wakeup s else s in
      if p == s.rq.curr
      then s
      else if bit_and (s.task p).state task_normal == 0
      then s
      else ttwu_do_wakeup p 0 s'

  unfoldable pub wake_up_process : ℕ → State → State × Bool
  wake_up_process p s = try_to_wake_up p task_normal 0 s

  unfoldable pub wake_up_state : ℕ → ℕ → State → State × Bool
  wake_up_state p mask s = try_to_wake_up p mask 0 s
