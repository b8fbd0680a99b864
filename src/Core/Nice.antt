-- ===== src/Core/Nice.antt =====
-- Nice values: core.c (set_user_nice, the system call nice).
use cs356_project.Prelude.{
  ℕ, not, ◌&&◌, ◌||◌, ℤ, pos, negsuc, ◌+ℤ◌, ltb_ℤ, eqb_ℤ, ◌==◌, if◌then◌else◌,
}
use cs356_project.Kernel.Types.{State, set_task}
use cs356_project.Kernel.External.{Kernel}
use cs356_project.Core.Prio.{rt_policy, nice_to_prio, task_nice, effective_prio, set_load_weight}
use cs356_project.Core.Classes.{enqueue_task, dequeue_task, resched_task}
use cs356_project.Core.Policy.Request.{can_nice, eperm}

-- The new static and effective priority of a task that is off its queue.
unfoldable pub write_nice : ℕ → ℤ → State → State
write_nice p nice s =
    let s1 = set_task p (record (s.task p) { static_prio = nice_to_prio nice }) s in
    let (prio, s2) = effective_prio p (set_load_weight p s1) in
    set_task p (record (s2.task p) { prio = prio }) s2

module _ (k : Kernel) where
  -- Back on the queue; a task that gains, or runs and loses, has the processor rescheduled.
  unfoldable pub renice_queued : ℕ → ℤ → State → State
  renice_queued p old s =
      let s' = enqueue_task k p 0 s in
      let new = (s'.task p).prio in
      if ltb_ℤ new old || ltb_ℤ old new && s'.rq.curr == p then resched_task s'.rq.curr s' else s'

  unfoldable pub renice : ℕ → ℤ → State → State
  renice p nice s =
      let t = s.task p in
      let s1 = if t.on_rq then dequeue_task k p 0 s else s in
      let s2 = write_nice p nice s1 in if t.on_rq then renice_queued p t.prio s2 else s2

  unfoldable pub set_user_nice : ℕ → ℤ → State → State
  set_user_nice p nice s =
      let t = s.task p in
      if eqb_ℤ (task_nice t) nice || (ltb_ℤ nice (negsuc 19) || ltb_ℤ (pos 19) nice)
      then s
      else if rt_policy t.policy
      then set_task p (record t { static_prio = nice_to_prio nice }) s
      else renice p nice s

  -- A value held between two bounds.
  abbrev pub clamp_ℤ : ℤ → ℤ → ℤ → ℤ
  clamp_ℤ lo hi x = if ltb_ℤ x lo then lo else if ltb_ℤ hi x then hi else x

  unfoldable pub sys_nice : ℤ → State → State × ℤ
  sys_nice increment s =
      let curr = s.rq.curr in
      let inc = clamp_ℤ (negsuc 39) (pos 40) increment in
      let nice = clamp_ℤ (negsuc 19) (pos 19) (task_nice (s.task curr) +ℤ inc) in
      let denied = k.security_setnice curr nice in
      if ltb_ℤ inc (pos 0) && not (can_nice k curr nice)
      then (s, eperm)
      else if not (eqb_ℤ denied (pos 0))
      then (s, denied)
      else (set_user_nice curr nice s, pos 0)
