-- ===== src/Core/Syscalls.antt =====
-- The system calls of core.c on policies and intervals. A user pointer is null, or faults, or
-- holds a value; a call that writes through one returns what it wrote.
use cs356_project.Prelude.{
  ℕ, ◌+◌, Bool, true, false, not, ◌||◌, Option, some, none, ℤ, pos, negsuc, eqb_ℤ, ◌==◌,
  if◌then◌else◌,
}
use cs356_project.Kernel.Types.{SchedClass, wrr_class, Task, State}
use cs356_project.Kernel.External.{Kernel}
use cs356_project.Kernel.Constants.{sched_reset_on_fork}
use cs356_project.Wrr.Class.{get_rr_interval_wrr}
use cs356_project.Core.Policy.Request.{einval, esrch, efault}
use cs356_project.Core.Policy.Change.{sched_setscheduler}

pub data UserParam : Type 0 where
  null : UserParam
  faulting : UserParam
  param : ℤ → UserParam

abbrev pub is_negative : ℤ → Bool
is_negative (pos _) = false
is_negative (negsuc _) = true

-- Policies have no bit 30, so `|` with the flag is a sum.
abbrev pub policy_and_flag : Task → ℤ
policy_and_flag t = pos (if t.sched_reset_on_fork then t.policy + sched_reset_on_fork else t.policy)

unfoldable pub sched_get_priority_max : ℕ → ℤ
sched_get_priority_max policy =
    if policy == 1 || policy == 2
    then pos 99
    else if policy == 0 || (policy == 3 || policy == 5)
    then pos 0
    else einval

unfoldable pub sched_get_priority_min : ℕ → ℤ
sched_get_priority_min policy =
    if policy == 1 || policy == 2
    then pos 1
    else if policy == 0 || (policy == 3 || policy == 5)
    then pos 0
    else einval

module _ (k : Kernel) where
  -- Pid 0 is the caller.
  unfoldable pub find_process_by_pid : ℕ → State → Option ℕ
  find_process_by_pid pid s = if pid == 0 then some s.rq.curr else k.find_task_by_vpid pid

  abbrev set_found : Option ℕ → ℤ → ℤ → State → State × ℤ
  set_found none policy prio s = (s, esrch)
  set_found (some p) policy prio s = sched_setscheduler k p policy prio s

  unfoldable pub do_sched_setscheduler : ℤ → ℤ → UserParam → State → State × ℤ
  do_sched_setscheduler (negsuc _) policy _ s = (s, einval)
  do_sched_setscheduler (pos pid) policy null s = (s, einval)
  do_sched_setscheduler (pos pid) policy faulting s = (s, efault)
  do_sched_setscheduler (pos pid) policy (param prio) s =
      set_found (find_process_by_pid pid s) policy prio s

  unfoldable pub sys_sched_setscheduler : ℤ → ℤ → UserParam → State → State × ℤ
  sys_sched_setscheduler pid policy prio s =
      if is_negative policy then (s, einval) else do_sched_setscheduler pid policy prio s

  unfoldable pub sys_sched_setparam : ℤ → UserParam → State → State × ℤ
  sys_sched_setparam pid prio s = do_sched_setscheduler pid (negsuc 0) prio s

  abbrev policy_of : Option ℕ → State → ℤ
  policy_of none s = esrch
  policy_of (some p) s =
      let denied = k.security_getscheduler p in
      if eqb_ℤ denied (pos 0) then policy_and_flag (s.task p) else denied

  unfoldable pub sys_sched_getscheduler : ℤ → State → ℤ
  sys_sched_getscheduler (negsuc _) s = einval
  sys_sched_getscheduler (pos pid) s = policy_of (find_process_by_pid pid s) s

  -- Reads a value of a process for the user: the answer, and what is written through the pointer.
  abbrev read_for {ℓ} : {A : Type ℓ} → (Task → A) → Bool → Option ℕ → State → ℤ × Option A
  read_for f writable none s = (esrch, none)
  read_for f writable (some p) s =
      let denied = k.security_getscheduler p in
      if not (eqb_ℤ denied (pos 0))
      then (denied, none)
      else if writable
      then (pos 0, some (f (s.task p)))
      else (efault, none)

  -- The pointer is null, or not writable, or writable.
  unfoldable pub sys_sched_getparam : ℤ → UserParam → State → ℤ × Option ℕ
  sys_sched_getparam (negsuc _) _ s = (einval, none)
  sys_sched_getparam (pos pid) null s = (einval, none)
  sys_sched_getparam (pos pid) faulting s =
      read_for (λ t. t.rt_priority) false (find_process_by_pid pid s) s
  sys_sched_getparam (pos pid) (param _) s =
      read_for (λ t. t.rt_priority) true (find_process_by_pid pid s) s

  unfoldable pub class_interval : SchedClass → Task → ℕ
  class_interval wrr_class t = get_rr_interval_wrr k t
  class_interval c t = k.class_rr_interval c t

  unfoldable pub sys_sched_rr_get_interval : ℤ → Bool → State → ℤ × Option (ℕ × ℕ)
  sys_sched_rr_get_interval (negsuc _) writable s = (einval, none)
  sys_sched_rr_get_interval (pos pid) writable s =
      read_for (λ t. k.jiffies_to_timespec (class_interval t.sched_class t)) writable
        (find_process_by_pid pid s) s
