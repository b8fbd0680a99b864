-- ===== src/Core/Policy/Request.antt =====
-- The checks of __sched_setscheduler in core.c, before anything is changed. An answer of 0 means
-- that the check is passed; the error numbers are negative.
use cs356_project.Prelude.{
  ℕ, ◌-◌, ◌/◌, ◌%◌, Bool, true, false, not, ◌&&◌, ◌||◌, ℤ, pos, negsuc, ltb_ℤ, eqb_ℤ, ◌==◌,
  if◌then◌else◌, ◌-ℤ◌,
}
use cs356_project.Kernel.Types.{Task, State}
use cs356_project.Kernel.External.{Kernel}
use cs356_project.Kernel.Constants.{
  sched_normal, sched_fifo, sched_rr, sched_batch, sched_idle, sched_wrr,
}
use cs356_project.Core.Prio.{rt_policy, task_nice}

abbrev pub einval : ℤ
einval = negsuc 21

abbrev pub eperm : ℤ
eperm = negsuc 0

abbrev pub esrch : ℤ
esrch = negsuc 2

abbrev pub efault : ℤ
efault = negsuc 13

-- The flag SCHED_RESET_ON_FORK, bit 30 of a policy that is not negative, and the rest.
abbrev pub has_reset_flag : ℕ → Bool
has_reset_flag policy = policy / 0x40000000 % 2 == 1

abbrev pub without_reset_flag : ℕ → ℕ
without_reset_flag policy = if has_reset_flag policy then policy - 0x40000000 else policy

-- The policy and the flag that a request asks for; a negative policy keeps the task's own.
unfoldable pub asked_policy : Task → ℤ → ℕ
asked_policy t (pos policy) = without_reset_flag policy
asked_policy t (negsuc _) = t.policy

unfoldable pub asked_reset : Task → ℤ → Bool
asked_reset t (pos policy) = has_reset_flag policy
asked_reset t (negsuc _) = t.sched_reset_on_fork

abbrev pub known_policy : ℕ → Bool
known_policy p =
    p == sched_fifo
    || (p == sched_rr
        || (p == sched_wrr || (p == sched_normal || (p == sched_batch || p == sched_idle))))

-- A policy that the task keeps is not looked at.
abbrev pub policy_known : Task → ℤ → Bool
policy_known t (pos policy) = known_policy (without_reset_flag policy)
policy_known t (negsuc _) = true

-- The limits on the priority are MAX_USER_RT_PRIO-1 for a task with memory of its own and
-- MAX_RT_PRIO-1 for a kernel thread: both are 99.
unfoldable pub check_param : Task → ℤ → ℤ → ℤ
unfolding asked_policy
check_param t policy prio =
    let asked = asked_policy t policy in
    if not (policy_known t policy)
    then einval
    else if ltb_ℤ prio (pos 0) || (t.mm && ltb_ℤ (pos 99) prio || not t.mm && ltb_ℤ (pos 99) prio)
    then einval
    else if (rt_policy asked && eqb_ℤ prio (pos 0)
          || not (rt_policy asked) && not (eqb_ℤ prio (pos 0)))
        && not (asked == sched_wrr && ltb_ℤ (pos 0) prio)
    then einval
    else pos 0

module _ (k : Kernel) where
  unfoldable pub can_nice : ℕ → ℤ → Bool
  unfolding ◌-ℤ◌
  can_nice p nice = not (ltb_ℤ (k.rlimit_nice p) (pos 20 -ℤ nice)) || k.capable_sys_nice

  -- The rules for a real-time policy, by the limit RLIMIT_RTPRIO.
  unfoldable pub check_rtprio : ℕ → Task → ℕ → ℤ → ℤ
  check_rtprio p t asked prio =
      let limit = k.rlimit_rtprio p in
      if not (rt_policy asked)
      then pos 0
      else if not (asked == t.policy) && limit == 0
      then eperm
      else if ltb_ℤ (pos t.rt_priority) prio && ltb_ℤ (pos limit) prio
      then eperm
      else pos 0

  -- The caller's effective user is the task's, in the same name space.
  unfoldable pub check_same_owner : ℕ → Bool
  check_same_owner p =
      if k.current_user_ns == k.cred_user_ns p
      then k.current_euid == k.cred_euid p || k.current_euid == k.cred_uid p
      else false

  -- The rules for a caller without CAP_SYS_NICE.
  unfoldable pub check_unprivileged : ℕ → Task → ℤ → ℤ → ℤ
  unfolding check_rtprio asked_policy asked_reset check_same_owner
  check_unprivileged p t policy prio =
      let asked = asked_policy t policy in
      let rt = check_rtprio p t asked prio in
      if not (eqb_ℤ rt (pos 0))
      then rt
      else if t.policy == sched_idle && not (asked == sched_idle) && not (can_nice p (task_nice t))
      then eperm
      else if not (check_same_owner p)
      then eperm
      else if t.sched_reset_on_fork && not (asked_reset t policy)
      then eperm
      else pos 0

  unfoldable pub check_permission : ℕ → Task → ℤ → ℤ → Bool → ℤ
  check_permission p t policy prio user =
      if not user
      then pos 0
      else let denied = if k.capable_sys_nice then pos 0 else check_unprivileged p t policy prio in
        if not (eqb_ℤ denied (pos 0)) then denied else k.security_setscheduler p

  -- A user may not make a task real-time in a group without bandwidth.
  unfoldable pub check_bandwidth : State → Task → ℕ → Bool → ℤ
  check_bandwidth s t asked user =
      if user
        && (k.rt_bandwidth_enabled
            && (rt_policy asked
                && ((s.rt.group t.sched_task_group).rt_runtime == 0
                    && not (k.group_is_autogroup t.sched_task_group))))
      then eperm
      else pos 0
