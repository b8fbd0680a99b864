-- ===== src/Core/Policy/Callers.antt =====
-- Who may make a task a WRR task (core.c).
use cs356_project.Prelude.{ℕ, ℤ, pos, ◌≡◌, arith, true, false, not, ◌&&◌, ◌==◌, if◌then◌else◌}
use cs356_project.Kernel.Types.{Task}
use cs356_project.Kernel.External.{Kernel}
use cs356_project.Core.Policy.Request.{
  check_permission, check_unprivileged, check_rtprio, check_same_owner, asked_policy, asked_reset,
  eperm,
}

module _ (k : Kernel) where
  -- A user without CAP_SYS_NICE gives a task of its own, which is not SCHED_IDLE and has no reset
  -- flag, the policy WRR: only the security module is asked, and the limits on real-time priorities
  -- and nice values do not count, whatever weight is asked for. If the task is not the caller's, or
  -- has the flag, the answer is EPERM.
  pub check_permission-wrr :
      (p : ℕ) (t : Task) (prio : ℤ)
      → k.capable_sys_nice ≡ false
      → (t.policy == 5) ≡ false
      → check_permission k p t (pos 6) prio true ≡ (
          if check_same_owner k p && not t.sched_reset_on_fork
          then k.security_setscheduler p
          else eperm)
  unfolding check_permission check_unprivileged check_rtprio asked_policy asked_reset
  check_permission-wrr p t prio c i = ground arith
