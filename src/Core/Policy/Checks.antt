-- ===== src/Core/Policy/Checks.antt =====
-- What __sched_setscheduler of core.c accepts, and what it then leaves as it was.
use cs356_project.Prelude.{
  ℕ, ◌≡◌, refl, ◌<◌, ◌≤◌, arith, Bool, true, false, ◌&&◌, ◌||◌, ◌==◌, if◌then◌else◌, ℤ, pos, negsuc,
  leb, pos_part,
}
use cs356_project.Kernel.Types.{Task, State}
use cs356_project.Kernel.External.{Kernel, ClassLaws, ListLaws}
use cs356_project.Kernel.Constants.{sched_wrr}
use cs356_project.Core.Sound.{Sound}
use cs356_project.Core.Policy.Request.{
  check_param, check_permission, asked_policy, asked_reset, einval, policy_known,
}
use cs356_project.Core.Policy.Change.{sched_setscheduler_common, sched_setscheduler_locked, is_stop}
use cs356_project.Core.Policy.Sound.{change_policy-Sound}

-- The priorities of each policy: 1 to 99 for the real-time ones, 0 to 99 for WRR, where they are
-- weights, and 0 for the others.
abbrev pub valid_prio : ℕ → ℕ → Bool
valid_prio policy prio =
    if policy == 1 || policy == 2
    then leb 1 prio && leb prio 99
    else if policy == 6
    then leb prio 99
    else prio == 0

-- The policies by their numbers in sched.h: SCHED_NORMAL, FIFO, RR, BATCH, IDLE and WRR.
abbrev pub listed : ℕ → Bool
listed p = p == 0 || (p == 1 || (p == 2 || (p == 3 || (p == 5 || p == 6))))

abbrev pub keeps_own : ℤ → Bool
keeps_own (pos _) = false
keeps_own (negsuc _) = true

known-listed :
    (t : Task) (policy : ℤ)
    → policy_known t policy ≡ (keeps_own policy || listed (asked_policy t policy))
unfolding asked_policy
known-listed t (pos n) = ground arith
known-listed t (negsuc n) = refl

-- A request with a priority from 0 up is valid if its policy is known (0, 1, 2, 3, 5 or 6, or the
-- task's own, which a negative policy stands for) and the priority is one of that policy; a
-- negative priority never is. All other requests get EINVAL.
pub check_param_lem :
    (t : Task) (policy : ℤ) (prio : ℕ)
    → (check_param t policy (pos prio) ≡ (
        if (keeps_own policy || listed (asked_policy t policy))
          && valid_prio (asked_policy t policy) prio
        then pos 0
        else einval))
      × (check_param t policy (negsuc prio) ≡ einval)
unfolding check_param
check_param_lem t policy prio = (rw⁻¹ (known-listed t policy) (ground arith), ground arith)

pub check_param-le :
    (t : Task) (policy prio : ℤ) → check_param t policy prio ≡ pos 0 → pos_part prio ≤ 99
unfolding check_param
check_param-le t policy prio h = ground arith

pub check_param-word :
    (t : Task) (policy prio : ℤ) → check_param t policy prio ≡ pos 0 → pos_part prio < 4294967296
check_param-word t policy prio h = omega (arith, check_param-le t policy prio h)

module _ (k : Kernel) where
  -- A request for the policy WRR on a task that has it, and is not the stop task, changes nothing,
  -- whatever weight it asks for; and it reports success, if its weight is in range and the caller
  -- has the permission. So does a request that keeps the policy (sched_setparam).
  pub sched_setscheduler-same_wrr :
      (p prio : ℕ) (policy : ℤ) (user : Bool) (s : State)
      → (s.task p).policy ≡ sched_wrr
      → asked_policy (s.task p) policy ≡ sched_wrr
      → policy_known (s.task p) policy ≡ true
      → is_stop p s.rq.stop ≡ false
      → check_permission k p (s.task p) policy (pos prio) user ≡ pos 0
      → prio ≤ 99
      → sched_setscheduler_common k p policy (pos prio) user s ≡ (s, pos 0)
  unfolding sched_setscheduler_common sched_setscheduler_locked
  sched_setscheduler-same_wrr p prio policy user s own asked known run may h =
      ground (arith, check_param_lem (s.task p) policy prio, known-listed (s.task p) policy)

module _ (k : Kernel) (l : ListLaws k.lists) (laws : ClassLaws k) where
  -- A request keeps WRR's run queue sound, whether it is refused or carried out.
  pub sched_setscheduler-Sound :
      (p : ℕ) (policy prio : ℤ) (user : Bool) (s : State)
      → Sound s
      → Sound (sched_setscheduler_common k p policy prio user s).0
  unfolding sched_setscheduler_common sched_setscheduler_locked
  sched_setscheduler-Sound p policy prio user s v =
      let t = s.task p in
      ground (
        arith,
        λ (h : check_param t policy prio ≡ pos 0).
            change_policy-Sound k l laws p (asked_policy t policy) (pos_part prio)
              (asked_reset t policy) s (check_param-word t policy prio h) v,
      )
