-- ===== src/Core/Policy/Change.antt =====
-- The changes themselves: core.c (__setscheduler, __sched_setscheduler and its two callers,
-- rt_mutex_setprio, normalize_task). One call is not interleaved with another change of the same
-- task, so the policy that was read without the lock is still the task's when the lock is held, and
-- the code does not go back to `recheck`.
use cs356_project.Prelude.{
  ℕ, Bool, true, false, not, ◌&&◌, ◌||◌, Option, some, none, ℤ, pos, ltb_ℤ, eqb_ℤ, pos_part, ◌==◌,
  if◌then◌else◌,
}
use cs356_project.Kernel.Types.{
  SchedClass, rt_class, wrr_class, fair_class, Task, WrrEntity, State, Outcome, bug, done, set_task,
}
use cs356_project.Kernel.External.{Kernel}
use cs356_project.Kernel.Constants.{sched_normal, sched_wrr, enqueue_head, max_prio}
use cs356_project.Core.Prio.{rt_prio, rt_policy, normal_prio, set_load_weight}
use cs356_project.Core.Classes.{
  enqueue_task, dequeue_task, class_put_prev, class_set_curr, check_class_changed, resched_task,
}
use cs356_project.Core.Policy.Request.{
  asked_policy, asked_reset, check_param, check_permission, check_bandwidth, einval,
}

-- The class of a task, by its priority and policy.
abbrev pub class_for : ℤ → ℕ → SchedClass
class_for prio policy =
    if rt_prio prio then rt_class else if policy == sched_wrr then wrr_class else fair_class

-- The weight of a WRR task is what the user passes as priority; 0 gives it back to the groups.
abbrev pub entity_for : ℕ → WrrEntity → WrrEntity
entity_for prio e =
    if prio == 0
    then record e { weight = 1; custom_weight = 0 }
    else record e { weight = prio; custom_weight = 1 }

-- The first half of __setscheduler, up to the normal priority.
unfoldable pub write_policy : ℕ → ℕ → ℕ → State → State
unfolding normal_prio
write_policy p policy prio s =
    let t = record (s.task p) { policy = policy } in
    let t' =
      if policy == sched_wrr
      then record t { rt_priority = 0; wrr = entity_for prio t.wrr }
      else record t { rt_priority = prio } in
    set_task p (record t' { normal_prio = normal_prio t' }) s

-- Writes a priority and the class that goes with it.
unfoldable pub write_class : ℕ → ℤ → State → State
write_class p prio s =
    set_task p (record (s.task p) { prio = prio; sched_class = class_for prio (s.task p).policy }) s

abbrev pub is_stop : ℕ → Option ℕ → Bool
is_stop p none = false
is_stop p (some q) = p == q

-- Nothing to do: the same policy, and for a real-time policy the same priority.
abbrev pub unchanged : Task → ℕ → ℤ → Bool
unchanged t policy prio =
    policy == t.policy && (not (rt_policy policy) || eqb_ℤ prio (pos t.rt_priority))

module _ (k : Kernel) where
  unfoldable pub setscheduler : ℕ → ℕ → ℕ → State → State
  setscheduler p policy prio s =
      let s' = write_policy p policy prio s in
      set_load_weight p (write_class p (k.rt_mutex_getprio s' p) s')

  -- Takes a task off its queue, and puts it back after a change, as all callers do.
  unfoldable pub take_off : ℕ → Bool → Bool → State → State
  take_off p on_rq running s =
      let s' = if on_rq then dequeue_task k p 0 s else s in
      if running then class_put_prev k (s'.task p).sched_class p s' else s'

  unfoldable pub put_back : ℕ → ℕ → Bool → Bool → State → State
  put_back p flags on_rq running s =
      let s' = if running then class_set_curr k (s.task p).sched_class s else s in
      if on_rq then enqueue_task k p flags s' else s'

  -- The part of __sched_setscheduler that runs once all checks are passed.
  unfoldable pub change_policy : ℕ → ℕ → ℕ → Bool → State → State
  change_policy p policy prio reset s =
      let t = s.task p in
      let running = s.rq.curr == p in
      let s1 = take_off p t.on_rq running s in
      let s2 = set_task p (record (s1.task p) { sched_reset_on_fork = reset }) s1 in
      let prev = s2.task p in
      let s3 = setscheduler p policy prio s2 in
      check_class_changed k p prev.sched_class prev.prio (put_back p 0 t.on_rq running s3)

  unfoldable pub sched_setscheduler_locked : ℕ → ℤ → ℤ → Bool → State → State × ℤ
  sched_setscheduler_locked p policy prio user s =
      let t = s.task p in
      let asked = asked_policy t policy in
      let denied = check_bandwidth k s t asked user in
      if is_stop p s.rq.stop
      then (s, einval)
      else if unchanged t asked prio
      then (s, pos 0)
      else if not (eqb_ℤ denied (pos 0))
      then (s, denied)
      else (change_policy p asked (pos_part prio) (asked_reset t policy) s, pos 0)

  unfoldable pub sched_setscheduler_common : ℕ → ℤ → ℤ → Bool → State → State × ℤ
  sched_setscheduler_common p policy prio user s =
      let t = s.task p in
      let invalid = check_param t policy prio in
      let denied = check_permission k p t policy prio user in
      if not (eqb_ℤ invalid (pos 0))
      then (s, invalid)
      else if not (eqb_ℤ denied (pos 0))
      then (s, denied)
      else sched_setscheduler_locked p policy prio user s

  unfoldable pub sched_setscheduler : ℕ → ℤ → ℤ → State → State × ℤ
  sched_setscheduler p policy prio s = sched_setscheduler_common p policy prio true s

  unfoldable pub sched_setscheduler_nocheck : ℕ → ℤ → ℤ → State → State × ℤ
  sched_setscheduler_nocheck p policy prio s = sched_setscheduler_common p policy prio false s

  -- Priority inheritance: a boost into the real-time range changes the class, and so does its end.
  unfoldable pub boost : ℕ → ℤ → State → State
  boost p prio s =
      let t = s.task p in
      let running = s.rq.curr == p in
      let s1 = take_off p t.on_rq running s in
      let s2 = write_class p prio s1 in
      let flags = if ltb_ℤ t.prio prio then enqueue_head else 0 in
      check_class_changed k p t.sched_class t.prio (put_back p flags t.on_rq running s2)

  unfoldable pub rt_mutex_setprio : ℕ → ℤ → State → Outcome State
  rt_mutex_setprio p prio s =
      if ltb_ℤ prio (pos 0) || ltb_ℤ (pos max_prio) prio
      then bug
      else if p == s.rq.idle
      then done s
      else done (boost p prio s)

  unfoldable pub normalize_task : ℕ → State → State
  normalize_task p s =
      let t = s.task p in
      let s1 = if t.on_rq then dequeue_task k p 0 s else s in
      let s2 = setscheduler p sched_normal 0 s1 in
      let s3 = if t.on_rq then resched_task s.rq.curr (enqueue_task k p 0 s2) else s2 in
      check_class_changed k p t.sched_class t.prio s3
