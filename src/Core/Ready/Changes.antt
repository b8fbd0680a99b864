-- ===== src/Core/Ready/Changes.antt =====
-- Changes of policy, priority, nice value and group (core.c) leave slice to all queued WRR tasks.
use cs356_project.Prelude.{
  ℕ, ◌≡◌, ◌≤◌, refl, arith, Bool, ◌||◌, ◌==◌, Bool-cases, inl, inr, ℤ, pos, pos_part, ltb_ℤ, eqb_ℤ,
}
use cs356_project.Kernel.Types.{SchedClass, fair_class, WrrEntity, State}
use cs356_project.Kernel.External.{Kernel, ClassLaws, ListLaws, move_group_op}
use cs356_project.Kernel.Constants.{sched_wrr}
use cs356_project.Wrr.RoundRobin.View.{Still}
use cs356_project.Rt.Memory.{set_task_rq}
use cs356_project.Core.Prio.{nice_to_prio, set_load_weight, effective_prio}
use cs356_project.Core.Policy.Request.{check_param, asked_policy}
use cs356_project.Core.Policy.Checks.{check_param-le}
use cs356_project.Core.Policy.Change.{
  entity_for, write_policy, write_class, setscheduler, take_off, put_back, change_policy,
  sched_setscheduler_locked, sched_setscheduler_common, is_stop, unchanged, boost, rt_mutex_setprio,
}
use cs356_project.Core.Nice.{write_nice, renice_queued, renice, set_user_nice}
use cs356_project.Core.Groups.{class_move_group, sched_move_task}
use cs356_project.Core.Policy.Weights.{Frame-Still, set_curr-Still, check_class_changed-Still}
use cs356_project.Core.Ready.State.{
  Weighs, Ready, Still-Ready, task-Ready, same-Ready, if-Ready, if-result-Ready, Ends, if-Ends,
}
use cs356_project.Core.Ready.Calls.{
  enqueue_task-Ready, dequeue_task-Ready, class_put_prev-Still, resched_task-Still,
}

load_weight-Ready : (p : ℕ) (s : State) → Ready s → Ready (set_load_weight p s)
unfolding set_load_weight
load_weight-Ready p s v = if-Ready _ (same-Ready p _ s refl v) (same-Ready p _ s refl v)

write_class-Ready : (p : ℕ) (prio : ℤ) (s : State) → Ready s → Ready (write_class p prio s)
unfolding write_class
write_class-Ready p prio s v = same-Ready p _ s refl v

-- The weight that a request asks for, from 0 to 99, is a weight in range; the slice stays.
entity_for-Weighs : (prio : ℕ) (e : WrrEntity) → prio ≤ 99 → Weighs (entity_for prio e)
entity_for-Weighs prio e h = (ground (arith, h), ground (arith, h))

entity_for-slice : (prio : ℕ) (e : WrrEntity) → (entity_for prio e).time_slice ≡ e.time_slice
entity_for-slice prio e = ground arith

write_policy-Ready :
    (p policy prio : ℕ) (s : State) → prio ≤ 99 → Ready s → Ready (write_policy p policy prio s)
unfolding write_policy
write_policy-Ready p policy prio s h v =
    let e = (s.task p).wrr in
    let w = entity_for-Weighs prio e h in
    elim (Bool-cases (policy == sched_wrr)) [
      | inl wrr ↦
          rw wrr
            (task-Ready p _ s (λ _. w) (λ on. (w, rw (entity_for-slice prio e) (v.armed p on).1)) v)
      | inr other ↦ rw other (same-Ready p _ s refl v)
    ]

module _ (k : Kernel) where
  setscheduler-Ready :
      (p policy prio : ℕ) (s : State) → prio ≤ 99 → Ready s → Ready (setscheduler k p policy prio s)
  unfolding setscheduler
  setscheduler-Ready p policy prio s h v =
      load_weight-Ready p _ (write_class-Ready p _ _ (write_policy-Ready p policy prio s h v))

module _ (k : Kernel) (l : ListLaws k.lists) (laws : ClassLaws k) (fast : 100 ≤ k.hz)
    (slow : k.hz ≤ 10000) where
  take_off-Ready :
      (p : ℕ) (on_rq running : Bool) (s : State) → Ready s → Ready (take_off k p on_rq running s)
  unfolding take_off
  take_off-Ready p on_rq running s v =
      let v' = if-Ready on_rq (dequeue_task-Ready k l laws p 0 s v) v in
      if-Ready running (Still-Ready (class_put_prev-Still k l laws _ p _) v') v'

  put_back-Ready :
      (p flags : ℕ) (on_rq running : Bool) (s : State)
      → Ready s
      → Ready (put_back k p flags on_rq running s)
  unfolding put_back
  put_back-Ready p flags on_rq running s v =
      let v' = if-Ready running (Still-Ready (set_curr-Still k l laws _ s) v) v in
      if-Ready on_rq (enqueue_task-Ready k l laws fast slow p flags _ v') v'

  change_policy-Ready :
      (p policy prio : ℕ) (reset : Bool) (s : State)
      → prio ≤ 99
      → Ready s
      → Ready (change_policy k p policy prio reset s)
  unfolding change_policy
  change_policy-Ready p policy prio reset s h v =
      let v1 = take_off-Ready p (s.task p).on_rq (s.rq.curr == p) s v in
      let v2 = same-Ready p _ _ refl v1 in
      let v3 = setscheduler-Ready k p policy prio _ h v2 in
      Still-Ready (check_class_changed-Still k l laws p _ _ _) (put_back-Ready p 0 _ _ _ v3)

  locked-Ready :
      (p : ℕ) (policy prio : ℤ) (user : Bool) (s : State)
      → pos_part prio ≤ 99
      → Ready s
      → Ready (sched_setscheduler_locked k p policy prio user s).0
  unfolding sched_setscheduler_locked
  locked-Ready p policy prio user s h v = if-result-Ready (is_stop p s.rq.stop) _ _ v (
      if-result-Ready (unchanged (s.task p) (asked_policy (s.task p) policy) prio) _ _ v
        (if-result-Ready _ _ _ v (change_policy-Ready p _ _ _ s h v)))

  pub sched_setscheduler-Ready :
      (p : ℕ) (policy prio : ℤ) (user : Bool) (s : State)
      → Ready s
      → Ready (sched_setscheduler_common k p policy prio user s).0
  unfolding sched_setscheduler_common
  sched_setscheduler-Ready p policy prio user s v =
      let t = s.task p in
      elim (Bool-cases (eqb_ℤ (check_param t policy prio) (pos 0))) [
        | inr invalid ↦ rw invalid v
        | inl valid ↦ rw valid (
            if-result-Ready _ _ _ v (
              locked-Ready p policy prio user s
                (check_param-le t policy prio (ground (arith, valid))) v))
      ]

  pub rt_mutex_setprio-Ready :
      (p : ℕ) (prio : ℤ) (s : State) → Ready s → Ends Ready (rt_mutex_setprio k p prio s)
  unfolding rt_mutex_setprio boost
  rt_mutex_setprio-Ready p prio s v =
      let v1 = take_off-Ready p (s.task p).on_rq (s.rq.curr == p) s v in
      let v2 = write_class-Ready p prio _ v1 in
      if-Ends Ready (ltb_ℤ prio (pos 0) || ltb_ℤ (pos 140) prio) _ _ tt (
        if-Ends Ready (p == s.rq.idle) _ _ v
          (Still-Ready (check_class_changed-Still k l laws p _ _ _) (put_back-Ready p _ _ _ _ v2)))

  write_nice-Ready : (p : ℕ) (nice : ℤ) (s : State) → Ready s → Ready (write_nice p nice s)
  unfolding write_nice effective_prio
  write_nice-Ready p nice s v =
      let t = record (s.task p) { static_prio = nice_to_prio nice } in
      let v1 = load_weight-Ready p _ (same-Ready p t s refl v) in
      same-Ready p _ _ refl (same-Ready p _ _ refl v1)

  renice-Ready : (p : ℕ) (nice : ℤ) (s : State) → Ready s → Ready (renice k p nice s)
  unfolding renice renice_queued
  renice-Ready p nice s v =
      let v1 = if-Ready (s.task p).on_rq (dequeue_task-Ready k l laws p 0 s v) v in
      let v2 = write_nice-Ready p nice _ v1 in
      let v3 = enqueue_task-Ready k l laws fast slow p 0 _ v2 in
      if-Ready (s.task p).on_rq (if-Ready _ (Still-Ready (resched_task-Still _ _) v3) v3) v2

  pub set_user_nice-Ready :
      (p : ℕ) (nice : ℤ) (s : State) → Ready s → Ready (set_user_nice k p nice s)
  unfolding set_user_nice
  set_user_nice-Ready p nice s v =
      if-Ready _ v (if-Ready _ (same-Ready p _ s refl v) (renice-Ready p nice s v))

  move_group-Still :
      (c : SchedClass) (p : ℕ) (b : Bool) (s : State) → Still s (class_move_group k c p b s)
  unfolding class_move_group set_task_rq
  move_group-Still fair_class p b s = Frame-Still (laws.op_Frame fair_class move_group_op p _ s)
  move_group-Still c p b s = record { wrr_kept = refl; entity_kept = λ q. refl }

  pub sched_move_task-Ready : (p tg : ℕ) (s : State) → Ready s → Ready (sched_move_task k p tg s)
  unfolding sched_move_task
  sched_move_task-Ready p tg s v =
      let v1 = take_off-Ready p (s.task p).on_rq (s.rq.curr == p) s v in
      let v2 = same-Ready p _ _ refl v1 in
      put_back-Ready p 0 _ _ _ (Still-Ready (move_group-Still _ p _ _) v2)
