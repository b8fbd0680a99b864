-- ===== src/Core/Ready/Wakes.antt =====
-- Wake-ups, first wake-ups and completions of core.c leave slice to all queued WRR tasks.
use Prim.Native.Nat.{bit_and}
use cs356_project.Prelude.{
  ℕ, ◌≤◌, refl, arith, not, List, [], ◌∷◌, Option, some, none, ◌==◌, if◌then◌else◌,
}
use cs356_project.Kernel.Types.{State}
use cs356_project.Kernel.External.{Kernel, ClassLaws, ListLaws}
use cs356_project.Kernel.Constants.{wrr_fg_weight, wrr_bg_weight, task_normal}
use cs356_project.Wrr.Weight.{full_slice}
use cs356_project.Wrr.RoundRobin.View.{Still}
use cs356_project.Core.Switch.{wake_worker}
use cs356_project.Core.Wake.{
  ttwu_activate, ttwu_do_wakeup, ttwu_do_activate, ttwu_remote, ttwu_queue, try_to_wake_up,
  try_to_wake_up_local,
}
use cs356_project.Core.Fork.{
  core_group_path, wrr_if_fg, set_group_weight, wrr_set_weight, wake_up_new_task,
}
use cs356_project.Core.Waiters.{
  Waiter, Completion, wake_up_common, default_wake_function, complete, complete_all,
}
use cs356_project.Core.Ready.State.{
  Ready, Weighs, Still-Ready, same-Ready, task-Ready, if-Ready, if-result-Ready,
}
use cs356_project.Core.Ready.Queue.{full_slice-Weighs}
use cs356_project.Core.Ready.Calls.{activate_task-Ready, check_preempt_curr-Still}

module _ (k : Kernel) (l : ListLaws k.lists) (laws : ClassLaws k) (fast : 100 ≤ k.hz)
    (slow : k.hz ≤ 10000) where
  pub ttwu_activate-Ready : (p flags : ℕ) (s : State) → Ready s → Ready (ttwu_activate k p flags s)
  unfolding ttwu_activate
  ttwu_activate-Ready p flags s v =
      same-Ready p _ _ refl (activate_task-Ready k l laws fast slow p flags s v)

  pub ttwu_do_wakeup-Ready :
      (p flags : ℕ) (s : State) → Ready s → Ready (ttwu_do_wakeup k p flags s)
  unfolding ttwu_do_wakeup
  ttwu_do_wakeup-Ready p flags s v =
      same-Ready p _ _ refl (Still-Ready (check_preempt_curr-Still k l laws p flags s) v)

  ttwu_queue-Ready : (p : ℕ) (s : State) → Ready s → Ready (ttwu_queue k p s)
  unfolding ttwu_queue ttwu_do_activate
  ttwu_queue-Ready p s v = ttwu_do_wakeup-Ready p 0 _ (ttwu_activate-Ready p 1 s v)

  ttwu_remote-Ready : (p flags : ℕ) (s : State) → Ready s → Ready (ttwu_remote k p flags s).0
  unfolding ttwu_remote
  ttwu_remote-Ready p flags s v =
      if-result-Ready (s.task p).on_rq _ _ (ttwu_do_wakeup-Ready p flags s v) v

  pub try_to_wake_up-Ready :
      (p mask flags : ℕ) (s : State) → Ready s → Ready (try_to_wake_up k p mask flags s).0
  unfolding try_to_wake_up
  try_to_wake_up-Ready p mask flags s v =
      let r = ttwu_remote k p flags s in
      let v' = ttwu_remote-Ready p flags s v in
      if-result-Ready (bit_and (s.task p).state mask == 0) _ _ v
        (if-result-Ready r.1 _ _ v' (ttwu_queue-Ready p r.0 v'))

  try_to_wake_up_local-Ready : (p : ℕ) (s : State) → Ready s → Ready (try_to_wake_up_local k p s)
  unfolding try_to_wake_up_local
  try_to_wake_up_local-Ready p s v =
      let v' = if-Ready (not (s.task p).on_rq) (ttwu_activate-Ready p 1 s v) v in
      if-Ready _ v (if-Ready _ v (ttwu_do_wakeup-Ready p 0 _ v'))

  pub wake_worker-Ready : (w : Option ℕ) (s : State) → Ready s → Ready (wake_worker k w s)
  wake_worker-Ready none s v = v
  wake_worker-Ready (some w) s v = try_to_wake_up_local-Ready w s v

  wake_up_common-Ready :
      (q : List Waiter) (mode n flags : ℕ) (s : State)
      → Ready s
      → Ready (wake_up_common k q mode n flags s)
  unfolding wake_up_common default_wake_function
  wake_up_common-Ready [] mode n flags s v = v
  wake_up_common-Ready (w ∷ q) mode n flags s v =
      let v' = try_to_wake_up-Ready w.task mode flags s v in
      if-Ready _ v' (wake_up_common-Ready q mode _ flags _ v')

  pub complete-Ready : (x : Completion) (s : State) → Ready s → Ready (complete k x s).1
  unfolding complete
  complete-Ready x s v = wake_up_common-Ready x.wait task_normal 1 0 s v

  pub complete_all-Ready : (x : Completion) (s : State) → Ready s → Ready (complete_all k x s).1
  unfolding complete_all
  complete_all-Ready x s v = wake_up_common-Ready x.wait task_normal 0 0 s v

module _ (k : Kernel) where
  core_path-Still : (g : ℕ) (s : State) → Still s (core_group_path k g s)
  unfolding core_group_path
  core_path-Still g s = record { wrr_kept = ground arith; entity_kept = λ q. ground arith }

  group_weight-Ready : (p : ℕ) (s : State) → Ready s → Ready (set_group_weight k p s)
  unfolding set_group_weight wrr_if_fg
  group_weight-Ready p s v =
      let s' = core_group_path k (s.task p).sched_task_group s in
      let v' = Still-Ready (core_path-Still (s.task p).sched_task_group s) v in
      let w = if not (s'.core_path 1 == b'b') then wrr_fg_weight else wrr_bg_weight in
      let t = record (s'.task p) { wrr = record (s'.task p).wrr { weight = w } } in
      let weighs : Weighs t.wrr = (ground arith, ground arith) in
      if-Ready ((s.task p).wrr.custom_weight == 0)
        (task-Ready p t s' (λ _. weighs) (λ h. (weighs, (v'.armed p h).1)) v') v

  group_weight-Weighs : (p : ℕ) (s : State) → Ready s → Weighs ((set_group_weight k p s).task p).wrr
  unfolding set_group_weight wrr_if_fg
  group_weight-Weighs p s v = let tame = v.tame p in (ground (arith, tame), ground (arith, tame))

module _ (k : Kernel) (l : ListLaws k.lists) (laws : ClassLaws k) (fast : 100 ≤ k.hz)
    (slow : k.hz ≤ 10000) where
  wrr_set_weight-Ready : (p : ℕ) (s : State) → Ready s → Ready (wrr_set_weight k p s)
  unfolding wrr_set_weight
  wrr_set_weight-Ready p s v =
      let s' = set_group_weight k p s in
      let v' = group_weight-Ready k p s v in
      let w = group_weight-Weighs k p s v in
      let e = (s'.task p).wrr in
      if-Ready _
        (task-Ready p (record (s'.task p) { wrr = record e { time_slice = full_slice k e.weight } })
          s' (λ _. w) (λ _. (w, full_slice-Weighs k fast slow e.weight w.0 w.1)) v')
        v'

  pub wake_up_new_task-Ready : (p : ℕ) (s : State) → Ready s → Ready (wake_up_new_task k p s)
  unfolding wake_up_new_task
  wake_up_new_task-Ready p s v =
      let v' = activate_task-Ready k l laws fast slow p 0 _ (wrr_set_weight-Ready p s v) in
      Still-Ready (check_preempt_curr-Still k l laws p 2 _) (same-Ready p _ _ refl v')
