-- ===== src/Core/Ready/Machine.antt =====
-- The scheduler in motion, Core.Live.Machine: no entry of core.c can stop the kernel.
use cs356_project.Prelude.{◌≡◌, ◌≤◌, ◌∙◌, subst, sym, Bool}
use cs356_project.Kernel.Types.{State, done, finished}
use cs356_project.Kernel.External.{Kernel, ClassLaws, ListLaws, IdleLaw}
use cs356_project.Core.Switch.{scheduler_tick, schedule_pass, sched_yield}
use cs356_project.Core.Live.State.{Live}
use cs356_project.Core.Live.Switches.{schedule_pass-Live}
use cs356_project.Core.Live.Ticks.{curr-queued, sched_yield-Live}
use cs356_project.Core.Live.Machine.{
  Step, ticks, schedules, yields, wakes, starts, sets_policy, inherits, renices, moves, completes,
  completes_all, Reach, here, next, Reach-Live,
}
use cs356_project.Core.Ready.State.{Ready, Ends-done}
use cs356_project.Core.Ready.Wakes.{
  try_to_wake_up-Ready, wake_up_new_task-Ready, complete-Ready, complete_all-Ready,
}
use cs356_project.Core.Ready.Switches.{schedule_pass-Ready, sched_yield-Ready, scheduler_tick-Ready}
use cs356_project.Core.Ready.Changes.{
  sched_setscheduler-Ready, rt_mutex_setprio-Ready, set_user_nice-Ready, sched_move_task-Ready,
}

module _ (k : Kernel) (l : ListLaws k.lists) (laws : ClassLaws k) (idle : IdleLaw k)
    (fast : 100 ≤ k.hz) (slow : k.hz ≤ 10000) where
  Step-Ready : {s t : State} → Step k s t → Live s → Ready s → Ready t
  Step-Ready (ticks s t e) v r =
      let (u, run, w) = scheduler_tick-Ready k l laws fast slow s (curr-queued s v) r in
      subst Ready (finished (sym run ∙ e)) w
  Step-Ready (schedules b s t e) v r =
      Ends-done Ready _ t (schedule_pass-Ready k l laws fast slow b s r) e
  Step-Ready (yields s t e) v r =
      Ends-done Ready _ t (sched_yield-Ready k l laws fast slow s (curr-queued s v) r) e
  Step-Ready (wakes p mask flags s) v r = try_to_wake_up-Ready k l laws fast slow p mask flags s r
  Step-Ready (starts p s off) v r = wake_up_new_task-Ready k l laws fast slow p s r
  Step-Ready (sets_policy p policy prio user s m) v r =
      sched_setscheduler-Ready k l laws fast slow p policy prio user s r
  Step-Ready (inherits p prio s t m e) v r =
      Ends-done Ready _ t (rt_mutex_setprio-Ready k l laws fast slow p prio s r) e
  Step-Ready (renices p nice s m) v r = set_user_nice-Ready k l laws fast slow p nice s r
  Step-Ready (moves p tg s m) v r = sched_move_task-Ready k l laws fast slow p tg s r
  Step-Ready (completes x s) v r = complete-Ready k l laws fast slow x s r
  Step-Ready (completes_all x s) v r = complete_all-Ready k l laws fast slow x s r

  pub Reach-Ready : {s t : State} → Reach k s t → Live s → Ready s → Ready t
  Reach-Ready here v r = r
  Reach-Ready (next q e) v r = Step-Ready e (Reach-Live k l laws idle q v) (Reach-Ready q v r)

  -- Let a state be reached by steps of any kind, in any order, from one that meets the invariant, in
  -- which every weight that was asked for is from 1 to 99, and every queued WRR task has a weight
  -- from 1 to 99 and slice left. Then, with 100 to 10,000 ticks a second, a tick, a pass of the
  -- scheduler and a yield do not stop the kernel there.
  pub Reach-survives :
      {s t : State}
      → Reach k s t
      → Live s
      → Ready s
      → ((u : State) × (scheduler_tick k t ≡ done u))
        × ((preempted : Bool) → (u : State) × (schedule_pass k preempted t ≡ done u))
        × ((u : State) × (sched_yield k t ≡ done u))
  Reach-survives {s} {t} q v r =
      let w = Reach-Live k l laws idle q v in
      let (u, run, _) =
        scheduler_tick-Ready k l laws fast slow t (curr-queued t w) (Reach-Ready q v r) in
      let (x, yielded, _) = sched_yield-Live k l laws idle t w in
      (
        (u, run),
        λ b. let (y, passed, _) = schedule_pass-Live k l laws idle b t w in (y, passed),
        (x, yielded),
      )
