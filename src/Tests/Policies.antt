-- ===== src/Tests/Policies.antt =====
-- core.c on the sample machine.
use cs356_project.Prelude.{
  ◌||◌, Bool, ℕ, some, ◌≡◌, refl, arith, [], ◌∷◌, ◌++◌, false, true, if◌then◌else◌, ◌&&◌, pos,
  negsuc, remove,
}
use cs356_project.Kernel.Types.{State, done}
use cs356_project.Kernel.Constants.{sched_wrr}
use cs356_project.Core.Sound.{Sound}
use cs356_project.Core.Policy.Request.{check_param, check_permission, asked_policy, einval}
use cs356_project.Core.Policy.Change.{sched_setscheduler_common, change_policy, rt_mutex_setprio}
use cs356_project.Core.Policy.Checks.{
  valid_prio, keeps_own, listed, check_param_lem, sched_setscheduler-same_wrr,
  sched_setscheduler-Sound,
}
use cs356_project.Core.Policy.Sound.{change_policy-Sound, rt_mutex_setprio-Sound}
use cs356_project.Core.Policy.Weights.{own_entity}
use cs356_project.Core.Policy.Joins.{change_policy-joins}
use cs356_project.Core.Wake.{try_to_wake_up}
use cs356_project.Core.Fork.{wake_up_new_task}
use cs356_project.Core.Live.State.{Live}
use cs356_project.Core.Live.Wakes.{try_to_wake_up-Live}
use cs356_project.Core.Live.Starts.{wake_up_new_task-Live}
use cs356_project.Core.Switch.{pick_next_task, schedule_pass, scheduler_tick, sched_yield}
use cs356_project.Core.Live.Picks.{Picked, pick_next_task-Picked}
use cs356_project.Core.Live.Switches.{schedule_pass-Live}
use cs356_project.Core.Live.Ticks.{scheduler_tick-Live, sched_yield-Live}
use cs356_project.Core.Nice.{set_user_nice}
use cs356_project.Core.Live.Nices.{set_user_nice-Live}
use cs356_project.Core.Ready.State.{Ready}
use cs356_project.Core.Ready.Machine.{Reach-survives}
use cs356_project.Core.Live.Machine.{Reach, here, next, wakes, sets_policy, Reach-Live}
use cs356_project.Tests.Samples.{kernel, list_laws, class_laws, idle_law, machine, machine-Sound}

pub machine-Live : Live machine
machine-Live = record { sound = machine-Sound; running = λ w. refl; idle_own = refl }

sched_setscheduler-Sound_example :
    Sound (sched_setscheduler_common kernel 4 (pos 6) (pos 20) true machine).0
sched_setscheduler-Sound_example =
    sched_setscheduler-Sound kernel list_laws class_laws 4 (pos 6) (pos 20) true machine
      machine-Sound

-- Task 1 weighs 10; its request for 50 is lost.
same_wrr_example :
    sched_setscheduler_common kernel 1 (pos 6) (pos 50) true machine ≡ (machine, pos 0)
unfolding asked_policy check_permission
same_wrr_example =
    sched_setscheduler-same_wrr kernel 1 50 (pos 6) true machine refl refl refl refl refl
      (omega arith)

check_param_example :
    (check_param (machine.task 4) (pos 6) (pos 0) ≡ (
      if (keeps_own (pos 6) || listed (asked_policy (machine.task 4) (pos 6)))
        && valid_prio (asked_policy (machine.task 4) (pos 6)) 0
      then pos 0
      else einval))
    × (check_param (machine.task 4) (pos 6) (negsuc 0) ≡ einval)
check_param_example = check_param_lem (machine.task 4) (pos 6) 0

change_policy-joins_example :
    (((change_policy kernel 4 sched_wrr 20 false machine).task 4).wrr ≡ own_entity kernel 20)
    × ((change_policy kernel 4 sched_wrr 20 false machine).rq.wrr.active
        ≡ remove 4 machine.rq.wrr.active ++ 4 ∷ [])
change_policy-joins_example =
    change_policy-joins kernel list_laws class_laws 4 20 false machine machine-Sound refl refl
      (omega arith) (λ u. refl) refl

change_policy-Sound_example : Sound (change_policy kernel 1 0 0 false machine)
change_policy-Sound_example =
    change_policy-Sound kernel list_laws class_laws 1 0 0 false machine (omega arith) machine-Sound

rt_mutex_setprio-Sound_example :
    (t : State) × (rt_mutex_setprio kernel 2 (pos 10) machine ≡ done t) × Sound t
rt_mutex_setprio-Sound_example =
    rt_mutex_setprio-Sound kernel list_laws class_laws 2 (pos 10) machine refl refl machine-Sound

try_to_wake_up-Live_example : Live (try_to_wake_up kernel 5 3 0 machine).0
try_to_wake_up-Live_example =
    try_to_wake_up-Live kernel list_laws class_laws 5 3 0 machine machine-Live

wake_up_new_task-Live_example : Live (wake_up_new_task kernel 6 machine)
wake_up_new_task-Live_example =
    wake_up_new_task-Live kernel list_laws class_laws 6 machine refl machine-Live

pick_next_task-Picked_example :
    (p : ℕ) × (t : State) × (pick_next_task kernel machine ≡ done (some p, t))
    × Picked machine (some p, t)
pick_next_task-Picked_example =
    pick_next_task-Picked kernel list_laws class_laws idle_law machine machine-Sound refl

schedule_pass-Live_example : (t : State) × (schedule_pass kernel true machine ≡ done t) × Live t
schedule_pass-Live_example =
    schedule_pass-Live kernel list_laws class_laws idle_law true machine machine-Live

sched_yield-Live_example : (t : State) × (sched_yield kernel machine ≡ done t) × Live t
sched_yield-Live_example =
    sched_yield-Live kernel list_laws class_laws idle_law machine machine-Live

scheduler_tick-Live_example : (t : State) × (scheduler_tick kernel machine ≡ done t) × Live t
scheduler_tick-Live_example =
    scheduler_tick-Live kernel list_laws class_laws machine (λ w. omega arith) machine-Live

-- Task 4 becomes a WRR task, and then task 5 is woken.
abbrev changed : State
changed = (sched_setscheduler_common kernel 4 (pos 6) (pos 20) true machine).0

abbrev route : Reach kernel machine (try_to_wake_up kernel 5 3 0 changed).0
route =
    next (next here (sets_policy 4 (pos 6) (pos 20) true machine (refl, λ e. refl)))
      (wakes 5 3 0 changed)

Reach-Live_example : Live (try_to_wake_up kernel 5 3 0 changed).0
Reach-Live_example = Reach-Live kernel list_laws class_laws idle_law route machine-Live

set_user_nice-Live_example : Live (set_user_nice kernel 1 (pos 5) machine)
set_user_nice-Live_example =
    set_user_nice-Live kernel list_laws class_laws 1 (pos 5) machine refl (λ e. refl) machine-Live

machine-Ready : Ready machine
machine-Ready = record {
  tame = λ p h. (ground (arith, h), ground (arith, h));
  armed = λ p h. ((ground (arith, h), ground (arith, h)), ground (arith, h));
}

Reach-survives_example :
    let s = (try_to_wake_up kernel 5 3 0 changed).0 in
    ((u : State) × (scheduler_tick kernel s ≡ done u))
    × ((preempted : Bool) → (u : State) × (schedule_pass kernel preempted s ≡ done u))
    × ((u : State) × (sched_yield kernel s ≡ done u))
Reach-survives_example =
    Reach-survives kernel list_laws class_laws idle_law (omega arith) (omega arith) route
      machine-Live machine-Ready
