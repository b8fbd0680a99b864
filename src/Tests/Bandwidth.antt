-- ===== src/Tests/Bandwidth.antt =====
-- Real-time bandwidth on the sample machine: group 1 below the root group, with run queue 1 and
-- entity 100; task 7 is a real-time task in group 1.
use cs356_project.Prelude.{
  ◌≡◌, refl, Option, some, none, [], ◌∷◌, ℤ, pos, ◌==◌, if◌then◌else◌, true, false, eqb_ℤ, ◌⊎◌,
}
use cs356_project.Kernel.Types.{State}
use cs356_project.Core.Policy.Request.{einval}
use cs356_project.Bandwidth.Walk.{walk_step, walk_tg_tree_from}
use cs356_project.Bandwidth.Admission.{
  Sysctl, tg_set_rt_bandwidth, sched_group_set_rt_runtime, sched_group_set_rt_period, ebusy,
  rt_schedulable, tg_rt_schedulable, to_ratio, sum_ratios, tg_has_rt_tasks, global_rt_period,
  global_rt_runtime, sched_group_rt_runtime, sched_rt_global_constraints,
}
use cs356_project.Bandwidth.Tree.{Forest, leaf, grove}
use cs356_project.Bandwidth.Checked.{Granted, Refused, tg_set_rt_bandwidth_lem}
use cs356_project.Tests.Samples.{real_time}
use cs356_project.Tests.RealTime.{before}

abbrev defaults : Sysctl
defaults = record { sched_rt_period = 1000000; sched_rt_runtime = pos 950000 }

abbrev groups : State
groups = record before {
  rt = record real_time {
    group = λ g.
        if g == 0
        then record (real_time.group g) { children = 1 ∷ [] }
        else if g == 1
        then record (real_time.group g) {
          parent = some 0;
          rt_rq = 1;
          rt_se = some 100;
          rt_runtime = 100000000;
        }
        else real_time.group g;
    entity = λ e.
        if e == 7
        then record (real_time.entity e) { rt_rq = 1; parent = some 100 }
        else real_time.entity e;
  };
}

abbrev forest : Forest
forest = grove 1 leaf leaf

abbrev answer : Option (ℤ × State) → ℤ
answer (some (e, _)) = e
answer none = pos 1

-- Half of each second is admitted, and read back; more than the root group has is not, nor a period
-- of 0, and the root group cannot have less than its child, or nothing. Group 1 may have nothing
-- although it has a real-time task.
requests :
    (answer (sched_group_set_rt_runtime defaults (7 ∷ []) 9 1 (pos 500000) groups) ≡ pos 0)
    × (answer (sched_group_set_rt_runtime defaults (7 ∷ []) 9 1 (pos 960000) groups) ≡ einval)
    × (answer (sched_group_set_rt_period defaults (7 ∷ []) 9 1 (pos 0) groups) ≡ einval)
    × (answer (sched_group_set_rt_runtime defaults (7 ∷ []) 9 0 (pos 90000) groups) ≡ einval)
    × (answer (sched_group_set_rt_runtime defaults (7 ∷ []) 9 0 (pos 0) groups) ≡ ebusy)
    × (answer (sched_group_set_rt_runtime defaults (7 ∷ []) 9 1 (pos 0) groups) ≡ pos 0)
    × (sched_rt_global_constraints defaults (7 ∷ []) 9 groups ≡ some (pos 0))
    × (sched_group_rt_runtime 1 groups ≡ pos 100000)
unfolding sched_group_set_rt_runtime sched_group_set_rt_period tg_set_rt_bandwidth rt_schedulable
    tg_rt_schedulable to_ratio sum_ratios tg_has_rt_tasks global_rt_period global_rt_runtime
    walk_step walk_tg_tree_from sched_group_rt_runtime sched_rt_global_constraints
requests = (refl, refl, refl, refl, refl, refl, refl, refl)

tg_set_rt_bandwidth_example :
    (e : ℤ) × (t : State) × (tg_set_rt_bandwidth defaults (7 ∷ []) 6 1 1000000000 500000000 groups
      ≡ some (e, t))
    × (((eqb_ℤ e (pos 0) ≡ true) × Granted defaults (7 ∷ []) forest 1 1000000000 500000000 groups t)
        ⊎ ((eqb_ℤ e (pos 0) ≡ false)
            × Refused defaults (7 ∷ []) forest 1 1000000000 500000000 groups t))
tg_set_rt_bandwidth_example =
    tg_set_rt_bandwidth_lem defaults (7 ∷ []) forest 1 groups refl (refl, refl, refl, refl, tt, tt)
      1 1000000000 500000000
