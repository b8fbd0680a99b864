-- ===== src/Tests/Rounds.antt =====
-- The timer's interrupt on the sample machine, at an hour when the clock does not throttle WRR.
use cs356_project.Prelude.{◌≡◌, refl, arith, [], ◌∷◌, ◌++◌, map}
use cs356_project.Kernel.Types.{State, done}
use cs356_project.Kernel.External.{Kernel, ClassLaws, IdleLaw}
use cs356_project.Wrr.RoundRobin.Turns.{slices, renewed}
use cs356_project.Wrr.RoundRobin.View.{view, line}
use cs356_project.Core.Rounds.Pass.{OnlyWrr}
use cs356_project.Core.Rounds.Timer.{timers, FrontRuns, timers-turn}
use cs356_project.Tests.Samples.{kernel, list_laws, class_laws, idle_law, machine}
use cs356_project.Tests.Policies.{machine-Live}

abbrev unthrottled : Kernel
unthrottled = record kernel { tv_nsec = λ _. 99 }

unthrottled-ClassLaws : ClassLaws unthrottled
unthrottled-ClassLaws = record {
  op_Frame = class_laws.op_Frame;
  pick_Frame = class_laws.pick_Frame;
  pick_own = class_laws.pick_own;
}

unthrottled-IdleLaw : IdleLaw unthrottled
unthrottled-IdleLaw = record { idle_lem = idle_law.idle_lem }

only_wrr : OnlyWrr unthrottled
only_wrr = record { no_stop = λ s. refl; no_rt = λ s. refl; no_fair = λ s. refl; free = λ n. refl }

machine-FrontRuns : FrontRuns machine
machine-FrontRuns = record {
  live = machine-Live;
  behind_it = 2 ∷ 3 ∷ [];
  front = refl;
  few = omega arith;
}

-- Task 1 has two ticks left and task 2 one; task 3 is next.
timers-turn_example :
    (t : State) × (timers unthrottled (slices (line unthrottled machine.task (1 ∷ 2 ∷ []))) machine
      ≡ done t)
    × (t.rq.wrr.active ≡ 3 ∷ 1 ∷ 2 ∷ [])
    × (view unthrottled t
        ≡ line unthrottled machine.task (3 ∷ [])
          ++ map renewed (line unthrottled machine.task (1 ∷ 2 ∷ [])))
    × FrontRuns t
timers-turn_example =
    timers-turn unthrottled list_laws unthrottled-ClassLaws unthrottled-IdleLaw only_wrr machine
      (1 ∷ 2 ∷ []) (3 ∷ []) machine-FrontRuns refl (omega arith)
