-- ===== src/Tests/Queue.antt =====
-- wrr.c on the sample machine.
use cs356_project.Prelude.{◌≡◌, ◌+◌, ◌-◌, refl, arith, [], ◌∷◌, if◌then◌else◌, ◌==◌}
use cs356_project.Kernel.Types.{State, done, set_rq}
use cs356_project.Wrr.Weight.{update_weight}
use cs356_project.Wrr.Queue.{update_curr_wrr}
use cs356_project.Wrr.Class.{pick_next_task_wrr, enqueue_task_wrr, dequeue_task_wrr, task_tick_wrr}
use cs356_project.Wrr.Invariant.{Inv}
use cs356_project.Wrr.Invariant.Operations.{
  enqueue_task_wrr-Inv, dequeue_task_wrr-Inv, task_tick_wrr-runs,
}
use cs356_project.Wrr.RoundRobin.Turns.{spend}
use cs356_project.Wrr.RoundRobin.View.{view}
use cs356_project.Wrr.RoundRobin.Refines.{task_tick_wrr-spend}
use cs356_project.Wrr.Behaviour.Pick.{choice, pick_next_task_wrr_lem}
use cs356_project.Wrr.Behaviour.Throttle.{throttled_in, throttled_share}
use cs356_project.Wrr.Behaviour.Weights.{update_weight_lem, path_char}
use cs356_project.Wrr.Behaviour.Entity.{dequeue-enqueue, update_curr_wrr_lem}
use cs356_project.Tests.Samples.{kernel, list_laws, machine, machine-Inv}

task_tick_wrr-spend_example :
    (t : State) × (task_tick_wrr kernel 1 machine ≡ done t)
    × (view kernel t ≡ spend (view kernel machine))
task_tick_wrr-spend_example =
    task_tick_wrr-spend kernel list_laws machine 1 (2 ∷ 3 ∷ []) refl machine-Inv.distinct
      (omega arith)

enqueue_task_wrr-Inv_example : Inv (enqueue_task_wrr kernel 5 2 machine)
enqueue_task_wrr-Inv_example = enqueue_task_wrr-Inv kernel list_laws 5 2 machine refl machine-Inv

dequeue_task_wrr-Inv_example : Inv (dequeue_task_wrr kernel 2 machine)
dequeue_task_wrr-Inv_example = dequeue_task_wrr-Inv kernel list_laws 2 machine refl machine-Inv

task_tick_wrr-runs_example : (t : State) × (task_tick_wrr kernel 2 machine ≡ done t) × Inv t
task_tick_wrr-runs_example =
    task_tick_wrr-runs kernel list_laws 2 machine refl (omega arith) machine-Inv

pick_next_task_wrr_example :
    pick_next_task_wrr kernel machine ≡ done (choice kernel machine (1 ∷ 2 ∷ 3 ∷ []))
pick_next_task_wrr_example =
    pick_next_task_wrr_lem kernel list_laws machine machine-Inv (omega arith)

throttled_share_example : throttled_in kernel machine 30 100 ≡ 72
throttled_share_example = throttled_share kernel machine 30

update_weight_example :
    ((update_weight kernel 3 machine).task 3).wrr ≡ record (machine.task 3).wrr {
      weight =
          if (machine.task 3).wrr.custom_weight == 0
          then (if path_char kernel (machine.task 3).sched_task_group machine == b'b'
              then 1
              else 10)
          else (machine.task 3).wrr.weight;
    }
update_weight_example = update_weight_lem kernel 3 machine

dequeue-enqueue_example :
    ((dequeue_task_wrr kernel 5 (enqueue_task_wrr kernel 5 2 machine)).rq.wrr ≡ machine.rq.wrr)
    × ((dequeue_task_wrr kernel 5 (enqueue_task_wrr kernel 5 2 machine)).rq.nr_running
        ≡ machine.rq.nr_running)
dequeue-enqueue_example =
    dequeue-enqueue kernel list_laws 5 2 machine refl machine-Inv (omega arith)

-- The machine after 50 ns.
abbrev later : State
later = set_rq (record machine.rq { clock_task = 50 }) machine

update_curr_wrr_example :
    (((update_curr_wrr later).task 1).se.sum_exec_runtime
      ≡ (later.task 1).se.sum_exec_runtime + (50 - (later.task 1).se.exec_start))
    × (((update_curr_wrr later).task 1).se.exec_start ≡ 50)
update_curr_wrr_example = update_curr_wrr_lem later refl (omega arith) (omega arith) (omega arith)
