-- ===== src/Tests/Calls.antt =====
-- System calls, forks and the order of the classes on the sample machine.
use cs356_project.Prelude.{◌||◌, ◌==◌, not, true, ◌≡◌, refl, arith, pos, false, ◌&&◌, if◌then◌else◌}
use cs356_project.Kernel.Types.{State}
use cs356_project.Core.Policy.Request.{
  check_same_owner, eperm, asked_policy, asked_reset, check_param, check_permission,
  check_bandwidth,
}
use cs356_project.Core.Policy.Change.{
  sched_setscheduler, sched_setscheduler_common, sched_setscheduler_locked,
}
use cs356_project.Core.Syscalls.{
  param, sys_sched_setscheduler, sys_sched_getscheduler, do_sched_setscheduler, find_process_by_pid,
}
use cs356_project.Core.Answers.{getscheduler-setscheduler}
use cs356_project.Core.Fork.{sched_fork}
use cs356_project.Core.Children.{handed_down, sched_fork_lem}
use cs356_project.Core.Switch.{pick_next_task}
use cs356_project.Wrr.Behaviour.Pick.{choice}
use cs356_project.Core.Order.{wrr_or_below, above_asked, pick_next_task-wrr}
use cs356_project.Core.Groups.{sched_move_task}
use cs356_project.Core.Live.State.{Live}
use cs356_project.Core.Live.Moves.{sched_move_task-Live}
use cs356_project.Kernel.External.{Kernel}
use cs356_project.Core.Policy.Callers.{check_permission-wrr}
use cs356_project.Tests.Policies.{machine-Live}
use cs356_project.Tests.Samples.{kernel, list_laws, class_laws, machine, machine-Inv}

-- Process 4 becomes a WRR task of weight 20, whose children are reset.
abbrev asked : State
asked = (sys_sched_setscheduler kernel (pos 4) (pos 0x40000006) (param (pos 20)) machine).0

getscheduler-setscheduler_example : sys_sched_getscheduler kernel (pos 4) asked ≡ pos 0x40000006
unfolding asked_policy asked_reset check_param check_permission check_bandwidth sched_setscheduler
    sched_setscheduler_common sched_setscheduler_locked sys_sched_setscheduler do_sched_setscheduler
    find_process_by_pid
getscheduler-setscheduler_example =
    getscheduler-setscheduler kernel list_laws class_laws 4 0x40000006 4 (pos 20) machine asked refl
      refl refl refl

-- The running task 4 has policy SCHED_RR and asks for a reset; task 9 is its copy.
abbrev forking : State
forking = record machine {
  rq = record machine.rq { curr = 4 };
  task = λ p.
      if p == 4 || p == 9
      then record (machine.task 4) { policy = 2; rt_priority = 10; sched_reset_on_fork = true }
      else machine.task p;
}

sched_fork_example :
    handed_down ((sched_fork kernel 9 forking).task 9) ≡ ((machine.task 4).wrr, 0, false, false, 0)
sched_fork_example =
    sched_fork_lem kernel class_laws 9 forking
      (record { entity_copied = refl; policy_copied = refl; flag_copied = refl })

pick_next_task-wrr_example :
    pick_next_task kernel machine
    ≡ wrr_or_below kernel (choice kernel (above_asked kernel machine) machine.rq.wrr.active)
pick_next_task-wrr_example =
    pick_next_task-wrr kernel list_laws class_laws machine machine-Inv (omega arith) refl refl refl

-- Task 1 moves to the background group.
sched_move_task-Live_example : Live (sched_move_task kernel 1 7 machine)
sched_move_task-Live_example =
    sched_move_task-Live kernel list_laws class_laws 1 7 machine refl (λ e. refl) machine-Live

-- The same kernel, for a caller without privileges.
abbrev user_kernel : Kernel
user_kernel = record kernel { capable_sys_nice = false }

check_permission-wrr_example :
    check_permission user_kernel 4 (machine.task 4) (pos 6) (pos 99) true ≡ (
      if check_same_owner user_kernel 4 && not (machine.task 4).sched_reset_on_fork
      then user_kernel.security_setscheduler 4
      else eperm)
check_permission-wrr_example =
    check_permission-wrr user_kernel 4 (machine.task 4) (pos 99) refl refl
