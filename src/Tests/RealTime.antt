-- ===== src/Tests/RealTime.antt =====
-- The real-time class on the sample machine: tasks 5 and 6 of priority 50, task 7 of priority 10.
use cs356_project.Prelude.{ℕ, Option, ◌≡◌, refl, [], ◌∷◌, some, none, pos, if◌then◌else◌, ◌==◌}
use cs356_project.Kernel.Types.{rt_class, State, bug, done, Outcome}
use cs356_project.Kernel.External.{ClassLaws}
use cs356_project.Wrr.Queue.{inc_nr_running, dec_nr_running, exec_delta}
use cs356_project.Wrr.Class.{set_tsk_need_resched}
use cs356_project.Core.Classes.{resched_task}
use cs356_project.Rt.Memory.{
  init_tg_rt_entry, ancestors, rt_se_prio, rt_se_boosted, start_rt_bandwidth, sched_rt_runtime,
  sched_rt_period, rt_rq_throttled,
}
use cs356_project.Rt.Array.{
  inc_rt_tasks, inc_rt_group, inc_rt_prio, dec_rt_tasks, dec_rt_prio, dec_rt_group,
}
use cs356_project.Rt.Entity.{
  enqueue_rt_entity, enqueue_each, enqueue_rt_entity_one, dequeue_rt_stack, dequeue_each, link,
  unlink, dequeue_rt_entity, enqueue_groups, dequeue_rt_entity_one, pick_next_rt_entity,
}
use cs356_project.Rt.Time.{
  update_curr_rt, charge_each, charge_rt, sched_rt_runtime_exceeded, overrun,
}
use cs356_project.Rt.Class.{enqueue_task_rt, dequeue_task_rt, pick_next_task_rt, pick_down}
use cs356_project.Rt.Laws.{with_rt, Leaves, with_rt-ClassLaws}
use cs356_project.Tests.Samples.{kernel, class_laws, machine, tasks}

with_rt-ClassLaws_example :
    ClassLaws (with_rt kernel 4) × ((s : State) → Leaves s (pick_next_task_rt kernel 4 s))
with_rt-ClassLaws_example = with_rt-ClassLaws kernel 4 class_laws

abbrev pub before : State
before = record machine {
  task = λ p. record (tasks p) {
    sched_class = rt_class;
    policy = 2;
    prio = if p == 7 then pos 10 else pos 50;
    normal_prio = if p == 7 then pos 10 else pos 50;
  };
}

abbrev queued : State
queued =
    enqueue_task_rt kernel 2 7 0
      (enqueue_task_rt kernel 2 6 0 (enqueue_task_rt kernel 2 5 0 before))

abbrev chosen : Outcome (Option ℕ × State) → Option ℕ
chosen (done (o, s)) = o
chosen bug = none

-- Task 7 in a group: run queue 1, entity 100.
abbrev grouped : State
grouped =
    let s = init_tg_rt_entry 1 1 (some 100) none before in
    record s {
      rt = record s.rt {
        entity = λ e.
            if e == 7
            then record (s.rt.entity e) { rt_rq = 1; parent = some 100 }
            else s.rt.entity e;
      };
    }

abbrev nested : State
nested = enqueue_task_rt kernel 2 7 0 (enqueue_task_rt kernel 2 5 0 grouped)

-- The queues are in order, the highest priority is known, also when its task has left, and task 7
-- comes first, also out of its group, which waits at its priority.
runs :
    ((queued.rt.rt_rq 0).queue 50 ≡ 5 ∷ 6 ∷ [])
    × ((queued.rt.rt_rq 0).highest_prio ≡ 10)
    × ((queued.rt.rt_rq 0).rt_nr_running ≡ 3)
    × (((dequeue_task_rt kernel 2 7 queued).rt.rt_rq 0).highest_prio ≡ 50)
    × (chosen (pick_next_task_rt kernel 2 queued) ≡ some 7)
    × ((nested.rt.rt_rq 0).queue 10 ≡ 100 ∷ [])
    × (chosen (pick_next_task_rt kernel 2 nested) ≡ some 7)
unfolding enqueue_task_rt inc_nr_running enqueue_rt_entity enqueue_each ancestors
    enqueue_rt_entity_one dequeue_rt_stack dequeue_each inc_rt_tasks inc_rt_group inc_rt_prio
    rt_se_prio link start_rt_bandwidth rt_se_boosted dequeue_task_rt dec_nr_running
    dequeue_rt_entity enqueue_groups dequeue_rt_entity_one unlink dec_rt_tasks dec_rt_prio
    dec_rt_group update_curr_rt exec_delta charge_each charge_rt sched_rt_runtime_exceeded
    sched_rt_runtime sched_rt_period overrun rt_rq_throttled pick_next_task_rt pick_down
    pick_next_rt_entity init_tg_rt_entry resched_task set_tsk_need_resched
runs = (refl, refl, refl, refl, refl, refl, refl)
