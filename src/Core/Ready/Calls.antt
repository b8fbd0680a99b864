-- ===== src/Core/Ready/Calls.antt =====
-- The calls through the classes' tables (core.c) keep slices: enqueue_task, dequeue_task and the
-- rest, wake-ups, and the search for the next task.
use cs356_project.Prelude.{ℕ, ◌≡◌, ◌≤◌, refl, arith, Bool, true, false, if◌then◌else◌}
use cs356_project.Kernel.Types.{SchedClass, wrr_class, Rq, State, set_rq}
use cs356_project.Kernel.External.{Kernel, ClassLaws, ListLaws}
use cs356_project.Wrr.Class.{put_prev_task_wrr, set_tsk_need_resched}
use cs356_project.Wrr.RoundRobin.View.{Still, update_curr_wrr-Still, write-Still}
use cs356_project.Core.Classes.{
  class_enqueue, class_dequeue, class_put_prev, class_check_preempt, enqueue_task, dequeue_task,
  activate_task, deactivate_task, preempt_by_class, check_preempt_curr, resched_task,
  task_contributes_to_load,
}
use cs356_project.Core.Policy.Weights.{Frame-Still, update_rq_clock-Still}
use cs356_project.Core.Ready.State.{Ready, Still-Ready}
use cs356_project.Core.Ready.Queue.{enqueue_task_wrr-Ready, dequeue_task_wrr-Ready}

-- A write of the run queue that leaves WRR's part.
pub rq-Ready : (r : Rq) (s : State) → r.wrr ≡ s.rq.wrr → Ready s → Ready (set_rq r s)
rq-Ready r s h v = Still-Ready (record { wrr_kept = h; entity_kept = λ p. refl }) v

count-Ready :
    (n : ℕ) (b : Bool) (s : State)
    → Ready s
    → Ready (if b then set_rq (record s.rq { nr_uninterruptible = n }) s else s)
count-Ready n true s v = rq-Ready _ s refl v
count-Ready n false s v = v

pub resched_task-Still : (p : ℕ) (s : State) → Still s (resched_task p s)
unfolding resched_task set_tsk_need_resched
resched_task-Still p s = write-Still p _ s refl

module _ (k : Kernel) (l : ListLaws k.lists) (laws : ClassLaws k) where
  class_dequeue-Ready :
      (c : SchedClass) (p flags : ℕ) (s : State) → Ready s → Ready (class_dequeue k c p flags s)
  unfolding class_dequeue
  class_dequeue-Ready wrr_class p flags s v = dequeue_task_wrr-Ready k l p s v
  class_dequeue-Ready c p flags s v = Still-Ready (Frame-Still (laws.op_Frame c _ p flags s)) v

  pub dequeue_task-Ready : (p flags : ℕ) (s : State) → Ready s → Ready (dequeue_task k p flags s)
  unfolding dequeue_task
  dequeue_task-Ready p flags s v =
      class_dequeue-Ready _ p flags _ (Still-Ready (update_rq_clock-Still k l s) v)

  pub deactivate_task-Ready :
      (p flags : ℕ) (s : State) → Ready s → Ready (deactivate_task k p flags s)
  unfolding deactivate_task
  deactivate_task-Ready p flags s v =
      dequeue_task-Ready p flags _ (count-Ready _ (task_contributes_to_load (s.task p)) s v)

  pub class_put_prev-Still : (c : SchedClass) (p : ℕ) (s : State) → Still s (class_put_prev k c p s)
  unfolding class_put_prev put_prev_task_wrr
  class_put_prev-Still wrr_class p s = update_curr_wrr-Still s
  class_put_prev-Still c p s = Frame-Still (laws.op_Frame c _ p 0 s)

  check_preempt-Still :
      (c : SchedClass) (p flags : ℕ) (s : State) → Still s (class_check_preempt k c p flags s)
  unfolding class_check_preempt
  check_preempt-Still wrr_class p flags s = record { wrr_kept = refl; entity_kept = λ q. refl }
  check_preempt-Still c p flags s = Frame-Still (laws.op_Frame c _ p flags s)

  preempt_by_class-Still : (p flags : ℕ) (s : State) → Still s (preempt_by_class k p flags s)
  unfolding preempt_by_class
  preempt_by_class-Still p flags s =
      let f = check_preempt-Still (s.task s.rq.curr).sched_class p flags s in
      let g = resched_task-Still s.rq.curr s in
      record {
        wrr_kept = ground (arith, f.wrr_kept, g.wrr_kept);
        entity_kept = λ q. ground (arith, f.entity_kept q, g.entity_kept q);
      }

  pub check_preempt_curr-Still :
      (p flags : ℕ) (s : State) → Still s (check_preempt_curr k p flags s)
  unfolding check_preempt_curr
  check_preempt_curr-Still p flags s =
      let f = preempt_by_class-Still p flags s in
      record {
        wrr_kept = ground (arith, f.wrr_kept);
        entity_kept = λ q. ground (arith, f.entity_kept q);
      }

module _ (k : Kernel) (l : ListLaws k.lists) (laws : ClassLaws k) (fast : 100 ≤ k.hz)
    (slow : k.hz ≤ 10000) where
  class_enqueue-Ready :
      (c : SchedClass) (p flags : ℕ) (s : State) → Ready s → Ready (class_enqueue k c p flags s)
  unfolding class_enqueue
  class_enqueue-Ready wrr_class p flags s v = enqueue_task_wrr-Ready k fast slow l p flags s v
  class_enqueue-Ready c p flags s v = Still-Ready (Frame-Still (laws.op_Frame c _ p flags s)) v

  pub enqueue_task-Ready : (p flags : ℕ) (s : State) → Ready s → Ready (enqueue_task k p flags s)
  unfolding enqueue_task
  enqueue_task-Ready p flags s v =
      class_enqueue-Ready _ p flags _ (Still-Ready (update_rq_clock-Still k l s) v)

  pub activate_task-Ready : (p flags : ℕ) (s : State) → Ready s → Ready (activate_task k p flags s)
  unfolding activate_task
  activate_task-Ready p flags s v =
      enqueue_task-Ready p flags _ (count-Ready _ (task_contributes_to_load (s.task p)) s v)
