-- ===== src/Core/Frames.antt =====
-- What the calls through the classes (core.c) leave alone: the running task, and of every task all
-- but its statistics, its need_resched flag and its WRR entity.
use cs356_project.Prelude.{ℕ, ◌≡◌, refl, arith, ◌∙◌, Bool}
use cs356_project.Kernel.Types.{
  SchedClass, wrr_class, Task, State, set_task, WrrEntity, SchedEntity,
}
use cs356_project.Kernel.External.{Kernel, Frame, ClassLaws}
use cs356_project.Wrr.Weight.{task_group_path, reweigh, update_weight}
use cs356_project.Wrr.Queue.{
  update_curr_wrr, refill, enqueue_wrr_entity, dequeue_wrr_entity, inc_wrr_tasks, dec_wrr_tasks,
  requeue_wrr_entity, inc_nr_running, dec_nr_running,
}
use cs356_project.Wrr.Class.{
  enqueue_task_wrr, dequeue_task_wrr, set_curr_task_wrr, put_prev_task_wrr,
}
use cs356_project.Core.Classes.{
  update_rq_clock, class_enqueue, class_dequeue, class_put_prev, class_set_curr, enqueue_task,
  dequeue_task,
}

-- The task with other statistics, flag and WRR entity.
abbrev pub with_run : Task → SchedEntity → Bool → WrrEntity → Task
with_run t se need e = record t { se = se; need_resched = need; wrr = e }

pub record Kept (s t : State) : Type 0 where
  pub curr_kept : t.rq.curr ≡ s.rq.curr
  pub idle_kept : t.rq.idle ≡ s.rq.idle
  pub fields_kept :
      (p : ℕ) → t.task p ≡ with_run (s.task p) (t.task p).se (t.task p).need_resched (t.task p).wrr

pub Kept-refl : (s : State) → Kept s s
Kept-refl s = record { curr_kept = refl; idle_kept = refl; fields_kept = λ p. refl }

pub Kept-trans : {s t u : State} → Kept s t → Kept t u → Kept s u
Kept-trans f g = record {
  curr_kept = g.curr_kept ∙ f.curr_kept;
  idle_kept = g.idle_kept ∙ f.idle_kept;
  fields_kept = λ p. ground (arith, f.fields_kept p, g.fields_kept p);
}

pub Frame-Kept : {s t : State} → Frame s t → Kept s t
Frame-Kept f = record {
  curr_kept = f.curr_kept;
  idle_kept = f.idle_kept;
  fields_kept = λ p. ground (arith, f.task_kept p);
}

pub write-Kept :
    (p : ℕ) (s : State) (se : SchedEntity) (need : Bool) (e : WrrEntity)
    → Kept s (set_task p (with_run (s.task p) se need e) s)
write-Kept p s se need e = record {
  curr_kept = refl;
  idle_kept = refl;
  fields_kept = λ q. ground arith;
}

pub update_curr_wrr-Kept : (s : State) → Kept s (update_curr_wrr s)
unfolding update_curr_wrr
update_curr_wrr-Kept s = record {
  curr_kept = ground arith;
  idle_kept = ground arith;
  fields_kept = λ q. ground arith;
}

reweigh-Kept : (p c : ℕ) (s : State) → Kept s (reweigh p c s)
unfolding reweigh
reweigh-Kept p c s = record {
  curr_kept = ground arith;
  idle_kept = ground arith;
  fields_kept = λ q. ground arith;
}

module _ (k : Kernel) where
  task_group_path-Kept : (g : ℕ) (s : State) → Kept s (task_group_path k g s)
  unfolding task_group_path
  task_group_path-Kept g s = record {
    curr_kept = ground arith;
    idle_kept = ground arith;
    fields_kept = λ q. ground arith;
  }

  update_weight-Kept : (p : ℕ) (s : State) → Kept s (update_weight k p s)
  unfolding update_weight
  update_weight-Kept p s = Kept-trans (task_group_path-Kept _ s) (reweigh-Kept p _ _)

  refill-Kept : (p : ℕ) (s : State) → Kept s (refill k p s)
  unfolding refill
  refill-Kept p s = write-Kept p s _ _ _

  pub enqueue_task_wrr-Kept : (p flags : ℕ) (s : State) → Kept s (enqueue_task_wrr k p flags s)
  unfolding enqueue_task_wrr enqueue_wrr_entity inc_nr_running inc_wrr_tasks requeue_wrr_entity
  enqueue_task_wrr-Kept p flags s =
      let f = Kept-trans (update_weight-Kept p s) (refill-Kept p _) in
      record { curr_kept = f.curr_kept; idle_kept = f.idle_kept; fields_kept = f.fields_kept }

  pub dequeue_task_wrr-Kept : (p : ℕ) (s : State) → Kept s (dequeue_task_wrr k p s)
  unfolding dequeue_task_wrr dequeue_wrr_entity dec_nr_running dec_wrr_tasks
  dequeue_task_wrr-Kept p s =
      let f = update_curr_wrr-Kept s in
      record { curr_kept = f.curr_kept; idle_kept = f.idle_kept; fields_kept = f.fields_kept }

  pub update_rq_clock-Kept : (s : State) → Kept s (update_rq_clock k s)
  unfolding update_rq_clock
  update_rq_clock-Kept s = record {
    curr_kept = ground arith;
    idle_kept = ground arith;
    fields_kept = λ q. ground arith;
  }

module _ (k : Kernel) (laws : ClassLaws k) where
  class_enqueue-Kept :
      (c : SchedClass) (p flags : ℕ) (s : State) → Kept s (class_enqueue k c p flags s)
  unfolding class_enqueue
  class_enqueue-Kept wrr_class p flags s = enqueue_task_wrr-Kept k p flags s
  class_enqueue-Kept c p flags s = Frame-Kept (laws.op_Frame c _ p flags s)

  class_dequeue-Kept :
      (c : SchedClass) (p flags : ℕ) (s : State) → Kept s (class_dequeue k c p flags s)
  unfolding class_dequeue
  class_dequeue-Kept wrr_class p flags s = dequeue_task_wrr-Kept k p s
  class_dequeue-Kept c p flags s = Frame-Kept (laws.op_Frame c _ p flags s)

  pub enqueue_task-Kept : (p flags : ℕ) (s : State) → Kept s (enqueue_task k p flags s)
  unfolding enqueue_task
  enqueue_task-Kept p flags s =
      Kept-trans (update_rq_clock-Kept k s) (class_enqueue-Kept _ p flags _)

  pub dequeue_task-Kept : (p flags : ℕ) (s : State) → Kept s (dequeue_task k p flags s)
  unfolding dequeue_task
  dequeue_task-Kept p flags s =
      Kept-trans (update_rq_clock-Kept k s) (class_dequeue-Kept _ p flags _)

  pub class_put_prev-Kept : (c : SchedClass) (p : ℕ) (s : State) → Kept s (class_put_prev k c p s)
  unfolding class_put_prev put_prev_task_wrr
  class_put_prev-Kept wrr_class p s = update_curr_wrr-Kept s
  class_put_prev-Kept c p s = Frame-Kept (laws.op_Frame c _ p 0 s)

  pub class_set_curr-Kept : (c : SchedClass) (s : State) → Kept s (class_set_curr k c s)
  unfolding class_set_curr set_curr_task_wrr
  class_set_curr-Kept wrr_class s = write-Kept s.rq.curr s _ _ _
  class_set_curr-Kept c s = Frame-Kept (laws.op_Frame c _ s.rq.curr 0 s)
