-- ===== src/Core/Live/State.antt =====
-- The invariant between two entries into core.c, and the writes that keep it.
use cs356_project.Prelude.{false, ℕ, ◌≡◌, refl, arith, ◌∙◌, true}
use cs356_project.Kernel.Types.{SchedClass, wrr_class, Task, State, set_task}
use cs356_project.Kernel.External.{Kernel, ClassLaws}
use cs356_project.Wrr.Class.{set_tsk_need_resched}
use cs356_project.Wrr.Invariant.Steady.{Steady, write-Steady, Frame-Steady, Steady-Inv}
use cs356_project.Core.Classes.{
  check_preempt_curr, preempt_by_class, class_check_preempt, resched_task,
}
use cs356_project.Core.Frames.{Kept, Kept-refl, Frame-Kept, write-Kept}
use cs356_project.Core.Sound.{Sound, Quiet-Sound, is_wrr}

-- WRR's queue is sound, a running WRR task is on it, and the idle task is not a WRR task.
pub record Live (s : State) : Type 0 where
  pub sound : Sound s
  pub running : is_wrr (s.task s.rq.curr) ≡ true → (s.task s.rq.curr).on_rq ≡ true
  pub idle_own : is_wrr (s.task s.rq.idle) ≡ false

pub Kept-running :
    {s t : State}
    → Kept s t
    → (is_wrr (s.task s.rq.curr) ≡ true → (s.task s.rq.curr).on_rq ≡ true)
    → is_wrr (t.task t.rq.curr) ≡ true
    → (t.task t.rq.curr).on_rq ≡ true
Kept-running {s} {t} g r w = rw g.curr_kept (
    ground
      (arith, g.fields_kept s.rq.curr, r (ground (arith, g.fields_kept s.rq.curr, g.curr_kept, w))))

pub Kept-idle :
    {s t : State} → Kept s t → is_wrr (s.task s.rq.idle) ≡ false → is_wrr (t.task t.rq.idle) ≡ false
Kept-idle {s} {t} g r = rw g.idle_kept (ground (arith, g.fields_kept s.rq.idle, r))

pub Quiet-Live : {s t : State} → Steady s t → Kept s t → Live s → Live t
Quiet-Live f g v = record {
  sound = Quiet-Sound f g v.sound;
  running = Kept-running g v.running;
  idle_own = Kept-idle g v.idle_own;
}

-- A write that keeps a task's weight, mark and class.
pub write-Sound :
    (p : ℕ) (t : Task) (s : State)
    → t.wrr.weight ≡ (s.task p).wrr.weight
    → t.on_rq ≡ (s.task p).on_rq
    → t.sched_class ≡ (s.task p).sched_class
    → Sound s
    → Sound (set_task p t s)
write-Sound p t s a b c v = record {
  inv = Steady-Inv (write-Steady p t s a) v.inv;
  linked = λ q. v.linked q ∙ ground arith;
}

pub write-Live :
    (p : ℕ) (t : Task) (s : State)
    → t.wrr.weight ≡ (s.task p).wrr.weight
    → t.on_rq ≡ (s.task p).on_rq
    → t.sched_class ≡ (s.task p).sched_class
    → Live s
    → Live (set_task p t s)
write-Live p t s a b c v = record {
  sound = write-Sound p t s a b c v.sound;
  running = λ w. ground (arith, v.running);
  idle_own = ground (arith, v.idle_own);
}

-- Inside the scheduler: task `c` is still the running one, but need not be on the queue.
pub record Safe (c : ℕ) (s : State) : Type 0 where
  pub sound : Sound s
  pub idle_own : is_wrr (s.task s.rq.idle) ≡ false
  pub at : s.rq.curr ≡ c

pub Quiet-Safe : {c : ℕ} {s t : State} → Steady s t → Kept s t → Safe c s → Safe c t
Quiet-Safe f g v = record {
  sound = Quiet-Sound f g v.sound;
  idle_own = Kept-idle g v.idle_own;
  at = g.curr_kept ∙ v.at;
}

pub write-Safe :
    {c : ℕ} (p : ℕ) (t : Task) (s : State)
    → t.wrr.weight ≡ (s.task p).wrr.weight
    → t.on_rq ≡ (s.task p).on_rq
    → t.sched_class ≡ (s.task p).sched_class
    → Safe c s
    → Safe c (set_task p t s)
write-Safe p t s a b c v = record {
  sound = write-Sound p t s a b c v.sound;
  idle_own = ground (arith, v.idle_own);
  at = v.at;
}

pub resched_task-Steady : (p : ℕ) (s : State) → Steady s (resched_task p s)
unfolding resched_task set_tsk_need_resched
resched_task-Steady p s = write-Steady p _ s refl

pub resched_task-Kept : (p : ℕ) (s : State) → Kept s (resched_task p s)
unfolding resched_task set_tsk_need_resched
resched_task-Kept p s = write-Kept p s _ _ _

module _ (k : Kernel) (laws : ClassLaws k) where
  class_check_preempt-Steady :
      (c : SchedClass) (p flags : ℕ) (s : State) → Steady s (class_check_preempt k c p flags s)
  unfolding class_check_preempt
  class_check_preempt-Steady wrr_class p flags s = record {
    wrr_kept = refl;
    weight_kept = λ q. refl;
  }
  class_check_preempt-Steady c p flags s = Frame-Steady (laws.op_Frame c _ p flags s)

  class_check_preempt-Kept :
      (c : SchedClass) (p flags : ℕ) (s : State) → Kept s (class_check_preempt k c p flags s)
  unfolding class_check_preempt
  class_check_preempt-Kept wrr_class p flags s = Kept-refl s
  class_check_preempt-Kept c p flags s = Frame-Kept (laws.op_Frame c _ p flags s)

  preempt_by_class-Steady : (p flags : ℕ) (s : State) → Steady s (preempt_by_class k p flags s)
  unfolding preempt_by_class
  preempt_by_class-Steady p flags s =
      let f = class_check_preempt-Steady (s.task s.rq.curr).sched_class p flags s in
      let g = resched_task-Steady s.rq.curr s in
      record {
        wrr_kept = ground (arith, f.wrr_kept, g.wrr_kept);
        weight_kept = λ q. ground (arith, f.weight_kept q, g.weight_kept q);
      }

  preempt_by_class-Kept : (p flags : ℕ) (s : State) → Kept s (preempt_by_class k p flags s)
  unfolding preempt_by_class
  preempt_by_class-Kept p flags s =
      let f = class_check_preempt-Kept (s.task s.rq.curr).sched_class p flags s in
      let g = resched_task-Kept s.rq.curr s in
      record {
        curr_kept = ground (arith, f.curr_kept, g.curr_kept);
        idle_kept = ground (arith, f.idle_kept, g.idle_kept);
        fields_kept = λ q. ground (arith, f.fields_kept q, g.fields_kept q);
      }

  pub check_preempt_curr-Steady :
      (p flags : ℕ) (s : State) → Steady s (check_preempt_curr k p flags s)
  unfolding check_preempt_curr
  check_preempt_curr-Steady p flags s =
      let f = preempt_by_class-Steady p flags s in
      record {
        wrr_kept = ground (arith, f.wrr_kept);
        weight_kept = λ q. ground (arith, f.weight_kept q);
      }

  pub check_preempt_curr-Kept : (p flags : ℕ) (s : State) → Kept s (check_preempt_curr k p flags s)
  unfolding check_preempt_curr
  check_preempt_curr-Kept p flags s =
      let f = preempt_by_class-Kept p flags s in
      record {
        curr_kept = ground (arith, f.curr_kept);
        idle_kept = ground (arith, f.idle_kept);
        fields_kept = λ q. ground (arith, f.fields_kept q);
      }
