-- ===== src/Core/Sound.antt =====
-- What core.c and wrr.c together keep true of the run queue of WRR: its queue holds exactly the
-- tasks that are marked as runnable and belong to the class.
use cs356_project.Prelude.{
  ℕ, ◌≡◌, refl, arith, ◌∙◌, Bool, true, false, not, ◌&&◌, ◌||◌, ◌==◌, elem, remove, elem-remove,
  elem-append, ◌∷◌, [], ap,
}
use cs356_project.Kernel.Types.{SchedClass, wrr_class, same_class, Task, State, Rq, WrrRq}
use cs356_project.Kernel.External.{Kernel, Frame, ClassLaws, ListLaws, enqueue_op, dequeue_op}
use cs356_project.Wrr.Queue.{
  update_curr_wrr, enqueue_wrr_entity, dequeue_wrr_entity, inc_wrr_tasks, dec_wrr_tasks,
  requeue_wrr_entity, inc_nr_running, dec_nr_running, refill,
}
use cs356_project.Wrr.Weight.{update_weight}
use cs356_project.Wrr.Class.{
  enqueue_task_wrr, dequeue_task_wrr, set_curr_task_wrr, put_prev_task_wrr, wants_head,
}
use cs356_project.Wrr.Invariant.{Inv}
use cs356_project.Wrr.Invariant.Keeps.{Only-trans, update_weight-Only, refill-Only}
use cs356_project.Wrr.Invariant.Steady.{
  Steady, Steady-Inv, Frame-Steady, write-Steady, update_curr_wrr-Steady,
}
use cs356_project.Wrr.Invariant.Operations.{enqueue_task_wrr-Inv, dequeue_task_wrr-Inv}
use cs356_project.Core.Classes.{
  update_rq_clock, class_enqueue, class_dequeue, class_put_prev, class_set_curr, enqueue_task,
  dequeue_task,
}
use cs356_project.Core.Frames.{Kept, update_rq_clock-Kept}

abbrev pub is_wrr : Task → Bool
is_wrr t = same_class t.sched_class wrr_class

abbrev pub queued : ℕ → State → Bool
queued p s = elem p s.rq.wrr.active

pub record Sound (s : State) : Type 0 where
  pub inv : Inv s
  pub linked : (p : ℕ) → queued p s ≡ ((s.task p).on_rq && is_wrr (s.task p))

-- Steps that change neither WRR's queue nor the fields that the invariant reads.
pub Quiet-Sound : {s t : State} → Steady s t → Kept s t → Sound s → Sound t
Quiet-Sound f g v = record {
  inv = Steady-Inv f v.inv;
  linked = λ p. rw f.wrr_kept (v.linked p ∙ ground (arith, g.fields_kept p));
}

pub queued-kept : {s t : State} → Steady s t → (q : ℕ) → queued q t ≡ queued q s
queued-kept f q = ap (λ (w : WrrRq). elem q w.active) f.wrr_kept

-- How an operation changes who is queued.
pub record Joined (p : ℕ) (c : SchedClass) (s t : State) : Type 0 where
  pub joined : (q : ℕ) → queued q t ≡ (queued q s || (q == p && same_class c wrr_class))

pub record Left (p : ℕ) (c : SchedClass) (s t : State) : Type 0 where
  pub left : (q : ℕ) → queued q t ≡ (queued q s && not (q == p && same_class c wrr_class))

module _ (k : Kernel) (l : ListLaws k.lists) where
  pub requeue-joined :
      (p : ℕ) (head : Bool) (s : State) (q : ℕ)
      → queued q (requeue_wrr_entity k p head s) ≡ (queued q s || q == p)
  unfolding requeue_wrr_entity
  requeue-joined p true s q =
      rw (l.move_lem p s.rq.wrr.active) (ground (arith, elem-remove p q s.rq.wrr.active))
  requeue-joined p false s q = rw (l.move_tail_lem p s.rq.wrr.active) (
      ground
        (arith, elem-append q (remove p s.rq.wrr.active) (p ∷ []), elem-remove p q s.rq.wrr.active))

  pub enqueue_task_wrr-joined :
      (p flags : ℕ) (s : State) (q : ℕ)
      → queued q (enqueue_task_wrr k p flags s) ≡ (queued q s || q == p)
  unfolding enqueue_task_wrr enqueue_wrr_entity inc_nr_running inc_wrr_tasks
  enqueue_task_wrr-joined p flags s q =
      let f = Only-trans (update_weight-Only k p s) (refill-Only k p (update_weight k p s)) in
      let s' = refill k p (update_weight k p s) in
      requeue-joined p (wants_head flags) s' q
      ∙ ap (λ (r : Rq). elem q r.wrr.active || q == p) f.rq_kept

  dequeue_task_wrr-left :
      (p : ℕ) (s : State) (q : ℕ) → queued q (dequeue_task_wrr k p s) ≡ (queued q s && not (q == p))
  unfolding dequeue_task_wrr dequeue_wrr_entity dec_nr_running dec_wrr_tasks
  dequeue_task_wrr-left p s q =
      let f = update_curr_wrr-Steady s in
      rw (l.del_init_lem p (update_curr_wrr s).rq.wrr.active, f.wrr_kept)
        (ground (arith, elem-remove p q s.rq.wrr.active))

  pub update_rq_clock-Steady : (s : State) → Steady s (update_rq_clock k s)
  unfolding update_rq_clock
  update_rq_clock-Steady s = record { wrr_kept = ground arith; weight_kept = λ r. ground arith }

module _ (k : Kernel) (l : ListLaws k.lists) (laws : ClassLaws k) where
  class_enqueue-Joined :
      (c : SchedClass) (p flags : ℕ) (s : State) → Joined p c s (class_enqueue k c p flags s)
  unfolding class_enqueue
  class_enqueue-Joined wrr_class p flags s = record {
    joined = λ q. ground (arith, enqueue_task_wrr-joined k l p flags s q);
  }
  class_enqueue-Joined c p flags s = record {
    joined = λ q. rw (Frame.wrr_kept (laws.op_Frame c enqueue_op p flags s)) (ground arith);
  }

  class_dequeue-Left :
      (c : SchedClass) (p flags : ℕ) (s : State) → Left p c s (class_dequeue k c p flags s)
  unfolding class_dequeue
  class_dequeue-Left wrr_class p flags s = record {
    left = λ q. ground (arith, dequeue_task_wrr-left k l p s q);
  }
  class_dequeue-Left c p flags s = record {
    left = λ q. rw (Frame.wrr_kept (laws.op_Frame c dequeue_op p flags s)) (ground arith);
  }

  class_enqueue-Inv :
      (c : SchedClass) (p flags : ℕ) (s : State)
      → queued p s ≡ false
      → Inv s
      → Inv (class_enqueue k c p flags s)
  unfolding class_enqueue
  class_enqueue-Inv wrr_class p flags s h v = enqueue_task_wrr-Inv k l p flags s h v
  class_enqueue-Inv c p flags s h v = Steady-Inv (Frame-Steady (laws.op_Frame c _ p flags s)) v

  class_dequeue-Inv :
      (c : SchedClass) (p flags : ℕ) (s : State)
      → (same_class c wrr_class ≡ true → queued p s ≡ true)
      → Inv s
      → Inv (class_dequeue k c p flags s)
  unfolding class_dequeue
  class_dequeue-Inv wrr_class p flags s h v = dequeue_task_wrr-Inv k l p s (h refl) v
  class_dequeue-Inv c p flags s h v = Steady-Inv (Frame-Steady (laws.op_Frame c _ p flags s)) v

  pub enqueue_task-Joined :
      (p flags : ℕ) (s : State) → Joined p (s.task p).sched_class s (enqueue_task k p flags s)
  unfolding enqueue_task
  enqueue_task-Joined p flags s =
      let f = update_rq_clock-Steady k l s in
      let g = update_rq_clock-Kept k s in
      let s' = update_rq_clock k s in
      let j = class_enqueue-Joined (s'.task p).sched_class p flags s' in
      record { joined = λ q. j.joined q ∙ ground (arith, queued-kept f q, g.fields_kept p) }

  pub dequeue_task-Left :
      (p flags : ℕ) (s : State) → Left p (s.task p).sched_class s (dequeue_task k p flags s)
  unfolding dequeue_task
  dequeue_task-Left p flags s =
      let f = update_rq_clock-Steady k l s in
      let g = update_rq_clock-Kept k s in
      let s' = update_rq_clock k s in
      let j = class_dequeue-Left (s'.task p).sched_class p flags s' in
      record { left = λ q. j.left q ∙ ground (arith, queued-kept f q, g.fields_kept p) }

  pub enqueue_task-Inv :
      (p flags : ℕ) (s : State) → queued p s ≡ false → Inv s → Inv (enqueue_task k p flags s)
  unfolding enqueue_task
  enqueue_task-Inv p flags s h v =
      let f = update_rq_clock-Steady k l s in
      class_enqueue-Inv _ p flags _ (rw f.wrr_kept h) (Steady-Inv f v)

  pub dequeue_task-Inv :
      (p flags : ℕ) (s : State)
      → (is_wrr (s.task p) ≡ true → queued p s ≡ true)
      → Inv s
      → Inv (dequeue_task k p flags s)
  unfolding dequeue_task
  dequeue_task-Inv p flags s h v =
      let f = update_rq_clock-Steady k l s in
      let g = update_rq_clock-Kept k s in
      class_dequeue-Inv _ p flags _ (λ e. rw f.wrr_kept (h (ground (arith, g.fields_kept p))))
        (Steady-Inv f v)

  pub class_put_prev-Steady :
      (c : SchedClass) (p : ℕ) (s : State) → Steady s (class_put_prev k c p s)
  unfolding class_put_prev put_prev_task_wrr
  class_put_prev-Steady wrr_class p s = update_curr_wrr-Steady s
  class_put_prev-Steady c p s = Frame-Steady (laws.op_Frame c _ p 0 s)

  pub class_set_curr-Steady : (c : SchedClass) (s : State) → Steady s (class_set_curr k c s)
  unfolding class_set_curr set_curr_task_wrr
  class_set_curr-Steady wrr_class s = write-Steady s.rq.curr _ s refl
  class_set_curr-Steady c s = Frame-Steady (laws.op_Frame c _ s.rq.curr 0 s)
