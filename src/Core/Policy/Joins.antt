-- ===== src/Core/Policy/Joins.antt =====
-- A runnable task that core.c makes a WRR task with a weight of its own: what it ends up with.
use cs356_project.Prelude.{
  ℕ, ◌≡◌, ◌<◌, refl, arith, ◌∙◌, Bool, true, false, ◌==◌, ap, sym, List, [], ◌∷◌, ◌++◌, remove,
  remove_absent, elem-remove,
}
use cs356_project.Kernel.Types.{
  Task, State, WrrEntity, WrrRq, Rq, SchedClass, wrr_class, same_class, set_task,
}
use cs356_project.Kernel.External.{Kernel, ClassLaws, ListLaws, Frame, dequeue_op}
use cs356_project.Kernel.Constants.{sched_wrr}
use cs356_project.Wrr.Queue.{dequeue_wrr_entity, dec_wrr_tasks, dec_nr_running}
use cs356_project.Wrr.Class.{dequeue_task_wrr}
use cs356_project.Wrr.Invariant.Steady.{Steady, update_curr_wrr-Steady}
use cs356_project.Core.Prio.{normal_prio, set_load_weight, rt_prio}
use cs356_project.Core.Classes.{
  update_rq_clock, enqueue_task, dequeue_task, class_enqueue, class_dequeue,
}
use cs356_project.Core.Frames.{Kept, update_rq_clock-Kept, class_set_curr-Kept}
use cs356_project.Core.Sound.{Sound, queued, update_rq_clock-Steady, class_put_prev-Steady}
use cs356_project.Core.Policy.Keeps.{setscheduler-Edit}
use cs356_project.Core.Policy.Change.{
  take_off, put_back, change_policy, setscheduler, write_policy, write_class,
}
use cs356_project.Core.Policy.Sound.{take_off-Kept}
use cs356_project.Core.Policy.Weights.{
  own_entity, enqueue_task_wrr-custom, enqueue_task_wrr-tail, update_rq_clock-Still, set_curr-Still,
  check_class_changed-Still,
}

-- The task was given the weight `w`, and is of the class.
record Given (w : ℕ) (t : Task) : Type 0 where
  weighs : t.wrr.weight ≡ w
  custom : t.wrr.custom_weight ≡ 1
  class_wrr : t.sched_class ≡ wrr_class
  policy_wrr : t.policy ≡ sched_wrr

-- __setscheduler, for a task that holds no priority boost.
setscheduler-Given :
    (k : Kernel) (p w : ℕ) (s : State)
    → (w == 0) ≡ false
    → ((u : State) → k.rt_mutex_getprio u p ≡ (u.task p).normal_prio)
    → rt_prio (s.task p).static_prio ≡ false
    → Given w ((setscheduler k p sched_wrr w s).task p)
unfolding setscheduler write_policy write_class set_load_weight normal_prio
setscheduler-Given k p w s h unboosted fair =
    let e = unboosted (write_policy p sched_wrr w s) in
    record {
      weighs = ground arith;
      custom = ground arith;
      class_wrr = ground (arith, e);
      policy_wrr = ground arith;
    }

module _ (k : Kernel) (l : ListLaws k.lists) (laws : ClassLaws k) where
  dequeue_task_wrr-active :
      (p : ℕ) (s : State) → (dequeue_task_wrr k p s).rq.wrr.active ≡ remove p s.rq.wrr.active
  unfolding dequeue_task_wrr dequeue_wrr_entity dec_wrr_tasks dec_nr_running
  dequeue_task_wrr-active p s =
      let f = update_curr_wrr-Steady s in
      l.del_init_lem p _ ∙ ap (λ (w : WrrRq). remove p w.active) f.wrr_kept

  class_dequeue-active :
      (c : SchedClass) (p : ℕ) (s : State)
      → (same_class c wrr_class ≡ false → queued p s ≡ false)
      → (class_dequeue k c p 0 s).rq.wrr.active ≡ remove p s.rq.wrr.active
  unfolding class_dequeue
  class_dequeue-active wrr_class p s h = dequeue_task_wrr-active p s
  class_dequeue-active c p s h =
      ap (λ (w : WrrRq). w.active) (Frame.wrr_kept (laws.op_Frame c dequeue_op p 0 s))
      ∙ sym (remove_absent p s.rq.wrr.active (h refl))

  take_off-active :
      (p : ℕ) (running : Bool) (s : State)
      → Sound s
      → (take_off k p true running s).rq.wrr.active ≡ remove p s.rq.wrr.active
  unfolding take_off dequeue_task
  take_off-active p running s v = go running
    where
      s' : State
      s' = update_rq_clock k s

      f : Steady s s'
      f = update_rq_clock-Steady k l s

      g : Kept s s'
      g = update_rq_clock-Kept k s

      off : (dequeue_task k p 0 s).rq.wrr.active ≡ remove p s.rq.wrr.active
      off =
          class_dequeue-active (s'.task p).sched_class p s' (λ e.
            ap (λ (w : WrrRq). queued p (record s { rq = record s.rq { wrr = w } })) f.wrr_kept
            ∙ v.linked p
            ∙ ground (arith, g.fields_kept p))
          ∙ ap (λ (w : WrrRq). remove p w.active) f.wrr_kept

      go : (b : Bool) → (take_off k p true b s).rq.wrr.active ≡ remove p s.rq.wrr.active
      go true =
          ap (λ (w : WrrRq). w.active)
            (Steady.wrr_kept (class_put_prev-Steady k l laws _ p (dequeue_task k p 0 s)))
          ∙ off
      go false = off

  -- A task of the class with a chosen weight is queued: it joins at the end, with a full slice.
  record Placed (p w : ℕ) (q : List ℕ) (s : State) : Type 0 where
    entity : (s.task p).wrr ≡ own_entity k w
    placed : s.rq.wrr.active ≡ q ++ p ∷ []

  enqueue_task-Placed :
      (p w : ℕ) (q : List ℕ) (s : State)
      → Given w (s.task p)
      → remove p s.rq.wrr.active ≡ q
      → Placed p w q (enqueue_task k p 0 s)
  unfolding enqueue_task class_enqueue
  enqueue_task-Placed p w q s g e =
      let s' = update_rq_clock k s in
      let f = update_rq_clock-Still k l s in
      let c : (s'.task p).sched_class ≡ wrr_class =
        ground (arith, Kept.fields_kept (update_rq_clock-Kept k s) p, g.class_wrr) in
      rw c (record {
        entity =
            enqueue_task_wrr-custom k l p s'
              (ap (λ (x : WrrEntity). x.custom_weight) (f.entity_kept p) ∙ g.custom)
            ∙ ap (own_entity k) (ap (λ (x : WrrEntity). x.weight) (f.entity_kept p) ∙ g.weighs);
        placed =
            enqueue_task_wrr-tail k l p s'
            ∙ ap (λ (x : WrrRq). remove p x.active ++ p ∷ []) f.wrr_kept
            ∙ ap (λ r. r ++ p ∷ []) e;
      })

  put_back-Placed :
      (p w : ℕ) (running : Bool) (q : List ℕ) (s : State)
      → Given w (s.task p)
      → remove p s.rq.wrr.active ≡ q
      → Placed p w q (put_back k p 0 true running s)
  unfolding put_back
  put_back-Placed p w true q s g e =
      let f = set_curr-Still k l laws (s.task p).sched_class s in
      let h = class_set_curr-Kept k laws (s.task p).sched_class s in
      enqueue_task-Placed p w q _
        (record {
          weighs = ap (λ (x : WrrEntity). x.weight) (f.entity_kept p) ∙ g.weighs;
          custom = ap (λ (x : WrrEntity). x.custom_weight) (f.entity_kept p) ∙ g.custom;
          class_wrr = ground (arith, h.fields_kept p, g.class_wrr);
          policy_wrr = ground (arith, h.fields_kept p, g.policy_wrr);
        })
        (ap (λ (x : WrrRq). remove p x.active) f.wrr_kept ∙ e)
  put_back-Placed p w false q s g e = enqueue_task-Placed p w q s g e

  remove_twice : (p : ℕ) (q : List ℕ) → remove p (remove p q) ≡ remove p q
  remove_twice p q = remove_absent p (remove p q) (ground (arith, elem-remove p p q))

  take_off-static :
      (p : ℕ) (running : Bool) (s : State)
      → ((take_off k p true running s).task p).static_prio ≡ (s.task p).static_prio
  take_off-static p running s =
      ground (arith, Kept.fields_kept (take_off-Kept k l laws p true running s) p)

  -- A runnable task, of any class, that holds no boost and whose nice priority is not in the
  -- real-time range, is made a WRR task with a positive weight: it has that weight, which its
  -- group no longer changes, a full slice for it, and the last place of WRR's queue.
  pub change_policy-joins :
      (p w : ℕ) (reset : Bool) (s : State)
      → Sound s
      → (s.task p).on_rq ≡ true
      → (w == 0) ≡ false
      → w < 4294967296
      → ((u : State) → k.rt_mutex_getprio u p ≡ (u.task p).normal_prio)
      → rt_prio (s.task p).static_prio ≡ false
      → (((change_policy k p sched_wrr w reset s).task p).wrr ≡ own_entity k w)
        × ((change_policy k p sched_wrr w reset s).rq.wrr.active
            ≡ remove p s.rq.wrr.active ++ p ∷ [])
  unfolding change_policy
  change_policy-joins p w reset s v on pos_w word unboosted fair =
      let running = s.rq.curr == p in
      let s1 = take_off k p true running s in
      let s2 = set_task p (record (s1.task p) { sched_reset_on_fork = reset }) s1 in
      let s3 = setscheduler k p sched_wrr w s2 in
      let e = setscheduler-Edit k p sched_wrr w s2 word in
      let given =
        setscheduler-Given k p w s2 pos_w unboosted
          (ground (arith, take_off-static p running s, fair)) in
      let r = put_back-Placed p w running (remove p s.rq.wrr.active) s3 given (
        ap (λ (x : Rq). remove p x.wrr.active) e.rq_kept
        ∙ ap (remove p) (take_off-active p running s v)
        ∙ remove_twice p s.rq.wrr.active) in
      let f =
        check_class_changed-Still k l laws p (s2.task p).sched_class (s2.task p).prio
          (put_back k p 0 true running s3) in
      rw on (f.entity_kept p ∙ r.entity, ap (λ (x : WrrRq). x.active) f.wrr_kept ∙ r.placed)
