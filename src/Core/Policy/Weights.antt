-- ===== src/Core/Policy/Weights.antt =====
-- What a task that becomes a WRR task through core.c finds: its weight, its slice, its place.
use cs356_project.Prelude.{
  ℕ, ◌≡◌, refl, arith, ◌∙◌, ℤ, Bool-cases, inl, inr, eqb_ℤ, ap, [], ◌∷◌, ◌++◌, remove,
}
use cs356_project.Kernel.Types.{State, WrrEntity, Rq, SchedClass, wrr_class, same_class}
use cs356_project.Kernel.External.{Kernel, ClassLaws, ListLaws, Frame}
use cs356_project.Wrr.Weight.{full_slice, task_group_path, update_weight, reweigh}
use cs356_project.Wrr.Queue.{
  refill, enqueue_wrr_entity, inc_wrr_tasks, inc_nr_running, requeue_wrr_entity,
}
use cs356_project.Wrr.Class.{enqueue_task_wrr, set_curr_task_wrr}
use cs356_project.Wrr.Invariant.Keeps.{Only-trans, update_weight-Only, refill-Only}
use cs356_project.Wrr.RoundRobin.View.{Still, Still-trans, write-Still}
use cs356_project.Core.Classes.{
  update_rq_clock, class_set_curr, class_switched_from, class_switched_to, class_prio_changed,
  check_class_changed,
}

-- The entity of a task that joins with a weight of its own.
abbrev pub own_entity : Kernel → ℕ → WrrEntity
own_entity k w = record { time_slice = full_slice k w; weight = w; custom_weight = 1 }

pub Frame-Still : {s t : State} → Frame s t → Still s t
Frame-Still f = record { wrr_kept = f.wrr_kept; entity_kept = λ p. ground (arith, f.task_kept p) }

module _ (k : Kernel) (l : ListLaws k.lists) where
  task_group_path-entity :
      (g p : ℕ) (s : State) → ((task_group_path k g s).task p).wrr ≡ (s.task p).wrr
  unfolding task_group_path
  task_group_path-entity g p s = ground arith

  -- A chosen weight survives update_weight, whatever group the task is in.
  pub update_weight-custom :
      (p : ℕ) (s : State)
      → (s.task p).wrr.custom_weight ≡ 1
      → ((update_weight k p s).task p).wrr ≡ (s.task p).wrr
  unfolding update_weight reweigh
  update_weight-custom p s h =
      let e = task_group_path-entity (s.task p).sched_task_group p s in ground (arith, e)

  pub enqueue_task_wrr-custom :
      (p : ℕ) (s : State)
      → (s.task p).wrr.custom_weight ≡ 1
      → ((enqueue_task_wrr k p 0 s).task p).wrr ≡ own_entity k (s.task p).wrr.weight
  unfolding enqueue_task_wrr enqueue_wrr_entity inc_wrr_tasks inc_nr_running requeue_wrr_entity
      refill
  enqueue_task_wrr-custom p s h = let e = update_weight-custom p s h in ground (arith, e)

  -- Without the head flag a task that was not queued goes to the end.
  pub enqueue_task_wrr-tail :
      (p : ℕ) (s : State)
      → (enqueue_task_wrr k p 0 s).rq.wrr.active ≡ remove p s.rq.wrr.active ++ p ∷ []
  unfolding enqueue_task_wrr enqueue_wrr_entity inc_wrr_tasks inc_nr_running requeue_wrr_entity
  enqueue_task_wrr-tail p s =
      let f = Only-trans (update_weight-Only k p s) (refill-Only k p (update_weight k p s)) in
      l.move_tail_lem p _ ∙ ap (λ (r : Rq). remove p r.wrr.active ++ p ∷ []) f.rq_kept

  pub update_rq_clock-Still : (s : State) → Still s (update_rq_clock k s)
  unfolding update_rq_clock
  update_rq_clock-Still s = record { wrr_kept = ground arith; entity_kept = λ r. ground arith }

module _ (k : Kernel) (l : ListLaws k.lists) (laws : ClassLaws k) where
  pub set_curr-Still : (c : SchedClass) (s : State) → Still s (class_set_curr k c s)
  unfolding class_set_curr set_curr_task_wrr
  set_curr-Still wrr_class s = write-Still s.rq.curr _ s refl
  set_curr-Still c s = Frame-Still (laws.op_Frame c _ s.rq.curr 0 s)

  switched_from-Still : (c : SchedClass) (p : ℕ) (s : State) → Still s (class_switched_from k c p s)
  unfolding class_switched_from
  switched_from-Still wrr_class p s = record { wrr_kept = refl; entity_kept = λ q. refl }
  switched_from-Still c p s = Frame-Still (laws.op_Frame c _ p 0 s)

  switched_to-Still : (c : SchedClass) (p : ℕ) (s : State) → Still s (class_switched_to k c p s)
  unfolding class_switched_to
  switched_to-Still wrr_class p s = record { wrr_kept = refl; entity_kept = λ q. refl }
  switched_to-Still c p s = Frame-Still (laws.op_Frame c _ p 0 s)

  prio_changed-Still :
      (c : SchedClass) (p : ℕ) (oldprio : ℤ) (s : State)
      → Still s (class_prio_changed k c p oldprio s)
  unfolding class_prio_changed
  prio_changed-Still wrr_class p oldprio s = record { wrr_kept = refl; entity_kept = λ q. refl }
  prio_changed-Still c p oldprio s = Frame-Still (laws.op_Frame c _ p _ s)

  pub check_class_changed-Still :
      (p : ℕ) (prev : SchedClass) (oldprio : ℤ) (s : State)
      → Still s (check_class_changed k p prev oldprio s)
  unfolding check_class_changed
  check_class_changed-Still p prev oldprio s =
      let c = (s.task p).sched_class in
      elim (Bool-cases (same_class prev c)) [
        | inr other ↦
            rw other (Still-trans (switched_from-Still prev p s) (switched_to-Still c p _))
        | inl same ↦ rw same (elim (Bool-cases (eqb_ℤ oldprio (s.task p).prio)) [
          | inl still ↦ rw still (record { wrr_kept = refl; entity_kept = λ q. refl })
          | inr moved ↦ rw moved (prio_changed-Still c p oldprio s)
        ])
      ]
