-- ===== src/Core/Ready/Queue.antt =====
-- The entities that wrr.c leaves on its queue (enqueue_task_wrr, dequeue_task_wrr, the requeues and
-- task_tick_wrr) have slice.
use native.Mathlib.Nat.{mul-le-mul_right}
use cs356_project.Prelude.{
  ℕ, ◌*◌, ◌/◌, ◌≡◌, ◌<◌, ◌≤◌, arith, subst, List, [], ◌∷◌, ◌++◌, Bool, true, false, elem,
  elem-append, elem-remove, remove, ◌==◌, Bool-cases, inl, inr, if◌then◌else◌, ◌⊎◌,
}
use cs356_project.Kernel.Types.{State}
use cs356_project.Kernel.External.{Kernel, ListLaws}
use cs356_project.Wrr.Weight.{full_slice, update_weight, reweigh, group_weight, task_group_path}
use cs356_project.Wrr.Queue.{
  update_curr_wrr, refill, enqueue_wrr_entity, dequeue_wrr_entity, inc_wrr_tasks, dec_wrr_tasks,
  requeue_wrr_entity, inc_nr_running, dec_nr_running,
}
use cs356_project.Wrr.Class.{wants_head, enqueue_task_wrr, dequeue_task_wrr}
use cs356_project.Wrr.Behaviour.Weights.{full_slice-pos}
use cs356_project.Wrr.RoundRobin.View.{Still, update_curr_wrr-Still}
use cs356_project.Core.Ready.State.{Weighs, Armed, Ready, Still-Ready, task-Ready}

-- The weights of the groups are in range.
group_weight-Weighs : (c w : ℕ) → (0 < group_weight c w) × (group_weight c w ≤ 99)
unfolding group_weight
group_weight-Weighs c w = (ground arith, ground arith)

-- The task that is reweighed, with the weight of its group.
reweigh-Ready : (p c : ℕ) (s : State) → Ready s → Ready (reweigh p c s)
unfolding reweigh
reweigh-Ready p c s v =
    let e = (s.task p).wrr in
    let w = group_weight-Weighs c e.weight in
    elim (Bool-cases (e.custom_weight == 0)) [
      | inl free ↦ rw free (
          task-Ready p (record (s.task p) { wrr = record e { weight = group_weight c e.weight } }) s
            (λ _. w) (λ h. (w, (v.armed p h).1)) v)
      | inr chosen ↦ rw chosen v
    ]

reweigh-Weighs : (p c : ℕ) (s : State) → Ready s → Weighs ((reweigh p c s).task p).wrr
unfolding reweigh
reweigh-Weighs p c s v =
    let e = (s.task p).wrr in
    let w = group_weight-Weighs c e.weight in
    let tame = v.tame p in (ground (arith, w, tame), ground (arith, w, tame))

module _ (k : Kernel) where
  path-Still : (g : ℕ) (s : State) → Still s (task_group_path k g s)
  unfolding task_group_path
  path-Still g s = record { wrr_kept = ground arith; entity_kept = λ q. ground arith }

  update_weight-Ready : (p : ℕ) (s : State) → Ready s → Ready (update_weight k p s)
  unfolding update_weight
  update_weight-Ready p s v = reweigh-Ready p _ _ (Still-Ready (path-Still _ s) v)

  -- After update_weight the weight is in range, chosen or not.
  update_weight-Weighs : (p : ℕ) (s : State) → Ready s → Weighs ((update_weight k p s).task p).wrr
  unfolding update_weight
  update_weight-Weighs p s v = reweigh-Weighs p _ _ (Still-Ready (path-Still _ s) v)

module _ (k : Kernel) (l : ListLaws k.lists) where
  moved :
      (p : ℕ) (head : Bool) (q : List ℕ) (r : ℕ)
      → elem r (if head then k.list_move p q else k.list_move_tail p q) ≡ true
      → (p ≡ r) ⊎ (elem r q ≡ true)
  moved p true q r h =
      let h' : elem r (p ∷ remove p q) ≡ true = subst (λ x. elem r x ≡ true) (l.move_lem p q) h in
      ground (arith, h', elem-remove p r q)
  moved p false q r h =
      let h' : elem r (remove p q ++ p ∷ []) ≡ true =
        subst (λ x. elem r x ≡ true) (l.move_tail_lem p q) h in
      ground (arith, h', elem-append r (remove p q) (p ∷ []), elem-remove p r q)

  -- A task with slice may go to either end of the queue.
  pub requeue-Ready :
      (p : ℕ) (head : Bool) (s : State)
      → Armed (s.task p).wrr
      → Ready s
      → Ready (requeue_wrr_entity k p head s)
  unfolding requeue_wrr_entity
  requeue-Ready p head s a v = record {
    tame = v.tame;
    armed = λ r h. elim (moved p head s.rq.wrr.active r h) [
      | inl same ↦ subst (λ x. Armed (s.task x).wrr) same a
      | inr old ↦ v.armed r old
    ];
  }

  pub dequeue_task_wrr-Ready : (p : ℕ) (s : State) → Ready s → Ready (dequeue_task_wrr k p s)
  unfolding dequeue_task_wrr dequeue_wrr_entity dec_wrr_tasks dec_nr_running
  dequeue_task_wrr-Ready p s v =
      let v' = Still-Ready (update_curr_wrr-Still s) v in
      record {
        tame = v'.tame;
        armed = λ r h.
            let q = (update_curr_wrr s).rq.wrr.active in
            let h' : elem r (remove p q) ≡ true =
              subst (λ x. elem r x ≡ true) (l.del_init_lem p q) h in
            v'.armed r (ground (arith, h', elem-remove p r q));
      }

module _ (k : Kernel) (fast : 100 ≤ k.hz) (slow : k.hz ≤ 10000) where
  pub full_slice-Weighs : (w : ℕ) → 0 < w → w ≤ 99 → 0 < full_slice k w
  full_slice-Weighs w pos_ top =
      full_slice-pos k w fast pos_ (omega (arith, mul-le-mul_right (10 * k.hz / 1000) top))

  refill-Armed : (p : ℕ) (s : State) → Weighs (s.task p).wrr → Armed ((refill k p s).task p).wrr
  unfolding refill
  refill-Armed p s w =
      let slice = full_slice-Weighs (s.task p).wrr.weight w.0 w.1 in
      ((ground (arith, w), ground (arith, w)), ground (arith, slice))

  refill-Ready : (p : ℕ) (s : State) → Weighs (s.task p).wrr → Ready s → Ready (refill k p s)
  unfolding refill
  refill-Ready p s w v =
      let e = (s.task p).wrr in
      task-Ready p (record (s.task p) { wrr = record e { time_slice = full_slice k e.weight } }) s
        (λ _. w) (λ _. (w, full_slice-Weighs e.weight w.0 w.1)) v

  pub enqueue_task_wrr-Ready :
      (l : ListLaws k.lists) (p flags : ℕ) (s : State)
      → Ready s
      → Ready (enqueue_task_wrr k p flags s)
  unfolding enqueue_task_wrr enqueue_wrr_entity inc_wrr_tasks inc_nr_running
  enqueue_task_wrr-Ready l p flags s v =
      let s' = update_weight k p s in
      let w = update_weight-Weighs k p s v in
      let v' = refill-Ready p s' w (update_weight-Ready k p s v) in
      let r = requeue-Ready k l p (wants_head flags) (refill k p s') (refill-Armed p s' w) v' in
      record { tame = r.tame; armed = r.armed }
