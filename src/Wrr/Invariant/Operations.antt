-- ===== src/Wrr/Invariant/Operations.antt =====
-- The operations of wrr.c keep the invariant of the run queue.
use cs356_project.Prelude.{
  ℕ, ◌-◌, ◌<◌, ◌≡◌, refl, arith, [], ◌∷◌, ◌++◌, Bool, true, false, elem, remove, sym, ◌∙◌,
  length-append, remove_absent, remove-Distinct, append-Distinct, elem-remove, length-remove, u32,
  ap,
}
use cs356_project.Kernel.Types.{State, done}
use cs356_project.Kernel.External.{Kernel, ListLaws}
use cs356_project.Wrr.Queue.{
  update_curr_wrr, requeue_wrr_entity, inc_wrr_tasks, dec_wrr_tasks, enqueue_wrr_entity,
  dequeue_wrr_entity,
}
use cs356_project.Wrr.Class.{
  enqueue_task_wrr, dequeue_task_wrr, wants_head, task_tick_wrr, count_down, renew, rotate, retire,
  retire_if_throttled, debug_path, set_tsk_need_resched, requeue_task_wrr,
}
use cs356_project.Wrr.Weight.{update_weight, wrr_throttled, task_group_path}
use cs356_project.Wrr.Invariant.{Inv, total-append, total-remove}
use cs356_project.Wrr.Invariant.Steady.{
  Steady-trans, Steady-Inv, write-Steady, update_curr_wrr-Steady, inc_nr_running-Steady,
  dec_nr_running-Steady, debug_path-Steady, wrr_throttled-Steady,
}
use cs356_project.Wrr.Invariant.Keeps.{Only, Only-trans, update_weight-Only, refill-Only}

-- A step on a task that is not queued keeps the invariant.
pub Only-Inv : {p : ℕ} {s t : State} → Only p s t → elem p s.rq.wrr.active ≡ false → Inv s → Inv t
Only-Inv {p} {s} {t} f h v = record {
  distinct = rw f.rq_kept v.distinct;
  counted = rw f.rq_kept v.counted;
  weighed = rw f.rq_kept (v.weighed ∙ ap u32 (sym (f.total_kept s.rq.wrr.active h)));
  weight_word = f.words_kept v.weight_word;
}

module _ (k : Kernel) (l : ListLaws k.lists) where
  -- The entity joins a queue that it is not in, and is counted.
  join-Inv :
      (p : ℕ) (head : Bool) (s : State)
      → elem p s.rq.wrr.active ≡ false
      → Inv s
      → Inv (inc_wrr_tasks p (requeue_wrr_entity k p head s))
  unfolding inc_wrr_tasks requeue_wrr_entity
  join-Inv p true s h v =
      let q = s.rq.wrr.active in
      let e = l.move_lem p q ∙ ap (◌∷◌ p) (remove_absent p q h) in
      record {
        distinct = rw e (h, v.distinct);
        counted = rw e (omega (arith, v.counted));
        weighed = rw e (omega (arith, v.weighed));
        weight_word = v.weight_word;
      }
  join-Inv p false s h v =
      let q = s.rq.wrr.active in
      let e = l.move_tail_lem p q ∙ ap (λ r. r ++ p ∷ []) (remove_absent p q h) in
      record {
        distinct = rw e (append-Distinct p q v.distinct h);
        counted = rw e (omega (arith, v.counted, length-append q (p ∷ [])));
        weighed = rw e (omega (arith, v.weighed, total-append s.task q (p ∷ [])));
        weight_word = v.weight_word;
      }

  -- Enqueueing a task that is not queued, with any flags, keeps the invariant.
  pub enqueue_task_wrr-Inv :
      (p flags : ℕ) (s : State)
      → elem p s.rq.wrr.active ≡ false
      → Inv s
      → Inv (enqueue_task_wrr k p flags s)
  unfolding enqueue_task_wrr enqueue_wrr_entity
  enqueue_task_wrr-Inv p flags s h v =
      let f = Only-trans (update_weight-Only k p s) (refill-Only k p (update_weight k p s)) in
      Steady-Inv (inc_nr_running-Steady _)
        (join-Inv p (wants_head flags) _ (rw f.rq_kept h) (Only-Inv f h v))

  -- The entity leaves a queue that it is in.
  dequeue_wrr_entity-Inv :
      (p : ℕ) (s : State) → elem p s.rq.wrr.active ≡ true → Inv s → Inv (dequeue_wrr_entity k p s)
  unfolding dequeue_wrr_entity dec_wrr_tasks
  dequeue_wrr_entity-Inv p s h v =
      let q = s.rq.wrr.active in
      record {
        distinct = rw (l.del_init_lem p q) (remove-Distinct p q v.distinct);
        counted =
            rw (l.del_init_lem p q) (omega (arith, v.counted, length-remove p q v.distinct h));
        weighed =
            rw (l.del_init_lem p q)
              (omega (arith, v.weighed, v.weight_word p, total-remove p s.task q v.distinct h));
        weight_word = v.weight_word;
      }

  -- Moving a queued entity changes neither counter.
  pub requeue_wrr_entity-Inv :
      (p : ℕ) (head : Bool) (s : State)
      → elem p s.rq.wrr.active ≡ true
      → Inv s
      → Inv (requeue_wrr_entity k p head s)
  unfolding requeue_wrr_entity
  requeue_wrr_entity-Inv p true s h v =
      let q = s.rq.wrr.active in
      let e = l.move_lem p q in
      record {
        distinct = rw e (ground (arith, elem-remove p p q), remove-Distinct p q v.distinct);
        counted = rw e (omega (arith, v.counted, length-remove p q v.distinct h));
        weighed = rw e (omega (arith, v.weighed, total-remove p s.task q v.distinct h));
        weight_word = v.weight_word;
      }
  requeue_wrr_entity-Inv p false s h v =
      let q = s.rq.wrr.active in
      let e = l.move_tail_lem p q in
      record {
        distinct = rw e (
            append-Distinct p (remove p q) (remove-Distinct p q v.distinct)
              (ground (arith, elem-remove p p q)));
        counted = rw e (
            omega (
              arith,
              v.counted,
              length-remove p q v.distinct h,
              length-append (remove p q) (p ∷ []),
            ));
        weighed = rw e (
            omega (
              arith,
              v.weighed,
              total-remove p s.task q v.distinct h,
              total-append s.task (remove p q) (p ∷ []),
            ));
        weight_word = v.weight_word;
      }

  -- Dequeueing a queued task keeps the invariant.
  pub dequeue_task_wrr-Inv :
      (p : ℕ) (s : State) → elem p s.rq.wrr.active ≡ true → Inv s → Inv (dequeue_task_wrr k p s)
  unfolding dequeue_task_wrr
  dequeue_task_wrr-Inv p s h v =
      let f = update_curr_wrr-Steady s in
      Steady-Inv (dec_nr_running-Steady _)
        (dequeue_wrr_entity-Inv p (update_curr_wrr s) (rw f.wrr_kept h) (Steady-Inv f v))

  retire-Inv : (p : ℕ) (s : State) → elem p s.rq.wrr.active ≡ true → Inv s → Inv (retire k p s)
  unfolding retire set_tsk_need_resched requeue_task_wrr
  retire-Inv p s h v = Steady-Inv (write-Steady p _ _ refl) (requeue_wrr_entity-Inv p false s h v)

  rotate-Inv : (p : ℕ) (s : State) → elem p s.rq.wrr.active ≡ true → Inv s → Inv (rotate k p s)
  unfolding rotate retire_if_throttled
  rotate-Inv p s h v =
      let f = wrr_throttled-Steady k s in
      let v' = Steady-Inv f v in
      ground
        (arith, retire-Inv p s h v, v', retire-Inv p (wrr_throttled k s).1 (rw f.wrr_kept h) v')

  renew-Inv : (p : ℕ) (s : State) → elem p s.rq.wrr.active ≡ true → Inv s → Inv (renew k p s)
  unfolding renew
  renew-Inv p s h v =
      let f = Steady-trans (write-Steady p _ s refl) (debug_path-Steady k p _) in
      rotate-Inv p _ (rw f.wrr_kept h) (Steady-Inv f v)

  count_down-Inv :
      (p slice : ℕ) (s : State)
      → elem p s.rq.wrr.active ≡ true
      → Inv s
      → Inv (count_down k p slice s)
  unfolding count_down
  count_down-Inv p slice s h v =
      let f =
        write-Steady p
          (record (s.task p) { wrr = record (s.task p).wrr { time_slice = slice - 1 } }) s refl in
      ground (arith, renew-Inv p _ (rw f.wrr_kept h) (Steady-Inv f v), Steady-Inv f v)

  -- With slice left the tick goes on to the countdown.
  pub tick-count_down :
      (p : ℕ) (s : State)
      → 0 < (s.task p).wrr.time_slice
      → let s' = debug_path k p (update_curr_wrr s) in
        task_tick_wrr k p s ≡ done (count_down k p (s'.task p).wrr.time_slice s')
  unfolding task_tick_wrr update_curr_wrr debug_path task_group_path
  tick-count_down p s ready = ground arith

  -- A tick keeps the invariant, whenever it does not stop the kernel.
  pub task_tick_wrr-Inv :
      (p : ℕ) (s t : State)
      → elem p s.rq.wrr.active ≡ true
      → Inv s
      → task_tick_wrr k p s ≡ done t
      → Inv t
  unfolding task_tick_wrr
  task_tick_wrr-Inv p s t h v e =
      let f = Steady-trans (update_curr_wrr-Steady s) (debug_path-Steady k p _) in
      let s' = debug_path k p (update_curr_wrr s) in
      let inQ : elem p s'.rq.wrr.active ≡ true = rw f.wrr_kept h in
      let v' = Steady-Inv f v in
      ground
        (arith, count_down-Inv p 1 s' inQ v', count_down-Inv p (s'.task p).wrr.time_slice s' inQ v')

  -- A tick of a queued task that has slice left does not stop the kernel, and keeps the invariant,
  -- wherever the task is in the queue.
  pub task_tick_wrr-runs :
      (p : ℕ) (s : State)
      → elem p s.rq.wrr.active ≡ true
      → 0 < (s.task p).wrr.time_slice
      → Inv s
      → (t : State) × (task_tick_wrr k p s ≡ done t) × Inv t
  task_tick_wrr-runs p s h ready v =
      (_, tick-count_down p s ready, task_tick_wrr-Inv p s _ h v (tick-count_down p s ready))
