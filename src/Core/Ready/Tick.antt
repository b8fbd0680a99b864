-- ===== src/Core/Ready/Tick.antt =====
-- A tick of a queued WRR task (wrr.c, task_tick_wrr) leaves slice to all queued tasks, since a slice
-- that is used up is renewed at once.
use cs356_project.Prelude.{
  ℕ, ◌-◌, ◌≡◌, ◌≤◌, refl, arith, true, false, elem, ◌==◌, Bool-cases, inl, inr,
}
use cs356_project.Kernel.Types.{Task, State, done, set_task}
use cs356_project.Kernel.External.{Kernel, ListLaws}
use cs356_project.Kernel.Links.{same_link, next_link, prev_link}
use cs356_project.Wrr.Weight.{full_slice, wrr_throttled}
use cs356_project.Wrr.Queue.{update_curr_wrr}
use cs356_project.Wrr.Class.{
  debug_path, retire, retire_if_throttled, rotate, renew, count_down, task_tick_wrr,
  requeue_task_wrr, set_tsk_need_resched,
}
use cs356_project.Wrr.RoundRobin.View.{
  Still, Still-trans, update_curr_wrr-Still, debug_path-Still, wrr_throttled-Still,
}
use cs356_project.Core.Ready.State.{
  Weighs, Armed, Ready, Still-Ready, task-Ready, same-Ready, own-Armed,
}
use cs356_project.Core.Ready.Queue.{requeue-Ready, full_slice-Weighs}

twice-Still :
    (p : ℕ) (t t' : Task) (s : State) → Still (set_task p t' s) (set_task p t' (set_task p t s))
twice-Still p t t' s = record { wrr_kept = refl; entity_kept = λ q. ground arith }

module _ (k : Kernel) (l : ListLaws k.lists) where
  retire-Ready : (p : ℕ) (s : State) → Armed (s.task p).wrr → Ready s → Ready (retire k p s)
  unfolding retire set_tsk_need_resched requeue_task_wrr
  retire-Ready p s a v = same-Ready p _ _ refl (requeue-Ready k l p false s a v)

  retire_if-Ready :
      (p : ℕ) (s : State) → Armed (s.task p).wrr → Ready s → Ready (retire_if_throttled k p s)
  unfolding retire_if_throttled
  retire_if-Ready p s a v =
      let f = wrr_throttled-Still k s in
      let v' = Still-Ready f v in
      elim (Bool-cases (wrr_throttled k s).0) [
        | inl late ↦ rw late (retire-Ready p (wrr_throttled k s).1 (rw (f.entity_kept p) a) v')
        | inr early ↦ rw early v'
      ]

  rotate-Ready : (p : ℕ) (s : State) → Armed (s.task p).wrr → Ready s → Ready (rotate k p s)
  unfolding rotate
  rotate-Ready p s a v =
      let q = s.rq.wrr.active in
      elim (Bool-cases (same_link (prev_link p q) (next_link p q))) [
        | inl alone ↦ rw alone (retire_if-Ready p s a v)
        | inr not_alone ↦ rw not_alone (retire-Ready p s a v)
      ]

module _ (k : Kernel) (l : ListLaws k.lists) (fast : 100 ≤ k.hz) (slow : k.hz ≤ 10000) where
  -- After the slice was written, whatever it is, it is renewed.
  renew-Ready :
      (p : ℕ) (t : Task) (s : State) → Weighs t.wrr → Ready s → Ready (renew k p (set_task p t s))
  unfolding renew
  renew-Ready p t s w v =
      let s' = set_task p t s in
      let e = (s'.task p).wrr in
      let t' = record (s'.task p) { wrr = record e { time_slice = full_slice k e.weight } } in
      let w' : Weighs e = (ground (arith, w), ground (arith, w)) in
      let a : Armed t'.wrr = (w', full_slice-Weighs k fast slow e.weight w'.0 w'.1) in
      let f = debug_path-Still k p (set_task p t' s') in
      rotate-Ready k l p (debug_path k p (set_task p t' s'))
        (rw (f.entity_kept p) (own-Armed p t' s' a))
        (Still-Ready (Still-trans (twice-Still p t t' s) f)
          (task-Ready p t' s (λ _. w') (λ _. a) v))

  count_down-Ready :
      (p slice : ℕ) (s : State) → Weighs (s.task p).wrr → Ready s → Ready (count_down k p slice s)
  unfolding count_down
  count_down-Ready p slice s w v =
      let t = record (s.task p) { wrr = record (s.task p).wrr { time_slice = slice - 1 } } in
      elim (Bool-cases (slice - 1 == 0)) [
        | inl over ↦ rw over (renew-Ready p t s w v)
        | inr more ↦ rw more (task-Ready p t s (λ _. w) (λ _. (w, ground (arith, more))) v)
      ]

  -- A tick of a queued task does not stop the kernel.
  pub task_tick_wrr-Ready :
      (p : ℕ) (s : State)
      → elem p s.rq.wrr.active ≡ true
      → Ready s
      → (t : State) × (task_tick_wrr k p s ≡ done t) × Ready t
  unfolding task_tick_wrr
  task_tick_wrr-Ready p s h v =
      let f = Still-trans (update_curr_wrr-Still s) (debug_path-Still k p (update_curr_wrr s)) in
      let s' = debug_path k p (update_curr_wrr s) in
      let v' = Still-Ready f v in
      let a : Armed (s'.task p).wrr = rw (f.entity_kept p) (v.armed p h) in
      (_, ground (arith, a.1), count_down-Ready p (s'.task p).wrr.time_slice s' a.0 v')
