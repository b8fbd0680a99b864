-- ===== src/Core/Live/Charges.antt =====
-- A tick and a yield of a WRR task (wrr.c), seen from core.c.
use cs356_project.Prelude.{
  subst, ℕ, ◌-◌, ◌≡◌, ◌<◌, refl, arith, ◌∙◌, Bool, true, false, ◌==◌, if◌then◌else◌, Bool-cases,
  inl, inr,
}
use cs356_project.Kernel.Types.{State, bug, done, stopped, finished, set_entity}
use cs356_project.Kernel.Links.{same_link, prev_link, next_link}
use cs356_project.Kernel.External.{Kernel, ListLaws}
use cs356_project.Wrr.Weight.{wrr_throttled, full_slice, task_group_path}
use cs356_project.Wrr.Queue.{requeue_wrr_entity, update_curr_wrr}
use cs356_project.Wrr.Class.{
  task_tick_wrr, count_down, renew, rotate, retire, retire_if_throttled, debug_path,
  set_tsk_need_resched, requeue_task_wrr,
}
use cs356_project.Wrr.Invariant.Operations.{requeue_wrr_entity-Inv, tick-count_down}
use cs356_project.Wrr.Invariant.Steady.{
  Steady-trans, wrr_throttled-Steady, debug_path-Steady, update_curr_wrr-Steady,
}
use cs356_project.Core.Frames.{Kept, Kept-trans, update_curr_wrr-Kept}
use cs356_project.Core.Sound.{queued, queued-kept, requeue-joined}
use cs356_project.Core.Live.State.{Live, Quiet-Live, write-Live}

overrun : {s t : State} (debug : Bool) → (if debug then bug else done s) ≡ done t → s ≡ t
overrun true e = absurd (stopped e)
overrun false e = finished e

module _ (k : Kernel) (l : ListLaws k.lists) where
  pub requeue-Live :
      (p : ℕ) (head : Bool) (s : State)
      → queued p s ≡ true
      → Live s
      → Live (requeue_wrr_entity k p head s)
  unfolding requeue_wrr_entity
  requeue-Live p head s h v = record {
    sound = record {
      inv = requeue_wrr_entity-Inv k l p head s h v.sound.inv;
      linked = λ q. ground (arith, requeue-joined k l p head s q, h, v.sound.linked q);
    };
    running = v.running;
    idle_own = v.idle_own;
  }

  retire-Live : (p : ℕ) (s : State) → queued p s ≡ true → Live s → Live (retire k p s)
  unfolding retire set_tsk_need_resched requeue_task_wrr
  retire-Live p s h v =
      write-Live p _ (requeue_wrr_entity k p false s) refl refl refl (requeue-Live p false s h v)

  throttled-Kept : (s : State) → Kept s (wrr_throttled k s).1
  unfolding wrr_throttled
  throttled-Kept s = record { curr_kept = refl; idle_kept = refl; fields_kept = λ q. refl }

  debug_path-Kept : (p : ℕ) (s : State) → Kept s (debug_path k p s)
  unfolding debug_path task_group_path
  debug_path-Kept p s = record {
    curr_kept = ground arith;
    idle_kept = ground arith;
    fields_kept = λ q. ground arith;
  }

  throttled-Live :
      (p : ℕ) (s : State) → queued p s ≡ true → Live s → Live (retire_if_throttled k p s)
  unfolding retire_if_throttled
  throttled-Live p s h v =
      let f = wrr_throttled-Steady k s in
      let v' = Quiet-Live f (throttled-Kept s) v in
      elim (Bool-cases (wrr_throttled k s).0) [
        | inl held ↦ rw held (retire-Live p _ (queued-kept f p ∙ h) v')
        | inr free ↦ rw free v'
      ]

  rotate-Live : (p : ℕ) (s : State) → queued p s ≡ true → Live s → Live (rotate k p s)
  unfolding rotate
  rotate-Live p s h v =
      let q = s.rq.wrr.active in
      elim (Bool-cases (same_link (prev_link p q) (next_link p q))) [
        | inl alone ↦ rw alone (throttled-Live p s h v)
        | inr others ↦ rw others (retire-Live p s h v)
      ]

  renew-Live : (p : ℕ) (s : State) → queued p s ≡ true → Live s → Live (renew k p s)
  unfolding renew
  renew-Live p s h v =
      let e = record (s.task p).wrr { time_slice = full_slice k (s.task p).wrr.weight } in
      let s' = set_entity p e s in
      let f = debug_path-Steady k p s' in
      let v' = write-Live p (record (s.task p) { wrr = e }) s refl refl refl v in
      rotate-Live p (debug_path k p s') (queued-kept f p ∙ h)
        (Quiet-Live f (debug_path-Kept p s') v')

  count_down-Live :
      (p slice : ℕ) (s : State) → queued p s ≡ true → Live s → Live (count_down k p slice s)
  unfolding count_down
  count_down-Live p slice s h v =
      let e = record (s.task p).wrr { time_slice = slice - 1 } in
      let v' = write-Live p (record (s.task p) { wrr = e }) s refl refl refl v in
      elim (Bool-cases (slice - 1 == 0)) [
        | inl last ↦ rw last (renew-Live p (set_entity p e s) h v')
        | inr more ↦ rw more v'
      ]

  pub tick-Live :
      (p : ℕ) (s : State)
      → queued p s ≡ true
      → 0 < (s.task p).wrr.time_slice
      → Live s
      → (t : State) × (task_tick_wrr k p s ≡ done t) × Live t
  tick-Live p s h ready v =
      let u = update_curr_wrr s in
      let f = Steady-trans (update_curr_wrr-Steady s) (debug_path-Steady k p u) in
      let g = Kept-trans (update_curr_wrr-Kept s) (debug_path-Kept p u) in
      (
        _,
        tick-count_down k l p s ready,
        count_down-Live p _ (debug_path k p u) (queued-kept f p ∙ h) (Quiet-Live f g v),
      )

  -- Without slice left a kernel without debugging goes on, and counts down from 1.
  pub tick_done-Live :
      (p : ℕ) (s t : State) → queued p s ≡ true → Live s → task_tick_wrr k p s ≡ done t → Live t
  unfolding task_tick_wrr
  tick_done-Live p s t h v run =
      let u = update_curr_wrr s in
      let s' = debug_path k p u in
      let f = Steady-trans (update_curr_wrr-Steady s) (debug_path-Steady k p u) in
      let g = Kept-trans (update_curr_wrr-Kept s) (debug_path-Kept p u) in
      let v' = Quiet-Live f g v in
      let h' = queued-kept f p ∙ h in
      elim (Bool-cases ((s'.task p).wrr.time_slice == 0)) [
        | inl over ↦
            subst Live (overrun k.sched_debug (rw over at run)) (count_down-Live p 1 s' h' v')
        | inr left ↦
            subst Live (finished (rw left at run))
              (count_down-Live p (s'.task p).wrr.time_slice s' h' v')
      ]
