-- ===== src/Wrr/RoundRobin/GivesWay.antt =====
-- A tick of wrr.c moves a task from its place in the queue only if it asks for a pass of the
-- scheduler.
use cs356_project.Prelude.{
  ℕ, ◌-◌, ◌<◌, ◌≡◌, refl, arith, ◌∙◌, ap, subst, true, false, Bool-cases, inl, inr, ◌==◌, ◌⊎◌,
}
use cs356_project.Kernel.Types.{State, done, finished, WrrRq, set_entity}
use cs356_project.Kernel.Links.{same_link, prev_link, next_link}
use cs356_project.Kernel.External.{Kernel}
use cs356_project.Wrr.Weight.{full_slice, wrr_throttled, task_group_path}
use cs356_project.Wrr.Queue.{update_curr_wrr, requeue_wrr_entity}
use cs356_project.Wrr.Class.{
  task_tick_wrr, count_down, renew, rotate, retire, retire_if_throttled, debug_path,
  set_tsk_need_resched, requeue_task_wrr,
}
use cs356_project.Wrr.RoundRobin.View.{update_curr_wrr-Still, debug_path-Still}

-- The running task stays the same; the queue stays as it is, or the task is asked to give way.
pub record GivesWay (p : ℕ) (s t : State) : Type 0 where
  pub curr_kept : t.rq.curr ≡ s.rq.curr
  pub asked : ((t.task p).need_resched ≡ true) ⊎ (t.rq.wrr.active ≡ s.rq.wrr.active)

pub GivesWay-after :
    {p : ℕ} {s t u : State}
    → t.rq.curr ≡ s.rq.curr
    → t.rq.wrr ≡ s.rq.wrr
    → GivesWay p t u
    → GivesWay p s u
GivesWay-after {p} {s} {t} {u} c w g = record {
  curr_kept = g.curr_kept ∙ c;
  asked =
      elim g.asked
        as (λ _. ((u.task p).need_resched ≡ true) ⊎ (u.rq.wrr.active ≡ s.rq.wrr.active)) [
          | inl h ↦ inl h
          | inr h ↦ inr (h ∙ ap (λ (x : WrrRq). x.active) w)
        ];
}

module _ (k : Kernel) (p : ℕ) where
  retire-GivesWay : (s : State) → GivesWay p s (retire k p s)
  unfolding retire set_tsk_need_resched requeue_task_wrr requeue_wrr_entity
  retire-GivesWay s = record { curr_kept = refl; asked = inl (ground arith) }

  retire_if-GivesWay : (s : State) → GivesWay p s (retire_if_throttled k p s)
  unfolding retire_if_throttled wrr_throttled
  retire_if-GivesWay s =
      let s' = (wrr_throttled k s).1 in
      elim (Bool-cases (wrr_throttled k s).0) [
        | inl held ↦ rw held (GivesWay-after {t = s'} refl refl (retire-GivesWay s'))
        | inr free ↦ rw free (record { curr_kept = refl; asked = inr refl })
      ]

  rotate-GivesWay : (s : State) → GivesWay p s (rotate k p s)
  unfolding rotate
  rotate-GivesWay s =
      let q = s.rq.wrr.active in
      elim (Bool-cases (same_link (prev_link p q) (next_link p q))) [
        | inl alone ↦ rw alone (retire_if-GivesWay s)
        | inr others ↦ rw others (retire-GivesWay s)
      ]

  debug_path-curr : (s : State) → (debug_path k p s).rq.curr ≡ s.rq.curr
  unfolding debug_path task_group_path
  debug_path-curr s = ground arith

  renew-GivesWay : (s : State) → GivesWay p s (renew k p s)
  unfolding renew
  renew-GivesWay s =
      let s1 =
        set_entity p (record (s.task p).wrr { time_slice = full_slice k (s.task p).wrr.weight })
          s in
      GivesWay-after (debug_path-curr s1) (debug_path-Still k p s1).wrr_kept
        (rotate-GivesWay (debug_path k p s1))

  count_down-GivesWay : (slice : ℕ) (s : State) → GivesWay p s (count_down k p slice s)
  unfolding count_down
  count_down-GivesWay slice s =
      let s1 = set_entity p (record (s.task p).wrr { time_slice = slice - 1 }) s in
      elim (Bool-cases (slice - 1 == 0)) [
        | inl last ↦ rw last (GivesWay-after {t = s1} refl refl (renew-GivesWay s1))
        | inr more ↦ rw more (record { curr_kept = refl; asked = inr refl })
      ]

  update_curr-curr : (s : State) → (update_curr_wrr s).rq.curr ≡ s.rq.curr
  unfolding update_curr_wrr
  update_curr-curr s = ground arith

  -- A tick of a task with slice left.
  pub task_tick_wrr-GivesWay :
      (s t : State) → 0 < (s.task p).wrr.time_slice → task_tick_wrr k p s ≡ done t → GivesWay p s t
  unfolding task_tick_wrr
  task_tick_wrr-GivesWay s t h run =
      let s1 = update_curr_wrr s in
      let s' = debug_path k p s1 in
      let f = update_curr_wrr-Still s in
      let g = debug_path-Still k p s1 in
      let some_left : ((s'.task p).wrr.time_slice == 0) ≡ false =
        ground (arith, h, g.entity_kept p ∙ f.entity_kept p) in
      subst (GivesWay p s) (finished (rw some_left at run)) (
        GivesWay-after (debug_path-curr s1 ∙ update_curr-curr s) (g.wrr_kept ∙ f.wrr_kept)
          (count_down-GivesWay (s'.task p).wrr.time_slice s'))
