-- ===== src/Wrr/RoundRobin/Refines.antt =====
-- task_tick_wrr of wrr.c, at the task in front, does what the abstract line does.
use cs356_project.Prelude.{
  ℕ, zero, suc, ◌-◌, ◌<◌, ◌≡◌, arith, List, [], ◌∷◌, ◌++◌, ◌∙◌, true, elem, remove_absent, Distinct,
  ap, sym, subst, length, leb, Bool-cases, inl, inr, ==_refl,
}
use cs356_project.Kernel.Types.{State, done, WrrEntity, set_entity, WrrRq}
use cs356_project.Kernel.Links.{prev-next-alone, same_link, prev_link, next_link}
use cs356_project.Kernel.External.{Kernel, ListLaws}
use cs356_project.Wrr.Weight.{full_slice, wrr_throttled}
use cs356_project.Wrr.Queue.{update_curr_wrr, requeue_wrr_entity}
use cs356_project.Wrr.Class.{
  task_tick_wrr, count_down, renew, rotate, retire, retire_if_throttled, debug_path,
  set_tsk_need_resched, requeue_task_wrr,
}
use cs356_project.Wrr.RoundRobin.Turns.{spend, renewed}
use cs356_project.Wrr.RoundRobin.View.{
  Still-trans, update_curr_wrr-Still, debug_path-Still, wrr_throttled-Still, turn, line, view,
  line-append, line-write, line-agree,
}

-- A state's queue is moved on by one: the task in front goes to the end, and no entity changes.
record Moved (p : ℕ) (q : List ℕ) (s t : State) : Type 0 where
  active_moved : t.rq.wrr.active ≡ q ++ p ∷ []
  entity_kept : (r : ℕ) → (t.task r).wrr ≡ (s.task r).wrr

module _ (k : Kernel) (l : ListLaws k.lists) (p : ℕ) (q : List ℕ) (d : Distinct (p ∷ q)) where
  retire-Moved : (s : State) → s.rq.wrr.active ≡ p ∷ q → Moved p q s (retire k p s)
  unfolding retire set_tsk_need_resched requeue_task_wrr requeue_wrr_entity
  retire-Moved s e = record {
    active_moved = rw (e, l.move_tail_lem p (p ∷ q), ==_refl p, remove_absent p q d.0);
    entity_kept = λ r. ground arith;
  }

  alone-Moved :
      (s : State) → s.rq.wrr.active ≡ p ∷ q → q ≡ [] → Moved p q s (retire_if_throttled k p s)
  unfolding retire_if_throttled
  alone-Moved s e n =
      let s' = (wrr_throttled k s).1 in
      let f = wrr_throttled-Still k s in
      let g = retire-Moved s' (ap (λ (w : WrrRq). w.active) f.wrr_kept ∙ e) in
      elim (Bool-cases (wrr_throttled k s).0) [
        | inl th ↦ rw th (record {
          active_moved = g.active_moved;
          entity_kept = λ r. g.entity_kept r ∙ f.entity_kept r;
        })
        | inr free ↦
            rw free (record { active_moved = rw (f.wrr_kept, e, n); entity_kept = f.entity_kept })
      ]

  -- Whether the queue is turned or not, the task that was in front is last.
  rotate-Moved : (s : State) → s.rq.wrr.active ≡ p ∷ q → Moved p q s (rotate k p s)
  unfolding rotate
  rotate-Moved s e =
      let a = s.rq.wrr.active in
      let d' : Distinct a = subst Distinct (sym e) d in
      let m : elem p a ≡ true = subst (λ b. elem p b ≡ true) (sym e) (ground arith) in
      elim (Bool-cases (same_link (prev_link p a) (next_link p a))) [
        | inl same ↦
            let short =
              subst (λ b. leb (length b) 1 ≡ true) e (sym (prev-next-alone p a d' m) ∙ same) in
            rw same (alone-Moved s e (ground arith))
        | inr other ↦ rw other (retire-Moved s e)
      ]

  view-rotated : (s t : State) → Moved p q s t → view k t ≡ line k s.task (q ++ p ∷ [])
  view-rotated s t m = rw m.active_moved (line-agree k s.task t.task m.entity_kept (q ++ p ∷ []))

  renew-view :
      (s : State)
      → s.rq.wrr.active ≡ p ∷ q
      → view k (renew k p s) ≡ line k s.task q ++ renewed (turn k s.task p) ∷ []
  unfolding renew
  renew-view s e =
      let s1 =
        set_entity p (record (s.task p).wrr { time_slice = full_slice k (s.task p).wrr.weight })
          s in
      let s2 = debug_path k p s1 in
      let f = debug_path-Still k p s1 in
      let m = rotate-Moved s2 (ap (λ (w : WrrRq). w.active) f.wrr_kept ∙ e) in
      view-rotated s2 (rotate k p s2) m
      ∙ line-agree k s1.task s2.task f.entity_kept (q ++ p ∷ [])
      ∙ line-append k s1.task q (p ∷ [])
      ∙ ground (arith, line-write k p (s1.task p) s.task q d.0)

  count_down-view :
      (s : State) (n : ℕ)
      → s.rq.wrr.active ≡ p ∷ q
      → (s.task p).wrr.time_slice ≡ suc n
      → view k (count_down k p (suc n) s) ≡ spend (line k s.task (p ∷ q))
  unfolding count_down spend
  count_down-view s zero e h =
      let s1 = set_entity p (record (s.task p).wrr { time_slice = 0 }) s in
      ground (arith, renew-view s1 e, line-write k p (s1.task p) s.task q d.0)
  count_down-view s (suc n) e h =
      let s1 = set_entity p (record (s.task p).wrr { time_slice = suc (suc n) - 1 }) s in
      ground (arith, line-write k p (s1.task p) s.task q d.0)

module _ (k : Kernel) (l : ListLaws k.lists) where
  -- A tick of the task in front, with slice left, does not stop the kernel, and moves the line of
  -- turns on by one tick: the front task loses one tick of its slice, or, at its last tick, gets a
  -- full slice, that of the weight it has, and is last in line.
  pub task_tick_wrr-spend :
      (s : State) (p : ℕ) (q : List ℕ)
      → s.rq.wrr.active ≡ p ∷ q
      → Distinct s.rq.wrr.active
      → 0 < (s.task p).wrr.time_slice
      → (t : State) × (task_tick_wrr k p s ≡ done t) × (view k t ≡ spend (view k s))
  unfolding task_tick_wrr
  task_tick_wrr-spend s p q e d h =
      let d' : Distinct (p ∷ q) = subst Distinct e d in
      let s' = debug_path k p (update_curr_wrr s) in
      let f = Still-trans (update_curr_wrr-Still s) (debug_path-Still k p (update_curr_wrr s)) in
      let slice = (s.task p).wrr.time_slice in
      let n : slice ≡ suc (slice - 1) = omega arith in
      let e' = ap (λ (w : WrrRq). w.active) f.wrr_kept ∙ e in
      let h' = ap (λ (w : WrrEntity). w.time_slice) (f.entity_kept p) ∙ n in
      let step = count_down-view k l p q d' s' (slice - 1) e' h' in
      (
        count_down k p (suc (slice - 1)) s',
        ground arith,
        step
            ∙ ap spend
                (line-agree k s.task s'.task f.entity_kept (p ∷ q) ∙ ap (line k s.task) (sym e)),
      )
