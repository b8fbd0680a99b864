-- ===== src/Core/Live/Moves.antt =====
-- Moves between groups, and completions, of core.c keep the invariant.
use cs356_project.Prelude.{
  ℕ, ◌≡◌, refl, arith, ◌∙◌, Bool, true, false, ◌&&◌, ◌==◌, if◌then◌else◌, List, [], ◌∷◌, Bool-cases,
  inl, inr, sub32,
}
use cs356_project.Kernel.Types.{SchedClass, fair_class, State, set_task}
use cs356_project.Kernel.External.{Kernel, ClassLaws, ListLaws}
use cs356_project.Wrr.Invariant.Steady.{Steady, Frame-Steady}
use cs356_project.Core.Frames.{Kept, Kept-trans, Frame-Kept}
use cs356_project.Core.Sound.{Sound}
use cs356_project.Core.Off.{Quiet-Off, Edit-Off}
use cs356_project.Core.Policy.Keeps.{Edit, write-Edit}
use cs356_project.Core.Policy.Change.{take_off}
use cs356_project.Core.Policy.Sound.{take_off-Off, take_off-Kept, put_back-Sound}
use cs356_project.Core.Wake.{try_to_wake_up}
use cs356_project.Rt.Memory.{set_task_rq}
use cs356_project.Core.Groups.{class_move_group, sched_move_task}
use cs356_project.Core.Waiters.{
  Waiter, Completion, default_wake_function, wake_up_common, complete, complete_all,
}
use cs356_project.Core.Live.State.{Live}
use cs356_project.Core.Live.Wakes.{try_to_wake_up-Live}
use cs356_project.Core.Live.Changes.{
  Alters, Alters-trans, Alters-Live, Kept-Alters, Edit-Alters, put_back-Kept,
}

module _ (k : Kernel) (l : ListLaws k.lists) (laws : ClassLaws k) where
  move_group-Steady :
      (c : SchedClass) (p : ℕ) (on : Bool) (s : State) → Steady s (class_move_group k c p on s)
  unfolding class_move_group set_task_rq
  move_group-Steady fair_class p on s = Frame-Steady (laws.op_Frame fair_class _ p _ s)
  move_group-Steady c p on s = record { wrr_kept = refl; weight_kept = λ q. refl }

  move_group-Kept :
      (c : SchedClass) (p : ℕ) (on : Bool) (s : State) → Kept s (class_move_group k c p on s)
  unfolding class_move_group set_task_rq
  move_group-Kept fair_class p on s = Frame-Kept (laws.op_Frame fair_class _ p _ s)
  move_group-Kept c p on s = record { curr_kept = refl; idle_kept = refl; fields_kept = λ q. refl }

  sched_move_task-Sound : (p tg : ℕ) (s : State) → Sound s → Sound (sched_move_task k p tg s)
  unfolding sched_move_task
  sched_move_task-Sound p tg s v =
      let on = (s.task p).on_rq in
      let running = s.rq.curr == p in
      let s1 = take_off k p on running s in
      let s2 = set_task p (record (s1.task p) { sched_task_group = tg }) s1 in
      let c = (s2.task p).sched_class in
      let f : Edit p s1 s2 =
        write-Edit p (record (s1.task p) { sched_task_group = tg }) s1 refl (λ w. w) in
      let g = take_off-Kept k l laws p on running s in
      let g' = move_group-Kept c p on s2 in
      let off =
        Quiet-Off k l laws (move_group-Steady c p on s2) g'
          (Edit-Off k l laws f (take_off-Off k l laws p on running s v refl)) in
      let e1 : (s1.task p).on_rq ≡ on = ground (arith, g.fields_kept p) in
      put_back-Sound k l laws p 0 on running _ off
        (ground (arith, g'.fields_kept p) ∙ f.on_rq_kept ∙ e1)

  sched_move_task-Alters : (p tg : ℕ) (s : State) → Alters p s (sched_move_task k p tg s)
  unfolding sched_move_task
  sched_move_task-Alters p tg s =
      let on = (s.task p).on_rq in
      let running = s.rq.curr == p in
      let s1 = take_off k p on running s in
      let t = record (s1.task p) { sched_task_group = tg } in
      let s2 = set_task p t s1 in
      let f : Edit p s1 s2 = write-Edit p t s1 refl (λ w. w) in
      Alters-trans (Kept-Alters (take_off-Kept k l laws p on running s)) (
        Alters-trans (Edit-Alters f) (
          Kept-Alters (
            Kept-trans (move_group-Kept (s2.task p).sched_class p on s2)
              (put_back-Kept k l laws p 0 on running _))))

  -- A task that is not the idle one, and is runnable if it runs, is moved to another group: the
  -- invariant is kept, whatever weight the task has there.
  pub sched_move_task-Live :
      (p tg : ℕ) (s : State)
      → (p == s.rq.idle) ≡ false
      → ((p == s.rq.curr) ≡ true → (s.task p).on_rq ≡ true)
      → Live s
      → Live (sched_move_task k p tg s)
  sched_move_task-Live p tg s i on v =
      Alters-Live p s _ (sched_move_task-Alters p tg s) i on v
        (sched_move_task-Sound p tg s v.sound)

  wake_up_common-Live :
      (q : List Waiter) (mode nr flags : ℕ) (s : State)
      → Live s
      → Live (wake_up_common k q mode nr flags s)
  unfolding wake_up_common default_wake_function
  wake_up_common-Live [] mode nr flags s v = v
  wake_up_common-Live (w ∷ q) mode nr flags s v =
      let (s', woken) = try_to_wake_up k w.task mode flags s in
      let v' = try_to_wake_up-Live k l laws w.task mode flags s v in
      let counts = woken && w.exclusive in
      let left = if counts then sub32 nr 1 else nr in
      elim (Bool-cases (counts && left == 0)) [
        | inl last ↦ rw last v'
        | inr more ↦ rw more (wake_up_common-Live q mode left flags s' v')
      ]

  -- The end of a completion, for one or for all, keeps the invariant, whoever waits.
  pub complete-Live :
      (x : Completion) (s : State) → Live s → Live (complete k x s).1 × Live (complete_all k x s).1
  unfolding complete complete_all
  complete-Live x s v = (wake_up_common-Live x.wait 3 1 0 s v, wake_up_common-Live x.wait 3 0 0 s v)
