-- ===== src/Core/Live/Starts.antt =====
-- The first wake-up of a new task (core.c) keeps the invariant.
use cs356_project.Prelude.{ℕ, ◌≡◌, refl, arith, ◌∙◌, true, false, ap, sym}
use cs356_project.Kernel.Types.{wrr_class, same_class, State}
use cs356_project.Kernel.External.{Kernel, ClassLaws, ListLaws}
use cs356_project.Wrr.Weight.{full_slice}
use cs356_project.Core.Fork.{
  core_group_path, wrr_if_fg, set_group_weight, wrr_set_weight, wake_up_new_task,
}
use cs356_project.Core.Sound.{is_wrr}
use cs356_project.Core.Off.{asleep-Off, Edit-Off}
use cs356_project.Core.Policy.Keeps.{Edit, Edit-trans, write-Edit}
use cs356_project.Core.Live.State.{
  Live, Quiet-Live, check_preempt_curr-Steady, check_preempt_curr-Kept,
}
use cs356_project.Core.Live.Wakes.{activate_marked-Sound, marked-running, marked-idle}

module _ (k : Kernel) (l : ListLaws k.lists) (laws : ClassLaws k) where
  group_weight-Edit : (p : ℕ) (s : State) → Edit p s (set_group_weight k p s)
  unfolding set_group_weight wrr_if_fg core_group_path
  group_weight-Edit p s = record {
    rq_kept = ground arith;
    others_kept = λ q h. ground arith;
    on_rq_kept = ground arith;
    word_kept = λ w. ground arith;
  }

  group_weight-class :
      (p q : ℕ) (s : State) → ((set_group_weight k p s).task q).sched_class ≡ (s.task q).sched_class
  unfolding set_group_weight wrr_if_fg core_group_path
  group_weight-class p q s = ground arith

  group_weight-on_rq :
      (p q : ℕ) (s : State) → ((set_group_weight k p s).task q).on_rq ≡ (s.task q).on_rq
  unfolding set_group_weight wrr_if_fg core_group_path
  group_weight-on_rq p q s = ground arith

  set_weight-Edit : (p : ℕ) (s : State) → Edit p s (wrr_set_weight k p s)
  unfolding wrr_set_weight
  set_weight-Edit p s =
      let s' = set_group_weight k p s in
      let e = record (s'.task p).wrr { time_slice = full_slice k (s'.task p).wrr.weight } in
      let f = write-Edit p (record (s'.task p) { wrr = e }) s' refl (λ w. w) in
      Edit-trans (group_weight-Edit p s) (record {
        rq_kept = ground arith;
        others_kept = λ q h. ground arith;
        on_rq_kept = ground arith;
        word_kept = λ w. ground arith;
      })

  set_weight-class :
      (p q : ℕ) (s : State) → ((wrr_set_weight k p s).task q).sched_class ≡ (s.task q).sched_class
  unfolding wrr_set_weight
  set_weight-class p q s = ground (arith, group_weight-class p q s)

  set_weight-on_rq :
      (p q : ℕ) (s : State) → ((wrr_set_weight k p s).task q).on_rq ≡ (s.task q).on_rq
  unfolding wrr_set_weight
  set_weight-on_rq p q s = ground (arith, group_weight-on_rq p q s)

  set_weight-running :
      (p : ℕ) (s : State)
      → (is_wrr (s.task s.rq.curr) ≡ true → (s.task s.rq.curr).on_rq ≡ true)
      → let t = wrr_set_weight k p s in
        is_wrr (t.task t.rq.curr) ≡ true → (t.task t.rq.curr).on_rq ≡ true
  set_weight-running p s r w = rw (set_weight-Edit p s).rq_kept (
      set_weight-on_rq p s.rq.curr s
      ∙ r (
          ap (λ c. same_class c wrr_class) (sym (set_weight-class p s.rq.curr s))
          ∙ ap (λ q. is_wrr ((wrr_set_weight k p s).task q.curr))
              (sym (set_weight-Edit p s).rq_kept)
          ∙ w))

  set_weight-idle :
      (p : ℕ) (s : State)
      → is_wrr (s.task s.rq.idle) ≡ false
      → let t = wrr_set_weight k p s in is_wrr (t.task t.rq.idle) ≡ false
  set_weight-idle p s r =
      rw (set_weight-Edit p s).rq_kept
        (ap (λ c. same_class c wrr_class) (set_weight-class p s.rq.idle s) ∙ r)

  -- The first wake-up of a new task, which is not yet marked as runnable, keeps the invariant.
  pub wake_up_new_task-Live :
      (p : ℕ) (s : State) → (s.task p).on_rq ≡ false → Live s → Live (wake_up_new_task k p s)
  unfolding wake_up_new_task
  wake_up_new_task-Live p s off v =
      let s' = wrr_set_weight k p s in
      let f = set_weight-Edit p s in
      Quiet-Live (check_preempt_curr-Steady k laws p 2 _) (check_preempt_curr-Kept k laws p 2 _)
        (record {
          sound =
              activate_marked-Sound k l laws p 0 s'
                (Edit-Off k l laws f (asleep-Off k l laws p s v.sound off));
          running = marked-running k l laws p 0 s' (set_weight-running p s v.running);
          idle_own = marked-idle k l laws p 0 s' (set_weight-idle p s v.idle_own);
        })
