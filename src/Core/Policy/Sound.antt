-- ===== src/Core/Policy/Sound.antt =====
-- Every change of policy or priority in core.c keeps WRR's run queue sound.
use cs356_project.Prelude.{
  ℕ, ◌≡◌, ◌<◌, refl, arith, ◌∙◌, Bool, true, false, ◌==◌, if◌then◌else◌, ℤ, Bool-cases, pos, ltb_ℤ,
  inl, inr, eqb_ℤ,
}
use cs356_project.Kernel.Types.{SchedClass, wrr_class, same_class, State, done}
use cs356_project.Kernel.External.{Kernel, ClassLaws, ListLaws}
use cs356_project.Wrr.Invariant.Steady.{Frame-Steady}
use cs356_project.Core.Classes.{
  check_class_changed, class_switched_from, class_switched_to, class_prio_changed, class_put_prev,
  class_set_curr,
}
use cs356_project.Core.Frames.{
  Kept, Kept-refl, Kept-trans, Frame-Kept, dequeue_task-Kept, class_put_prev-Kept,
  class_set_curr-Kept,
}
use cs356_project.Core.Sound.{Sound, Quiet-Sound, class_put_prev-Steady, class_set_curr-Steady}
use cs356_project.Core.Off.{
  Off, dequeue-Off, asleep-Off, Quiet-Off, Edit-Off, enqueue-Sound, stay-Sound,
}
use cs356_project.Core.Policy.Keeps.{Edit-trans, setscheduler-Edit, write_class-Edit, write-Edit}
use cs356_project.Core.Policy.Change.{take_off, put_back, change_policy, boost, rt_mutex_setprio}

module _ (k : Kernel) (l : ListLaws k.lists) (laws : ClassLaws k) where
  put_prev-Off :
      (p : ℕ) (running : Bool) (s : State)
      → Off p s
      → Off p (if running then class_put_prev k (s.task p).sched_class p s else s)
  put_prev-Off p true s v =
      Quiet-Off k l laws (class_put_prev-Steady k l laws _ p s) (class_put_prev-Kept k laws _ p s) v
  put_prev-Off p false s v = v

  pub take_off-Off :
      (p : ℕ) (on running : Bool) (s : State)
      → Sound s
      → (s.task p).on_rq ≡ on
      → Off p (take_off k p on running s)
  unfolding take_off
  take_off-Off p true running s v e =
      put_prev-Off p running _ (dequeue-Off k l laws p 0 s v (λ _. e))
  take_off-Off p false running s v e = put_prev-Off p running s (asleep-Off k l laws p s v e)

  pub set_curr-Kept :
      (p : ℕ) (running : Bool) (s : State)
      → Kept s (if running then class_set_curr k (s.task p).sched_class s else s)
  set_curr-Kept p true s = class_set_curr-Kept k laws _ s
  set_curr-Kept p false s = Kept-refl s

  set_curr-Off :
      (p : ℕ) (running : Bool) (s : State)
      → Off p s
      → Off p (if running then class_set_curr k (s.task p).sched_class s else s)
  set_curr-Off p true s v =
      Quiet-Off k l laws (class_set_curr-Steady k l laws _ s) (class_set_curr-Kept k laws _ s) v
  set_curr-Off p false s v = v

  pub put_back-Sound :
      (p flags : ℕ) (on running : Bool) (s : State)
      → Off p s
      → (s.task p).on_rq ≡ on
      → Sound (put_back k p flags on running s)
  unfolding put_back
  put_back-Sound p flags true running s v e =
      let g = set_curr-Kept p running s in
      enqueue-Sound k l laws p flags _ (set_curr-Off p running s v)
        (ground (arith, g.fields_kept p))
  put_back-Sound p flags false running s v e =
      let g = set_curr-Kept p running s in
      stay-Sound k l laws p _ (set_curr-Off p running s v) (ground (arith, g.fields_kept p))

  pub take_off-Kept : (p : ℕ) (on running : Bool) (s : State) → Kept s (take_off k p on running s)
  unfolding take_off
  take_off-Kept p true true s =
      Kept-trans (dequeue_task-Kept k laws p 0 s) (class_put_prev-Kept k laws _ p _)
  take_off-Kept p true false s = dequeue_task-Kept k laws p 0 s
  take_off-Kept p false true s = class_put_prev-Kept k laws _ p s
  take_off-Kept p false false s = Kept-refl s

  switched_from-Quiet :
      (c : SchedClass) (p : ℕ) (s : State) → Sound s → Sound (class_switched_from k c p s)
  unfolding class_switched_from
  switched_from-Quiet wrr_class p s v = v
  switched_from-Quiet c p s v =
      let f = laws.op_Frame c _ p 0 s in Quiet-Sound (Frame-Steady f) (Frame-Kept f) v

  switched_to-Quiet :
      (c : SchedClass) (p : ℕ) (s : State) → Sound s → Sound (class_switched_to k c p s)
  unfolding class_switched_to
  switched_to-Quiet wrr_class p s v = v
  switched_to-Quiet c p s v =
      let f = laws.op_Frame c _ p 0 s in Quiet-Sound (Frame-Steady f) (Frame-Kept f) v

  prio_changed-Quiet :
      (c : SchedClass) (p : ℕ) (oldprio : ℤ) (s : State)
      → Sound s
      → Sound (class_prio_changed k c p oldprio s)
  unfolding class_prio_changed
  prio_changed-Quiet wrr_class p oldprio s v = v
  prio_changed-Quiet c p oldprio s v =
      let f = laws.op_Frame c _ p _ s in Quiet-Sound (Frame-Steady f) (Frame-Kept f) v

  pub check_class_changed-Sound :
      (p : ℕ) (prev : SchedClass) (oldprio : ℤ) (s : State)
      → Sound s
      → Sound (check_class_changed k p prev oldprio s)
  unfolding check_class_changed
  check_class_changed-Sound p prev oldprio s v =
      let c = (s.task p).sched_class in
      elim (Bool-cases (same_class prev c)) [
        | inr other ↦ rw other (switched_to-Quiet c p _ (switched_from-Quiet prev p s v))
        | inl same ↦ rw same (elim (Bool-cases (eqb_ℤ oldprio (s.task p).prio)) [
          | inl still ↦ rw still v
          | inr moved ↦ rw moved (prio_changed-Quiet c p oldprio s v)
        ])
      ]

  -- Whatever the task's state was and whether it runs: after a change of policy WRR's queue is
  -- well formed, and holds the runnable tasks of the class and no others.
  pub change_policy-Sound :
      (p policy prio : ℕ) (reset : Bool) (s : State)
      → prio < 4294967296
      → Sound s
      → Sound (change_policy k p policy prio reset s)
  unfolding change_policy
  change_policy-Sound p policy prio reset s h v =
      let on = (s.task p).on_rq in
      let running = s.rq.curr == p in
      let s1 = take_off k p on running s in
      let g = take_off-Kept p on running s in
      let f =
        Edit-trans
          (write-Edit p (record (s1.task p) { sched_reset_on_fork = reset }) s1 refl (λ w. w))
          (setscheduler-Edit k p policy prio _ h) in
      check_class_changed-Sound p _ _ _ (
        put_back-Sound p 0 on running _ (Edit-Off k l laws f (take_off-Off p on running s v refl))
          (f.on_rq_kept ∙ ground (arith, g.fields_kept p)))

  pub boost-Sound : (p : ℕ) (prio : ℤ) (s : State) → Sound s → Sound (boost k p prio s)
  unfolding boost
  boost-Sound p prio s v =
      let on = (s.task p).on_rq in
      let running = s.rq.curr == p in
      let s1 = take_off k p on running s in
      let g = take_off-Kept p on running s in
      let f = write_class-Edit p prio s1 in
      check_class_changed-Sound p _ _ _ (
        put_back-Sound p _ on running _ (Edit-Off k l laws f (take_off-Off p on running s v refl))
          (f.on_rq_kept ∙ ground (arith, g.fields_kept p)))

  -- Priority inheritance, at every priority from 0 to 140, does not stop the kernel and keeps the
  -- queue sound, whether the task sleeps, waits or runs.
  pub rt_mutex_setprio-Sound :
      (p : ℕ) (prio : ℤ) (s : State)
      → ltb_ℤ prio (pos 0) ≡ false
      → ltb_ℤ (pos 140) prio ≡ false
      → Sound s
      → (t : State) × (rt_mutex_setprio k p prio s ≡ done t) × Sound t
  unfolding rt_mutex_setprio
  rt_mutex_setprio-Sound p prio s lo hi v = elim (Bool-cases (p == s.rq.idle)) [
    | inl idle ↦ (s, rw (lo, hi, idle), v)
    | inr other ↦ (boost k p prio s, rw (lo, hi, other), boost-Sound p prio s v)
  ]
