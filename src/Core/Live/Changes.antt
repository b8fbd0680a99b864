-- ===== src/Core/Live/Changes.antt =====
-- Changes of policy and boosts of core.c between other entries.
use cs356_project.Prelude.{
  ℕ, ◌≡◌, ◌<◌, refl, arith, ◌∙◌, Bool, true, false, ◌==◌, Bool-cases, inl, inr, ap, ℤ, eqb_ℤ, pos,
  ltb_ℤ, ◌||◌, subst,
}
use cs356_project.Kernel.Types.{
  SchedClass, wrr_class, same_class, State, Rq, done, stopped, finished,
}
use cs356_project.Kernel.External.{Kernel, ClassLaws, ListLaws}
use cs356_project.Core.Classes.{
  check_class_changed, class_switched_from, class_switched_to, class_prio_changed,
}
use cs356_project.Core.Frames.{Kept, Kept-refl, Kept-trans, Frame-Kept, enqueue_task-Kept}
use cs356_project.Core.Sound.{Sound}
use cs356_project.Core.Policy.Keeps.{
  Edit, Edit-trans, write-Edit, setscheduler-Edit, write_class-Edit,
}
use cs356_project.Core.Policy.Change.{change_policy, boost, take_off, put_back, rt_mutex_setprio}
use cs356_project.Core.Policy.Sound.{change_policy-Sound, boost-Sound, take_off-Kept, set_curr-Kept}
use cs356_project.Core.Live.State.{Live}

-- A change that may give task `p` another class, and leaves the other classes, the marks and the
-- running task alone.
pub record Alters (p : ℕ) (s t : State) : Type 0 where
  pub curr_kept : t.rq.curr ≡ s.rq.curr
  pub idle_kept : t.rq.idle ≡ s.rq.idle
  pub marks_kept : (q : ℕ) → (t.task q).on_rq ≡ (s.task q).on_rq
  pub classes_kept : (q : ℕ) → (q == p) ≡ false → (t.task q).sched_class ≡ (s.task q).sched_class

pub Alters-trans : {p : ℕ} {s t u : State} → Alters p s t → Alters p t u → Alters p s u
Alters-trans f g = record {
  curr_kept = g.curr_kept ∙ f.curr_kept;
  idle_kept = g.idle_kept ∙ f.idle_kept;
  marks_kept = λ q. g.marks_kept q ∙ f.marks_kept q;
  classes_kept = λ q h. g.classes_kept q h ∙ f.classes_kept q h;
}

pub Kept-Alters : {p : ℕ} {s t : State} → Kept s t → Alters p s t
Kept-Alters g = record {
  curr_kept = g.curr_kept;
  idle_kept = g.idle_kept;
  marks_kept = λ q. ground (arith, g.fields_kept q);
  classes_kept = λ q h. ground (arith, g.fields_kept q);
}

pub Edit-Alters : {p : ℕ} {s t : State} → Edit p s t → Alters p s t
Edit-Alters {p} f = record {
  curr_kept = ap (λ (r : Rq). r.curr) f.rq_kept;
  idle_kept = ap (λ (r : Rq). r.idle) f.rq_kept;
  marks_kept = λ q. elim (Bool-cases (q == p)) [
    | inl same ↦ ground (arith, f.on_rq_kept)
    | inr other ↦ ground (arith, f.others_kept q other)
  ];
  classes_kept = λ q h. ground (arith, f.others_kept q h);
}

-- The invariant needs to know of the changed task that it is not the idle one, and that it is
-- runnable if it runs.
pub Alters-Live :
    (p : ℕ) (s t : State)
    → Alters p s t
    → (p == s.rq.idle) ≡ false
    → ((p == s.rq.curr) ≡ true → (s.task p).on_rq ≡ true)
    → Live s
    → Sound t
    → Live t
Alters-Live p s t f i on v w = record {
  sound = w;
  running = λ h. elim (Bool-cases (p == s.rq.curr)) [
    | inl same ↦ rw f.curr_kept (f.marks_kept s.rq.curr ∙ ground (arith, on same))
    | inr other ↦ rw f.curr_kept (
        f.marks_kept s.rq.curr
        ∙ v.running (ground (arith, f.classes_kept s.rq.curr, f.curr_kept, h)))
  ];
  idle_own = rw f.idle_kept (ground (arith, f.classes_kept s.rq.idle, v.idle_own));
}

module _ (k : Kernel) (l : ListLaws k.lists) (laws : ClassLaws k) where
  pub put_back-Kept :
      (p flags : ℕ) (on running : Bool) (s : State) → Kept s (put_back k p flags on running s)
  unfolding put_back
  put_back-Kept p flags true running s =
      Kept-trans (set_curr-Kept k l laws p running s) (enqueue_task-Kept k laws p flags _)
  put_back-Kept p flags false running s = set_curr-Kept k l laws p running s

  switched_from-Kept : (c : SchedClass) (p : ℕ) (s : State) → Kept s (class_switched_from k c p s)
  unfolding class_switched_from
  switched_from-Kept wrr_class p s = Kept-refl s
  switched_from-Kept c p s = Frame-Kept (laws.op_Frame c _ p 0 s)

  switched_to-Kept : (c : SchedClass) (p : ℕ) (s : State) → Kept s (class_switched_to k c p s)
  unfolding class_switched_to
  switched_to-Kept wrr_class p s = Kept-refl s
  switched_to-Kept c p s = Frame-Kept (laws.op_Frame c _ p 0 s)

  prio_changed-Kept :
      (c : SchedClass) (p : ℕ) (oldprio : ℤ) (s : State)
      → Kept s (class_prio_changed k c p oldprio s)
  unfolding class_prio_changed
  prio_changed-Kept wrr_class p oldprio s = Kept-refl s
  prio_changed-Kept c p oldprio s = Frame-Kept (laws.op_Frame c _ p _ s)

  pub check_class_changed-Kept :
      (p : ℕ) (prev : SchedClass) (old : ℤ) (s : State)
      → Kept s (check_class_changed k p prev old s)
  unfolding check_class_changed
  check_class_changed-Kept p prev old s =
      let c = (s.task p).sched_class in
      elim (Bool-cases (same_class prev c)) [
        | inr other ↦ rw other (Kept-trans (switched_from-Kept prev p s) (switched_to-Kept c p _))
        | inl same ↦ rw same (elim (Bool-cases (eqb_ℤ old (s.task p).prio)) [
          | inl still ↦ rw still (Kept-refl s)
          | inr moved ↦ rw moved (prio_changed-Kept c p old s)
        ])
      ]

  -- Between taking off and putting back.
  around-Alters :
      (p flags : ℕ) (on running : Bool) (prev : SchedClass) (old : ℤ) (s t : State)
      → Edit p (take_off k p on running s) t
      → Alters p s (check_class_changed k p prev old (put_back k p flags on running t))
  around-Alters p flags on running prev old s t f =
      Alters-trans (Kept-Alters (take_off-Kept k l laws p on running s)) (
        Alters-trans (Edit-Alters f) (
          Kept-Alters (
            Kept-trans (put_back-Kept p flags on running t)
              (check_class_changed-Kept p prev old _))))

  pub change_policy-Alters :
      (p policy prio : ℕ) (reset : Bool) (s : State)
      → prio < 4294967296
      → Alters p s (change_policy k p policy prio reset s)
  unfolding change_policy
  change_policy-Alters p policy prio reset s h =
      let s1 = take_off k p (s.task p).on_rq (s.rq.curr == p) s in
      around-Alters p 0 _ _ _ _ s _ (
        Edit-trans
          (write-Edit p (record (s1.task p) { sched_reset_on_fork = reset }) s1 refl (λ w. w))
          (setscheduler-Edit k p policy prio _ h))

  pub change_policy-Live :
      (p policy prio : ℕ) (reset : Bool) (s : State)
      → prio < 4294967296
      → (p == s.rq.idle) ≡ false
      → ((p == s.rq.curr) ≡ true → (s.task p).on_rq ≡ true)
      → Live s
      → Live (change_policy k p policy prio reset s)
  change_policy-Live p policy prio reset s h i on v =
      Alters-Live p s _ (change_policy-Alters p policy prio reset s h) i on v
        (change_policy-Sound k l laws p policy prio reset s h v.sound)

  pub boost-Live :
      (p : ℕ) (prio : ℤ) (s : State)
      → (p == s.rq.idle) ≡ false
      → ((p == s.rq.curr) ≡ true → (s.task p).on_rq ≡ true)
      → Live s
      → Live (boost k p prio s)
  unfolding boost
  boost-Live p prio s i on v =
      Alters-Live p s _
        (around-Alters p _ _ _ _ _ s _
          (write_class-Edit p prio (take_off k p (s.task p).on_rq (s.rq.curr == p) s)))
        i on v (boost-Sound k l laws p prio s v.sound)

  -- Priority inheritance, at every priority from 0 to 140, does not stop the kernel and keeps the
  -- invariant, for a task that is runnable if it runs.
  pub rt_mutex_setprio-Live :
      (p : ℕ) (prio : ℤ) (s : State)
      → ltb_ℤ prio (pos 0) ≡ false
      → ltb_ℤ (pos 140) prio ≡ false
      → ((p == s.rq.curr) ≡ true → (s.task p).on_rq ≡ true)
      → Live s
      → (t : State) × (rt_mutex_setprio k p prio s ≡ done t) × Live t
  unfolding rt_mutex_setprio
  rt_mutex_setprio-Live p prio s lo hi on v = elim (Bool-cases (p == s.rq.idle)) [
    | inl idle ↦ (s, rw (lo, hi, idle), v)
    | inr other ↦ (boost k p prio s, rw (lo, hi, other), boost-Live p prio s other on v)
  ]

  pub rt_mutex_setprio-done :
      (p : ℕ) (prio : ℤ) (s t : State)
      → ((p == s.rq.curr) ≡ true → (s.task p).on_rq ≡ true)
      → Live s
      → rt_mutex_setprio k p prio s ≡ done t
      → Live t
  unfolding rt_mutex_setprio
  rt_mutex_setprio-done p prio s t on v e =
      elim (Bool-cases (ltb_ℤ prio (pos 0) || ltb_ℤ (pos 140) prio)) [
        | inl out ↦ absurd (stopped (rw out at e))
        | inr fine ↦ elim (Bool-cases (p == s.rq.idle)) [
          | inl idle ↦ subst Live (finished (rw (fine, idle) at e)) v
          | inr other ↦
              subst Live (finished (rw (fine, other) at e)) (boost-Live p prio s other on v)
        ]
      ]
