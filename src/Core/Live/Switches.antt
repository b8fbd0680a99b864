-- ===== src/Core/Live/Switches.antt =====
-- One pass of __schedule in core.c, and sched_yield.
use cs356_project.Prelude.{
  ℕ, ◌≡◌, refl, arith, ◌∙◌, Bool, true, false, not, ◌&&◌, ◌==◌, some, Bool-cases, inl, inr, pos,
  add64,
}
use cs356_project.Kernel.Types.{State, Rq, done, set_task, set_rq}
use cs356_project.Kernel.External.{Kernel, ClassLaws, ListLaws, IdleLaw}
use cs356_project.Wrr.Invariant.Steady.{Steady-Inv}
use cs356_project.Core.Sound.{Sound, is_wrr}
use cs356_project.Core.Switch.{count_switch, switch_to, schedule_pass}
use cs356_project.Core.Live.State.{Live, Safe, Quiet-Safe, write-Safe, write-Live}
use cs356_project.Core.Live.Picks.{pick_next_task-Picked}
use cs356_project.Core.Live.Sleeps.{leave-Safe, put_prev_task-Safe}

-- The other fields of the run queue do not matter to WRR's.
rq-Sound : (r : Rq) (s : State) → r.wrr ≡ s.rq.wrr → Sound s → Sound (set_rq r s)
rq-Sound r s h v = record {
  inv = Steady-Inv (record { wrr_kept = h; weight_kept = λ p. refl }) v.inv;
  linked = λ p. rw h (v.linked p);
}

rq-Safe :
    {c : ℕ} (r : Rq) (s : State)
    → r.wrr ≡ s.rq.wrr
    → r.curr ≡ s.rq.curr
    → r.idle ≡ s.rq.idle
    → Safe c s
    → Safe c (set_rq r s)
rq-Safe r s h c i v = record {
  sound = rq-Sound r s h v.sound;
  idle_own = rw i v.idle_own;
  at = c ∙ v.at;
}

module _ (k : Kernel) where
  count_switch-Live : (p : ℕ) (b : Bool) (s : State) → Live s → Live (count_switch k p b s)
  count_switch-Live p true s v = write-Live p _ s refl refl refl v
  count_switch-Live p false s v = write-Live p _ s refl refl refl v

  -- The running task changes to one that is on the queue, if it is a WRR task.
  switch_to-Live :
      (prev next : ℕ) (b : Bool) (s : State)
      → Safe prev s
      → (is_wrr (s.task next) ≡ true → (s.task next).on_rq ≡ true)
      → (t : State) × (switch_to k prev b (some next, s) ≡ done t) × Live t
  unfolding switch_to
  switch_to-Live prev next b s v r =
      let s1 = set_task prev (record (s.task prev) { need_resched = false }) s in
      let s2 = set_rq (record s1.rq { skip_clock_update = pos 0 }) s1 in
      let s3 = set_rq (record s2.rq { nr_switches = add64 s2.rq.nr_switches 1; curr = next }) s2 in
      let v1 : Safe prev s1 =
        write-Safe prev (record (s.task prev) { need_resched = false }) s refl refl refl v in
      let v2 : Safe prev s2 = rq-Safe s2.rq s1 refl refl refl v1 in
      elim (Bool-cases (prev == next)) [
        | inl same ↦ (
          s2,
          rw same refl,
          record {
            sound = v2.sound;
            idle_own = v2.idle_own;
            running = λ w. ground (arith, r, v.at);
          },
        )
        | inr other ↦ (
          count_switch k prev b s3,
          rw other refl,
          count_switch-Live prev b s3 (record {
            sound = rq-Sound s3.rq s2 refl v2.sound;
            idle_own = v2.idle_own;
            running = λ w. ground (arith, r);
          }),
        )
      ]

module _ (k : Kernel) (l : ListLaws k.lists) (laws : ClassLaws k) (idle : IdleLaw k) where
  -- A pass of the scheduler, by a task that sleeps, yields or was preempted, never meets BUG(), and
  -- keeps the invariant: the task that runs then is on the queue, if it is a WRR task.
  pub schedule_pass-Live :
      (preempted : Bool) (s : State)
      → Live s
      → (t : State) × (schedule_pass k preempted s ≡ done t) × Live t
  unfolding schedule_pass
  schedule_pass-Live preempted s v =
      let prev = s.rq.curr in
      let v1 = put_prev_task-Safe k l laws prev prev _ (leave-Safe k l laws preempted s v) in
      let (p, u, found, f) = pick_next_task-Picked k l laws idle _ v1.sound v1.idle_own in
      let b = not ((s.task prev).state == 0) && not preempted in
      let (t, run, w) =
        switch_to-Live k prev p b u (Quiet-Safe f.steady f.kept v1) (f.runs p refl) in
      (t, rw (schedule_pass, found) run, w)
