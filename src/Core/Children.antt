-- ===== src/Core/Children.antt =====
-- What a new task inherits in sched_fork of core.c.
use cs356_project.Prelude.{ℕ, ◌≡◌, refl, arith, ◌∙◌, Bool, true, false, ◌&&◌, if◌then◌else◌, ap}
use cs356_project.Kernel.Types.{SchedClass, wrr_class, Task, WrrEntity, State, set_task}
use cs356_project.Kernel.External.{Kernel, ClassLaws, fork_op}
use cs356_project.Core.Prio.{rt_policy, set_load_weight}
use cs356_project.Core.Classes.{class_fork}
use cs356_project.Core.Fork.{
  sched_fork, sched_fork_common, reset_fields, reset_policy, fork_class, fresh_stats,
}

-- What dup_task_struct of kernel/fork.c has copied from the parent to the child.
pub record Copied (parent child : Task) : Type 0 where
  pub entity_copied : child.wrr ≡ parent.wrr
  pub policy_copied : child.policy ≡ parent.policy
  pub flag_copied : child.sched_reset_on_fork ≡ parent.sched_reset_on_fork

-- The settings that are handed down.
abbrev pub handed_down : Task → WrrEntity × ℕ × Bool × Bool × ℕ
handed_down t = (t.wrr, t.policy, t.sched_reset_on_fork, t.on_rq, t.state)

-- What the parent's wish for a reset makes of them.
abbrev after_reset : WrrEntity × ℕ × Bool × Bool × ℕ → WrrEntity × ℕ × Bool × Bool × ℕ
after_reset (w, policy, reset, on, state) =
    (w, (if reset && rt_policy policy then 0 else policy), false, on, state)

written : (p : ℕ) (t : Task) (s : State) → (set_task p t s).task p ≡ t
written p t s = ground arith

module _ (k : Kernel) (laws : ClassLaws k) where
  class_fork-handed :
      (c : SchedClass) (p : ℕ) (s : State)
      → handed_down ((class_fork k c p s).task p) ≡ handed_down (s.task p)
  unfolding class_fork
  class_fork-handed wrr_class p s = refl
  class_fork-handed c p s = let f = laws.op_Frame c fork_op p 0 s in ground (arith, f.task_kept p)

  fork_class-handed : (t : Task) → handed_down (fork_class t) ≡ handed_down t
  unfolding fork_class
  fork_class-handed t = ground arith

  set_load_weight-handed :
      (p : ℕ) (s : State) → handed_down ((set_load_weight p s).task p) ≡ handed_down (s.task p)
  unfolding set_load_weight
  set_load_weight-handed p s = ground arith

  reset_fields-handed :
      (t : Task)
      → handed_down (reset_fields t) ≡ (
        t.wrr,
        (if rt_policy t.policy then 0 else t.policy),
        t.sched_reset_on_fork,
        t.on_rq,
        t.state,
      )
  unfolding reset_fields
  reset_fields-handed t = ground arith

  unflagged :
      (p : ℕ) (s : State) (w : WrrEntity) (x : ℕ) (f b : Bool) (y : ℕ)
      → handed_down (s.task p) ≡ (w, x, f, b, y)
      → handed_down ((set_task p (record (s.task p) { sched_reset_on_fork = false }) s).task p)
        ≡ (w, x, false, b, y)
  unflagged p s w x f b y h = ground (arith, h)

  reset_policy-handed :
      (p : ℕ) (s : State)
      → handed_down ((reset_policy p s).task p) ≡ (
        (s.task p).wrr,
        (if rt_policy (s.task p).policy then 0 else (s.task p).policy),
        false,
        (s.task p).on_rq,
        (s.task p).state,
      )
  unfolding reset_policy
  reset_policy-handed p s =
      let s1 = set_task p (reset_fields (s.task p)) s in
      let h = reset_fields-handed (s.task p) in
      unflagged p (set_load_weight p s1) _ _ (s.task p).sched_reset_on_fork _ _
        (set_load_weight-handed p s1 ∙ ap handed_down (written p (reset_fields (s.task p)) s) ∙ h)

  reset_if-handed :
      (p : ℕ) (b : Bool) (s : State)
      → (s.task p).sched_reset_on_fork ≡ b
      → handed_down ((if b then reset_policy p s else s).task p) ≡ (
        (s.task p).wrr,
        (if b && rt_policy (s.task p).policy then 0 else (s.task p).policy),
        false,
        (s.task p).on_rq,
        (s.task p).state,
      )
  reset_if-handed p true s h = reset_policy-handed p s
  reset_if-handed p false s h = ground (arith, h)

  sched_fork-handed :
      (p : ℕ) (s : State)
      → handed_down ((sched_fork k p s).task p) ≡ (
        (s.task p).wrr,
        (if (s.task p).sched_reset_on_fork && rt_policy (s.task p).policy
            then 0
            else (s.task p).policy),
        false,
        false,
        0,
      )
  unfolding sched_fork sched_fork_common
  sched_fork-handed p s =
      let t1 = record (s.task p) { on_rq = false; se = fresh_stats (s.task p).se } in
      let s1 = set_task p t1 s in
      let t2 = record (s1.task p) { state = 0; prio = (s1.task s1.rq.curr).normal_prio } in
      let s2 = set_task p t2 s1 in
      let s3 = if (s2.task p).sched_reset_on_fork then reset_policy p s2 else s2 in
      let s4 = set_task p (fork_class (s3.task p)) s3 in
      let e : handed_down (s2.task p)
          ≡ ((s.task p).wrr, (s.task p).policy, (s.task p).sched_reset_on_fork, false, 0) =
        ap handed_down (written p t2 s1)
        ∙ ap (λ t. handed_down (record t { state = 0 })) (written p t1 s) in
      class_fork-handed (s4.task p).sched_class p s4
      ∙ ap handed_down (written p (fork_class (s3.task p)) s3)
      ∙ fork_class-handed (s3.task p)
      ∙ reset_if-handed p (s2.task p).sched_reset_on_fork s2 refl
      ∙ ap after_reset e

  -- A child that is a copy of the running task, its parent, as far as WRR's entity, the policy and
  -- the flag for children go, is not runnable yet after sched_fork and in state TASK_RUNNING. It has
  -- the parent's WRR entity, weight included, and its policy, except that a real-time policy is reset
  -- to SCHED_NORMAL if the parent asked for it; the policy WRR is not reset. The child itself has no
  -- reset flag.
  pub sched_fork_lem :
      (p : ℕ) (s : State)
      → Copied (s.task s.rq.curr) (s.task p)
      → let parent = s.task s.rq.curr in
        handed_down ((sched_fork k p s).task p) ≡ (
          parent.wrr,
          (if parent.sched_reset_on_fork && rt_policy parent.policy then 0 else parent.policy),
          false,
          false,
          0,
        )
  sched_fork_lem p s c =
      sched_fork-handed p s ∙ ground (arith, c.entity_copied, c.policy_copied, c.flag_copied)
